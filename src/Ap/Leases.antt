-- ===== src/Ap/Leases.antt =====
-- The DHCP server's bindings: no two clients share an address, and a client keeps its own.
use mathlib.Core.Option.{some-ne-none, some-injective}
use esp_csi_rs_core.Common.{
  ℕ, zero, suc, ◌+◌, ◌≤◌, ◌<◌, ◌≡◌, ◌≢◌, refl, sym, ap, subst, ◌∙◌, min, Bool, true, false, Option,
  none, some, arith, if◌then◌else◌, Bool-cases, inl, inr, ◌⊎◌, ℕ_discrete,
}
use esp_csi_rs_core.Common.Mac.{Mac, mac_eq, mac_eq_iff}
use esp_csi_rs_core.Ap.{
  Ipv4Addr, WifiApConfig, lease_ip_at, DhcpBinding, Clients, bound_ip, taken, fill_slot,
  assign_from, dhcp_assign_ip,
}
use esp_csi_rs_core.Ap.Slots.{true-ne-false, not_taken, fills, keeps}

abbrev pub Exclusive : Clients → Type 0
Exclusive cs =
    (m n : Mac) (ip : Ipv4Addr) → bound_ip m cs ≡ some ip → bound_ip n cs ≡ some ip → m ≡ n

-- The address comes from the configured pool.
abbrev pub InPool : WifiApConfig → Ipv4Addr → Type 0
InPool c ip = (i : ℕ) × (i < min c.lease_count 8) × (ip ≡ lease_ip_at i c)

-- What a successful assignment to `m` is to be.
pub record Assigned (m : Mac) (c : WifiApConfig) (before after : Clients) (ip : Ipv4Addr)
    : Type 0 where
  pub bound : bound_ip m after ≡ some ip
  pub others : (n : Mac) → m ≢ n → bound_ip n after ≡ bound_ip n before
  pub exclusive : Exclusive after
  pub stable : (old : Ipv4Addr) → bound_ip m before ≡ some old → ip ≡ old
  pub fresh : bound_ip m before ≡ none → InPool c ip

pub mac_cases : (a b : Mac) → (a ≡ b) ⊎ (a ≢ b)
mac_cases a b =
    let (to, from) = mac_eq_iff a b in
    elim (Bool-cases (mac_eq a b)) [
      | inl t ↦ inl (to t)
      | inr f ↦ inr (λ e. true-ne-false (sym (from e) ∙ f))
    ]

mac_differs : (a b : Mac) → a ≢ b → mac_eq a b ≡ false
mac_differs a b d =
    let (to, _) = mac_eq_iff a b in
    elim (Bool-cases (mac_eq a b)) [ inl t ↦ absurd (d (to t)) | inr f ↦ f ]

new-Exclusive :
    (m : Mac) (ip : Ipv4Addr) (cs ds : Clients)
    → Exclusive cs
    → bound_ip m ds ≡ some ip
    → ((n : Mac) → m ≢ n → bound_ip n ds ≡ bound_ip n cs)
    → ((n : Mac) → bound_ip n cs ≢ some ip)
    → Exclusive ds
new-Exclusive m ip cs ds ex bound others free a b x ha hb = elim (mac_cases m a) [
  | inl ea ↦ elim (mac_cases m b) [
    | inl eb ↦ sym ea ∙ eb
    | inr nb ↦
        let same : ip ≡ x = some-injective ip x (sym bound ∙ ap (λ n. bound_ip n ds) ea ∙ ha) in
        absurd (free b (sym (others b nb) ∙ hb ∙ ap some (sym same)))
  ]
  | inr na ↦ elim (mac_cases m b) [
    | inl eb ↦
        let same : ip ≡ x = some-injective ip x (sym bound ∙ ap (λ n. bound_ip n ds) eb ∙ hb) in
        absurd (free a (sym (others a na) ∙ ha ∙ ap some (sym same)))
    | inr nb ↦ ex a b x (sym (others a na) ∙ ha) (sym (others b nb) ∙ hb)
  ]
]

module _ (m : Mac) (c : WifiApConfig) (cs : Clients) (ex : Exclusive cs)
    (n : bound_ip m cs ≡ none) where
  placed :
      (i : ℕ) (ds : Clients)
      → i < min c.lease_count 8
      → taken (lease_ip_at i c) cs ≡ false
      → fill_slot (record { mac = m; ip = lease_ip_at i c }) cs ≡ some ds
      → Assigned m c cs ds (lease_ip_at i c)
  placed i ds l t h =
      let b : DhcpBinding = record { mac = m; ip = lease_ip_at i c } in
      let bound = fills b cs ds h n in
      let others : (k : Mac) → m ≢ k → bound_ip k ds ≡ bound_ip k cs =
        λ k d. keeps b cs ds k h (mac_differs m k d) in
      record {
        bound = bound;
        others = others;
        exclusive =
            new-Exclusive m (lease_ip_at i c) cs ds ex bound others
              (λ k. not_taken cs k (lease_ip_at i c) t);
        stable = λ old e. absurd (some-ne-none old (sym e ∙ n));
        fresh = λ _. (i, l, refl);
      }

  -- What a search in the pool from the index `i` on returns.
  abbrev Searched : Option (Ipv4Addr × Clients) → Type 0
  Searched o = (ip : Ipv4Addr) (ds : Clients) → o ≡ some (ip, ds) → Assigned m c cs ds ip

  Searched-one :
      (i : ℕ) (rest : Option (Ipv4Addr × Clients)) (t : Bool) (o : Option Clients)
      → i < min c.lease_count 8
      → taken (lease_ip_at i c) cs ≡ t
      → fill_slot (record { mac = m; ip = lease_ip_at i c }) cs ≡ o
      → Searched rest
      → Searched (if t then rest else elim o [ some ds ↦ some (lease_ip_at i c, ds) | none ↦ rest ])
  Searched-one i rest true o l t h s ip ds e = s ip ds e
  Searched-one i rest false none l t h s ip ds e = s ip ds e
  Searched-one i rest false (some es) l t h s ip ds e =
      let p = some-injective (lease_ip_at i c, es) (ip, ds) e in
      let address : lease_ip_at i c ≡ ip = ap (λ x. let (a, _) = x in a) p in
      let table : es ≡ ds = ap (λ x. let (_, b) = x in b) p in
      subst (λ a. Assigned m c cs ds a) address (placed i ds l t (h ∙ ap some table))

  searched : (left i : ℕ) → i + left ≤ min c.lease_count 8 → Searched (assign_from left i m c cs)
  unfolding assign_from
  searched zero i l ip ds e = absurd (some-ne-none (ip, ds) (sym e))
  searched (suc left) i l ip ds e =
      Searched-one i (assign_from left (i + 1) m c cs) (taken (lease_ip_at i c) cs)
        (fill_slot (record { mac = m; ip = lease_ip_at i c }) cs) (omega arith) refl refl
        (searched left (i + 1) (omega arith)) ip ds e

assigned :
    (m : Mac) (c : WifiApConfig) (cs ds : Clients) (ip : Ipv4Addr) (o : Option Ipv4Addr)
    → Exclusive cs
    → bound_ip m cs ≡ o
    → elim o [ some held ↦ some (held, cs) | none ↦ assign_from (min c.lease_count 8) 0 m c cs ]
      ≡ some (ip, ds)
    → Assigned m c cs ds ip
assigned m c cs ds ip none ex b h =
    searched m c cs ex b (min c.lease_count 8) 0 (omega arith) ip ds h
assigned m c cs ds ip (some held) ex b h =
    let p = some-injective (held, cs) (ip, ds) h in
    let address : held ≡ ip = ap (λ x. let (a, _) = x in a) p in
    let table : cs ≡ ds = ap (λ x. let (_, t) = x in t) p in
    subst (λ t. Assigned m c cs t ip) table
      (record {
        bound = b ∙ ap some address;
        others = λ n d. refl;
        exclusive = ex;
        stable = λ old e. some-injective ip old (ap some (sym address) ∙ sym b ∙ e);
        fresh = λ e. absurd (some-ne-none held (sym b ∙ e));
      })

-- Where no two clients share an address, `dhcp_assign_ip` that answers a client leaves it so: the
-- client is bound to the answer, which is its old address if it had one and an address of the
-- pool otherwise, and no other client's binding changes.
pub dhcp_assign_ip-Assigned :
    (m : Mac) (c : WifiApConfig) (cs ds : Clients) (ip : Ipv4Addr)
    → Exclusive cs
    → dhcp_assign_ip m c cs ≡ some (ip, ds)
    → Assigned m c cs ds ip
unfolding dhcp_assign_ip
dhcp_assign_ip-Assigned m c cs ds ip ex h = assigned m c cs ds ip (bound_ip m cs) ex refl h

no_answer :
    (ip : Ipv4Addr) (t : Bool) (o : Option Clients) (rest : Option (Ipv4Addr × Clients))
    → (if t then rest else elim o [ some ds ↦ some (ip, ds) | none ↦ rest ]) ≡ none
    → ((t ≡ true) ⊎ (o ≡ none)) × (rest ≡ none)
no_answer ip true o rest h = (inl refl, h)
no_answer ip false none rest h = (inr refl, h)
no_answer ip false (some ds) rest h = absurd (some-ne-none (ip, ds) h)

unanswered :
    (left i : ℕ) (m : Mac) (c : WifiApConfig) (cs : Clients)
    → assign_from left i m c cs ≡ none
    → (j : ℕ) → i ≤ j
    → j < i + left
    → (taken (lease_ip_at j c) cs ≡ true)
      ⊎ (fill_slot (record { mac = m; ip = lease_ip_at j c }) cs ≡ none)
unfolding assign_from
unanswered zero i m c cs h j a b = absurd (omega arith)
unanswered (suc left) i m c cs h j a b =
    let (here, later) =
      no_answer (lease_ip_at i c) (taken (lease_ip_at i c) cs)
        (fill_slot (record { mac = m; ip = lease_ip_at i c }) cs) (assign_from left (i + 1) m c cs)
        h in
    elim (ℕ_discrete i j) [
      | yes e ↦
          subst
            (λ k.
              (taken (lease_ip_at k c) cs ≡ true)
              ⊎ (fill_slot (record { mac = m; ip = lease_ip_at k c }) cs ≡ none))
            e here
      | no d ↦ unanswered left (i + 1) m c cs later j (omega arith) (omega arith)
    ]

refused :
    (m : Mac) (c : WifiApConfig) (cs : Clients) (o : Option Ipv4Addr)
    → elim o [ some held ↦ some (held, cs) | none ↦ assign_from (min c.lease_count 8) 0 m c cs ]
      ≡ none
    → (o ≡ none) × (assign_from (min c.lease_count 8) 0 m c cs ≡ none)
refused m c cs none h = (refl, h)
refused m c cs (some held) h = absurd (some-ne-none (held, cs) h)

-- `dhcp_assign_ip` refuses a client only where it has no binding and each address of the pool is
-- taken or finds no free slot.
dhcp_assign_ip-none :
    (m : Mac) (c : WifiApConfig) (cs : Clients)
    → dhcp_assign_ip m c cs ≡ none
    → (bound_ip m cs ≡ none)
      × ((i : ℕ)
          → i < min c.lease_count 8
          → (taken (lease_ip_at i c) cs ≡ true)
            ⊎ (fill_slot (record { mac = m; ip = lease_ip_at i c }) cs ≡ none))
unfolding dhcp_assign_ip
dhcp_assign_ip-none m c cs h =
    let (free, all_taken) = refused m c cs (bound_ip m cs) h in
    (free, λ i l. unanswered (min c.lease_count 8) 0 m c cs all_taken i (omega arith) (omega arith))
