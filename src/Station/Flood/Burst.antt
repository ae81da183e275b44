-- ===== src/Station/Flood/Burst.antt =====
-- Which stations `run_icmp_flood_burst` serves.
use esp_csi_rs_core.Common.{
  ℕ, zero, suc, ◌+◌, ◌%◌, ◌≤◌, ◌<◌, min, ◌≡◌, refl, ap, ◌∙◌, Bool, true, false, All, ◌⊎◌, sym, List,
  [], ◌∷◌, none, some, arith, Bool-cases, inl, inr, ◌==◌, if◌then◌else◌, length,
}
use esp_csi_rs_core.Ap.{Ipv4Addr}
use esp_csi_rs_core.Station.Flood.{
  Flood, Surroundings, Echo, Volley, volley, burst_tick, next_start, attempt, refused,
  build_icmp_echo_ipv4, target, u32_max,
}

abbrev pub destinations : List Echo → List Ipv4Addr
destinations [] = []
destinations (e ∷ es) = e.dst ∷ destinations es

-- The `k` stations from the place `start + i` on, around the list.
abbrev pub around : List Ipv4Addr → ℕ → ℕ → ℕ → List Ipv4Addr
around dsts start i zero = []
around dsts start i (suc k) = target dsts (start + i) ∷ around dsts start (suc i) k

-- The attempts `i`, `i + 1`, …: `k` of them.
abbrev pub attempts : ℕ → ℕ → List ℕ
attempts i zero = []
attempts i (suc k) = i ∷ attempts (suc i) k

refused_now : (left i : ℕ) → some i ≡ (if 0 == suc left then none else some (i + 0))
refused_now left i = ground arith

-- The next start, by the refusal of a volley over `n` stations.
start-refusal :
    (n start k : ℕ) (v : Volley)
    → 0 < n
    → length v.sent ≡ k
    → v.blocked_at ≡ (if k == n then none else some (0 + k))
    → next_start n start v ≡ (if k == n then 0 else (start + k) % n)
unfolding next_start
start-refusal n start k v h l e = elim (Bool-cases (k == n)) [
  | inl all ↦
      let none_refused : v.blocked_at ≡ none = e ∙ ap (λ b. if b then none else some (0 + k)) all in
      let some_sent : (length v.sent == 0) ≡ false = ground arith in
      rw (all, next_start, none_refused, some_sent) refl
  | inr cut ↦
      let one_refused : v.blocked_at ≡ some k =
        e ∙ ap (λ b. if b then none else some (0 + k)) cut ∙ ap some (omega arith) in
      rw (cut, next_start, one_refused) refl
]

later_refusal :
    (k left i : ℕ)
    → (if k == left then none else some (suc i + k))
      ≡ (if suc k == suc left then none else some (i + suc k))
later_refusal k left i = ground arith

module _ (env : Surroundings) (src : Ipv4Addr) (unsolicited : Bool) (dsts : List Ipv4Addr)
    (start : ℕ) where
  open env use {takes}

  record Served (i left : ℕ) (v : Volley) : Type 0 where
    order : destinations v.sent ≡ around dsts start i (length v.sent)
    most : length v.sent ≤ left
    taken : All (λ j. takes j ≡ true) (attempts i (length v.sent))
    full : (length v.sent ≡ left) ⊎ (takes (i + length v.sent) ≡ false)
    refusal : v.blocked_at ≡ (if length v.sent == left then none else some (i + length v.sent))

  serve : (left i : ℕ) (s : Flood) → Served i left (volley env src unsolicited dsts start left i s)
  unfolding volley build_icmp_echo_ipv4 attempt refused
  serve zero i s = record {
    order = refl;
    most = omega arith;
    taken = tt;
    full = inl refl;
    refusal = refl;
  }
  serve (suc left) i s = elim (Bool-cases (takes i)) [
    | inr full ↦ rw full (record {
      order = refl;
      most = omega arith;
      taken = tt;
      full = (let e : i + 0 ≡ i = omega arith in inr (ap takes e ∙ full));
      refusal = refused_now left i;
    })
    | inl taken ↦
        let t = attempt s in
        let later =
          volley env src unsolicited dsts start left (suc i)
            (record t { enqueued = min (t.enqueued + 1) u32_max }) in
        let ih = serve left (suc i) (record t { enqueued = min (t.enqueued + 1) u32_max }) in
        rw taken (record {
          order = ap (λ l. target dsts (start + i) ∷ l) ih.order;
          most = omega (arith, ih.most);
          taken = (taken, ih.taken);
          full =
              (let e : i + suc (length later.sent) ≡ suc i + length later.sent = omega arith in
                elim ih.full [ inl l ↦ inl (ap suc l) | inr f ↦ inr (ap takes e ∙ f) ]);
          refusal = ih.refusal ∙ later_refusal (length later.sent) left i;
        })
  ]

-- A due round of `run_icmp_flood_burst` sends one frame to each station from its start on, around
-- the list: the queue took all that were sent, and where they are fewer than the stations it
-- refused the next one. The next round starts at the first station if all were served, and
-- otherwise at the station that was refused.
pub burst_tick-around :
    (env : Surroundings) (src : Ipv4Addr) (unsolicited : Bool) (dsts : List Ipv4Addr) (start : ℕ)
    (s : Flood)
    → 0 < length dsts
    → (let (v, next) = burst_tick env src unsolicited dsts start s in
        (destinations v.sent ≡ around dsts start 0 (length v.sent))
        × (length v.sent ≤ length dsts)
        × All (λ j. env.takes j ≡ true) (attempts 0 (length v.sent))
        × ((length v.sent ≡ length dsts) ⊎ (env.takes (length v.sent) ≡ false))
        × (next
            ≡ (if length v.sent == length dsts then 0 else (start + length v.sent) % length dsts)))
unfolding burst_tick next_start
burst_tick-around env src unsolicited dsts start s h =
    let v = volley env src unsolicited dsts start (length dsts) 0 s in
    let e = serve env src unsolicited dsts start (length dsts) 0 s in
    (
      e.order,
      e.most,
      e.taken,
      (let z : 0 + length v.sent ≡ length v.sent = omega arith in
          elim e.full [ inl l ↦ inl l | inr f ↦ inr (ap env.takes (sym z) ∙ f) ]),
      start-refusal (length dsts) start (length v.sent) v h refl e.refusal,
    )
