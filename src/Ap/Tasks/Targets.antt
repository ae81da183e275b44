-- ===== src/Ap/Tasks/Targets.antt =====
-- Whom the access point floods.
use esp_csi_rs_core.Common.{
  ℕ, zero, suc, ◌+◌, ◌-◌, ◌≤◌, ◌<◌, ◌≡◌, refl, ap, ◌∙◌, ◌⊎◌, inl, inr, min, Bool, true, false, not,
  ◌&&◌, List, Option, some, arith, leb, if◌then◌else◌, Bool-cases, ℕ_discrete, dec_lt, subst, sym,
}
use esp_csi_rs_core.Ap.{Ipv4Addr, WifiApConfig, ActiveLeaseRegistry, lease_pool, pool_from}
use esp_csi_rs_core.Ap.Slots.{true-ne-false}
use esp_csi_rs_core.Ap.Tasks.{
  icmp_flood_multi, icmp_flood_burst, active_leases_pending, is_empty, ping_hz,
  snapshot_active_ping_targets, wait_for_lease, ping_targets, flood_at, ping_lease,
}

abbrev pub NonEmpty : List Ipv4Addr → Type 0
NonEmpty addrs = is_empty addrs ≡ false

pool-NonEmpty : (c : WifiApConfig) → 0 < c.lease_count → NonEmpty (lease_pool c)
unfolding lease_pool pool_from
pool-NonEmpty c h =
    let e : min c.lease_count 8 ≡ suc (min c.lease_count 8 - 1) = omega arith in
    rw (lease_pool, e) refl

nothing_pending :
    (r : ActiveLeaseRegistry)
    → is_empty (snapshot_active_ping_targets r) ≡ true
    → active_leases_pending r ≡ false
unfolding active_leases_pending snapshot_active_ping_targets
nothing_pending r h = ap not h

module _ (leases : ℕ → ActiveLeaseRegistry) (stop_at : ℕ → Bool)
    (runs : (i : ℕ) → stop_at i ≡ false) where
  -- The wait ends at the first attempt that sees a lease, or behind the last.
  record FirstLease (from limit i : ℕ) : Type 0 where
    pub waits : from ≤ i
    pub within : i ≤ limit
    pub before : (j : ℕ) → from ≤ j → j < i → active_leases_pending (leases j) ≡ false
    pub at : i < limit → active_leases_pending (leases i) ≡ true

  wait_first :
      (left i : ℕ)
      → (k : ℕ) × (wait_for_lease leases stop_at left i ≡ some k) × FirstLease i (i + left) k
  unfolding wait_for_lease
  wait_first zero i = (
    i,
    refl,
    record {
      waits = omega arith;
      within = omega arith;
      before = λ j a b. absurd (omega arith);
      at = λ h. absurd (omega arith);
    },
  )
  wait_first (suc left) i = elim (Bool-cases (active_leases_pending (leases i))) [
    | inl p ↦ (
      i,
      rw (wait_for_lease, p) refl,
      record {
        waits = omega arith;
        within = omega arith;
        before = λ j a b. absurd (omega arith);
        at = λ h. p;
      },
    )
    | inr p ↦
        let (k, e, f) = wait_first left (i + 1) in
        (
          k,
          rw (wait_for_lease, p, runs i) e,
          record {
            waits = omega (arith, f.waits);
            within = omega (arith, f.within);
            before = λ j a b. elim (ℕ_discrete i j) [
              | yes same ↦ subst (λ n. active_leases_pending (leases n) ≡ false) same p
              | no ne ↦ f.before j (omega arith) b
            ];
            at = λ h. f.at (omega (arith, h));
          },
        )
  ]

  -- The addresses that are flooded, and where they come from.
  pub record Targets (c : WifiApConfig) (i : ℕ) (addrs : List Ipv4Addr) : Type 0 where
    pub some_one : NonEmpty addrs
    pub source :
        (addrs ≡ snapshot_active_ping_targets (leases i)) ⊎ ((i ≡ 120) × (addrs ≡ lease_pool c))
    pub within : i ≤ 120
    pub before : (j : ℕ) → j < i → active_leases_pending (leases j) ≡ false

  no_lease :
      (i : ℕ)
      → FirstLease 0 120 i
      → is_empty (snapshot_active_ping_targets (leases i)) ≡ true
      → i ≡ 120
  no_lease i f e = elim (dec_lt i 120) [
    | yes l ↦ absurd (true-ne-false (sym (f.at l) ∙ nothing_pending (leases i) e))
    | no l ↦ omega (arith, f.within)
  ]

  targets :
      (c : WifiApConfig) (i : ℕ)
      → 0 < c.lease_count
      → FirstLease 0 120 i
      → Targets c i (ping_targets leases stop_at c i)
  unfolding ping_targets
  targets c i h f = elim (Bool-cases (is_empty (snapshot_active_ping_targets (leases i)))) [
    | inl e ↦ record {
      some_one = rw (ping_targets, e) (pool-NonEmpty c h);
      source = inr (no_lease i f e, rw (ping_targets, e) refl);
      within = f.within;
      before = λ j l. f.before j (omega arith) l;
    }
    | inr e ↦ record {
      some_one = rw (ping_targets, e) e;
      source = inl (rw (ping_targets, e) refl);
      within = f.within;
      before = λ j l. f.before j (omega arith) l;
    }
  ]

  -- Without a stop, with an address in the pool, and where the task does not flood the sole
  -- configured address, it waits for the first lease for at most 120 attempts and then floods a
  -- list that is not empty, by bursts or in turn as configured: the leases of that moment, or,
  -- where none came, the configured pool.
  pub ping_lease-Targets :
      (c : WifiApConfig) (freq : Option ℕ)
      → 0 < c.lease_count
      → (not c.sync_burst && leb c.lease_count 1) ≡ false
      → (i : ℕ) × (addrs : List Ipv4Addr) × Targets c i addrs
        × (ping_lease leases stop_at c freq false false ≡ (
            if c.sync_burst
            then icmp_flood_burst addrs (ping_hz freq)
            else icmp_flood_multi addrs (ping_hz freq)))
  unfolding ping_lease flood_at
  ping_lease-Targets c freq h gathers =
      let (i, e, f) = wait_first 120 0 in
      let t = targets c i h f in
      (
        i,
        ping_targets leases stop_at c i,
        t,
        rw (ping_lease, gathers, e, flood_at, t.some_one) refl,
      )
