-- ===== src/Station/Flood/Rate.antt =====
-- How fast a flood sends.
use esp_csi_rs_core.Common.{
  ℕ, zero, suc, ◌+◌, ◌-◌, ◌*◌, ◌^◌, ◌≤◌, ◌<◌, ◌≡◌, refl, subst, ◌∙◌, min, Bool, List, [], ◌∷◌,
  arith, ltb, Bool-cases, inl, inr, length, All,
}
use esp_csi_rs_core.Ap.{Ipv4Addr}
use esp_csi_rs_core.Station.Flood.{
  Flood, Surroundings, Round, catch_up, flood_round, clamp_debt, report, queued, attempt, refused,
  build_icmp_echo_ipv4, catch_up_burst,
}

-- What a loop has done when it ends: it keeps the interval, the tick is at most one interval past
-- the horizon, and each frame has moved it by one interval.
record Paid (horizon : ℕ) (s : Flood) (r : Round) : Type 0 where
  interval : r.flood.tx_interval_us ≡ s.tx_interval_us
  ahead : r.flood.next_tx_us ≤ horizon + s.tx_interval_us
  paid : s.next_tx_us + length r.sent * s.tx_interval_us ≤ r.flood.next_tx_us

one_more :
    (next interval k m : ℕ)
    → next + interval < 2 ^ 64
    → min (next + interval) (2 ^ 64 - 1) + k * interval ≤ m
    → next + suc k * interval ≤ m
one_more next interval k m l h =
    let e : min (next + interval) (2 ^ 64 - 1) ≡ next + interval = omega arith in
    let f : suc k * interval ≡ k * interval + interval = grind arith in omega (arith, e, f, h)

-- What the clamp does to the tick.
record Clamped (horizon now : ℕ) (s t : Flood) : Type 0 where
  interval : t.tx_interval_us ≡ s.tx_interval_us
  later : s.next_tx_us ≤ t.next_tx_us
  ahead : t.next_tx_us ≤ horizon + s.tx_interval_us
  debt : now ≤ t.next_tx_us + 16 * s.tx_interval_us

clamp-Clamped :
    (horizon now : ℕ) (s : Flood)
    → s.tx_interval_us ≤ 1000000
    → now ≤ horizon
    → s.next_tx_us ≤ horizon + s.tx_interval_us
    → Clamped horizon now s (clamp_debt now s)
unfolding clamp_debt
clamp-Clamped horizon now s b n h = ground arith

report-kept :
    (now : ℕ) (s : Flood)
    → (let t = report now s in
        (t.tx_interval_us ≡ s.tx_interval_us) × (t.next_tx_us ≡ s.next_tx_us))
unfolding report
report-kept now s = ground arith

module _ (env : Surroundings) (src dst : Ipv4Addr) (unsolicited : Bool) (horizon : ℕ) where
  open env use {takes, clock}

  loop :
      (budget i now : ℕ) (s : Flood)
      → ((j : ℕ) → clock j ≤ horizon)
      → horizon < 2 ^ 63
      → s.tx_interval_us ≤ 1000000
      → now ≤ horizon
      → s.next_tx_us ≤ horizon + s.tx_interval_us
      → Paid horizon s (catch_up env src dst unsolicited (λ f. f) budget i now s)
  unfolding catch_up queued attempt refused build_icmp_echo_ipv4
  loop zero i now s c l b n h = record { interval = refl; ahead = h; paid = omega arith }
  loop (suc budget) i now s c l b n h = elim (Bool-cases (ltb now s.next_tx_us)) [
    | inl wait ↦ rw wait (record { interval = refl; ahead = h; paid = omega arith })
    | inr due ↦ elim (Bool-cases (takes i)) [
      | inr full ↦ rw (due, full) (record { interval = refl; ahead = h; paid = omega arith })
      | inl taken ↦
          let t = queued (attempt s) in
          let ih = loop budget (suc i) (clock i) t c l b (c i) (ground arith) in
          rw (due, taken)
            (record {
              interval = ih.interval;
              ahead = ih.ahead;
              paid = one_more s.next_tx_us s.tx_interval_us _ _ (ground arith) ih.paid;
            })
    ]
  ]

  -- The same of a whole round, and of its clamp: the tick is at most 16 intervals behind the clock.
  round :
      (now : ℕ) (s : Flood)
      → ((j : ℕ) → clock j ≤ horizon)
      → horizon < 2 ^ 63
      → s.tx_interval_us ≤ 1000000
      → now ≤ horizon
      → s.next_tx_us ≤ horizon + s.tx_interval_us
      → (let r = flood_round env src dst unsolicited now s in
          Paid horizon s r
          × (now + length r.sent * s.tx_interval_us ≤ r.flood.next_tx_us + 16 * s.tx_interval_us))
  unfolding flood_round
  round now s c l b n h =
      let t = clamp_debt now s in
      let k = clamp-Clamped horizon now s b n h in
      let r = catch_up env src dst unsolicited (λ f. f) catch_up_burst 0 now t in
      let e =
        loop catch_up_burst 0 now t c l (omega (arith, k.interval, b)) n
          (omega (arith, k.interval, k.ahead)) in
      let (same, kept) = report-kept r.now_us r.flood in
      let paid =
        subst (λ i. t.next_tx_us + length r.sent * i ≤ r.flood.next_tx_us) k.interval e.paid in
      (
        record {
          interval = same ∙ e.interval ∙ k.interval;
          ahead = omega (arith, kept, e.ahead, k.interval);
          paid = omega (arith, kept, paid, k.later);
        },
        omega (arith, kept, paid, k.debt),
      )

-- The arithmetic of two parts of a sequence.
spread : (a b i x y z : ℕ) → x + a * i ≤ y → y + b * i ≤ z → x + (a + b) * i ≤ z
spread a b i x y z p q = let e : (a + b) * i ≡ a * i + b * i = grind arith in omega (arith, e, p, q)

total_bound :
    (a b i now y horizon : ℕ)
    → now + a * i ≤ y + 16 * i
    → y + b * i ≤ horizon + i
    → (a + b) * i + now ≤ horizon + 17 * i
total_bound a b i now y horizon p q =
    let e : (a + b) * i ≡ a * i + b * i = grind arith in omega (arith, e, p, q)

kept_bound : {i j : ℕ} → i ≡ j → j ≤ 1000000 → i ≤ 1000000
kept_bound e h = omega (arith, e, h)

kept_ahead : {i j y : ℕ} (horizon : ℕ) → i ≡ j → y ≤ horizon + j → y ≤ horizon + i
kept_ahead horizon e h = omega (arith, e, h)

-- A sequence of rounds, each at its time: the flood after them and the frames sent.
unfoldable pub flood_rounds :
    Ipv4Addr → Ipv4Addr → Bool → List (ℕ × Surroundings) → Flood → Flood × ℕ
flood_rounds src dst unsolicited [] s = (s, 0)
flood_rounds src dst unsolicited ((now, env) ∷ rest) s =
    let r = flood_round env src dst unsolicited now s in
    let (t, more) = flood_rounds src dst unsolicited rest r.flood in (t, length r.sent + more)

-- All that the clock shows in a round is at most the horizon.
abbrev pub Before : ℕ → ℕ × Surroundings → Type 0
Before horizon (now, env) = (now ≤ horizon) × ((j : ℕ) → env.clock j ≤ horizon)

rounds :
    (src dst : Ipv4Addr) (unsolicited : Bool) (horizon : ℕ) (rs : List (ℕ × Surroundings))
    (s : Flood)
    → horizon < 2 ^ 63
    → s.tx_interval_us ≤ 1000000
    → s.next_tx_us ≤ horizon + s.tx_interval_us
    → All (Before horizon) rs
    → (let (t, total) = flood_rounds src dst unsolicited rs s in
        s.next_tx_us + total * s.tx_interval_us ≤ horizon + s.tx_interval_us)
unfolding flood_rounds
rounds src dst unsolicited horizon [] s l b h w = omega arith
rounds src dst unsolicited horizon ((now, env) ∷ rs) s l b h ((n, c), w) =
    let r = flood_round env src dst unsolicited now s in
    let (e, _) = round env src dst unsolicited horizon now s c l b n h in
    let ih =
      rounds src dst unsolicited horizon rs r.flood l (kept_bound e.interval b)
        (kept_ahead horizon e.interval e.ahead) w in
    let (_, total) = flood_rounds src dst unsolicited rs r.flood in
    let later = subst (λ i. r.flood.next_tx_us + total * i ≤ horizon + i) e.interval ih in
    spread (length r.sent) total s.tx_interval_us s.next_tx_us r.flood.next_tx_us
      (horizon + s.tx_interval_us) e.paid later

-- Over any sequence of rounds between two readings of the clock, in whatever way the send queue
-- fills and the executor stalls, a flood sends at most one frame for each interval between the
-- readings, and 17 more.
pub flood_rounds-rate :
    (src dst : Ipv4Addr) (unsolicited : Bool) (horizon now : ℕ) (env : Surroundings)
    (rs : List (ℕ × Surroundings)) (s : Flood)
    → horizon < 2 ^ 63
    → s.tx_interval_us ≤ 1000000
    → s.next_tx_us ≤ horizon + s.tx_interval_us
    → All (Before horizon) ((now, env) ∷ rs)
    → (let (t, total) = flood_rounds src dst unsolicited ((now, env) ∷ rs) s in
        total * s.tx_interval_us + now ≤ horizon + 17 * s.tx_interval_us)
unfolding flood_rounds
flood_rounds-rate src dst unsolicited horizon now env rs s l b h ((n, c), w) =
    let r = flood_round env src dst unsolicited now s in
    let (e, first) = round env src dst unsolicited horizon now s c l b n h in
    let ih =
      rounds src dst unsolicited horizon rs r.flood l (kept_bound e.interval b)
        (kept_ahead horizon e.interval e.ahead) w in
    let (_, total) = flood_rounds src dst unsolicited rs r.flood in
    let later = subst (λ i. r.flood.next_tx_us + total * i ≤ horizon + i) e.interval ih in
    total_bound (length r.sent) total s.tx_interval_us now r.flood.next_tx_us horizon first later
