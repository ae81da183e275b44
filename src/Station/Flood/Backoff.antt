-- ===== src/Station/Flood/Backoff.antt =====
-- How long a flood waits: behind a frame that the send queue refused, where no frame was due, and
-- otherwise.
use esp_csi_rs_core.Common.{
  ℕ, zero, suc, ◌+◌, ◌-◌, ◌/◌, ◌≤◌, ◌<◌, ◌≡◌, refl, ap, ◌∙◌, sym, min, max, Bool, true, false, [],
  arith, ltb, length, Bool-cases, inl, inr, ◌⊎◌,
}
use esp_csi_rs_core.Ap.{Ipv4Addr}
use esp_csi_rs_core.Station.Flood.{
  Flood, Surroundings, Round, catch_up, flood_round, clamp_debt, report, attempt, refused, queued,
  build_icmp_echo_ipv4, catch_up_burst, wait_us,
}

-- What ends the loop of a round, at most `budget` attempts from the attempt `i` on: the next frame is
-- not due, its queue refused the one that was, or the budget is used up.
data Ending (env : Surroundings) (i budget : ℕ) (r : Round) : Type 0 where
  early : r.now_us < r.flood.next_tx_us → r.budget + length r.sent ≡ budget → Ending env i budget r
  full :
      env.takes (i + length r.sent) ≡ false
      → r.flood.next_tx_us ≤ r.now_us
      → r.budget + length r.sent + 1 ≡ budget
      → Ending env i budget r
  used : length r.sent ≡ budget → r.budget ≡ 0 → Ending env i budget r

module _ (env : Surroundings) (src dst : Ipv4Addr) (unsolicited : Bool) where
  open env use {takes, clock}

  loop :
      (budget i now : ℕ) (s : Flood)
      → Ending env i budget (catch_up env src dst unsolicited (λ f. f) budget i now s)
  unfolding catch_up build_icmp_echo_ipv4 attempt refused queued
  loop zero i now s = used refl refl
  loop (suc budget) i now s = elim (Bool-cases (ltb now s.next_tx_us)) [
    | inl wait ↦ rw wait (early (ground arith) (omega arith))
    | inr due ↦ elim (Bool-cases (takes i)) [
      | inr no_room ↦
          let e : i + 0 ≡ i = omega arith in
          rw (due, no_room) (full (ap takes e ∙ no_room) (ground arith) (omega arith))
      | inl taken ↦
          let next = queued (attempt s) in
          let later = catch_up env src dst unsolicited (λ f. f) budget (suc i) (clock i) next in
          let e : suc i + length later.sent ≡ i + suc (length later.sent) = omega arith in
          rw (due, taken)
            (elim (loop budget (suc i) (clock i) next) [
              | early h b ↦ early h (omega (arith, b))
              | full f h b ↦ full (ap takes (sym e) ∙ f) h (omega (arith, b))
              | used l b ↦ used (omega (arith, l)) b
            ])
    ]
  ]

  ending_le : (i budget : ℕ) (r : Round) → Ending env i budget r → r.budget ≤ budget
  ending_le i budget r (early h b) = omega (arith, b)
  ending_le i budget r (full f h b) = omega (arith, b)
  ending_le i budget r (used l b) = omega (arith, b)

  -- A frame that is due takes an attempt.
  due_le :
      (budget i now : ℕ) (s : Flood)
      → ltb now s.next_tx_us ≡ false
      → (let r = catch_up env src dst unsolicited (λ f. f) (suc budget) i now s in
          r.budget ≤ budget)
  unfolding catch_up build_icmp_echo_ipv4
  due_le budget i now s due = elim (Bool-cases (takes i)) [
    | inr no_room ↦ rw (due, no_room) (omega arith)
    | inl taken ↦
        let next = queued (attempt s) in
        rw (due, taken)
          (ending_le (suc i) budget
            (catch_up env src dst unsolicited (λ f. f) budget (suc i) (clock i) next)
            (loop budget (suc i) (clock i) next))
  ]

  idle_round :
      (budget now : ℕ) (s : Flood)
      → ltb now s.next_tx_us ≡ true
      → catch_up env src dst unsolicited (λ f. f) (suc budget) 0 now s
        ≡ record { flood = s; budget = suc budget; now_us = now; sent = [] }
  unfolding catch_up
  idle_round budget now s idle = rw idle refl

report-kept :
    (now : ℕ) (s : Flood)
    → (let t = report now s in
        (t.next_tx_us ≡ s.next_tx_us) × (t.tx_interval_us ≡ s.tx_interval_us))
unfolding report
report-kept now s = ground arith

abbrev paced : ℕ → Flood → ℕ
paced clock_us s = max (min (s.next_tx_us - clock_us) (s.tx_interval_us / 4)) 1

wait_within :
    (budget clock_us : ℕ) (s : Flood) → budget < 16 → wait_us budget clock_us s ≡ paced clock_us s
unfolding wait_us
wait_within budget clock_us s h = ground arith

paced_due : (clock_us : ℕ) (s : Flood) → s.next_tx_us ≤ clock_us → paced clock_us s ≡ 1
paced_due clock_us s h = omega arith

wait_unused : (clock_us : ℕ) (s : Flood) → wait_us 16 clock_us s ≡ 50
unfolding wait_us
wait_unused clock_us s = refl

-- What a round of `run_icmp_flood` waits, by how its loop ended: 50 microseconds where no
-- frame was due; one microsecond where the queue refused a frame, at whichever attempt; and
-- otherwise, with no further frame due or 16 sent, the time to the next frame but at most a
-- quarter of the interval and at least one microsecond. The clock does not run back.
pub flood_round-wait_us :
    (env : Surroundings) (src dst : Ipv4Addr) (unsolicited : Bool) (now clock_us : ℕ) (s : Flood)
    → (let r = flood_round env src dst unsolicited now s in r.now_us ≤ clock_us)
    → (let t = clamp_debt now s in
        let r = flood_round env src dst unsolicited now s in
        let waited = wait_us r.budget clock_us r.flood in
        ((now < t.next_tx_us) × (r.sent ≡ []) × (waited ≡ 50))
        ⊎ ((env.takes (length r.sent) ≡ false)
            × (length r.sent < 16)
            × (r.flood.next_tx_us ≤ r.now_us)
            × (waited ≡ 1))
        ⊎ (((r.now_us < r.flood.next_tx_us) ⊎ (length r.sent ≡ 16))
            × (0 < length r.sent)
            × (waited ≡ max (min (r.flood.next_tx_us - clock_us) (r.flood.tx_interval_us / 4)) 1)))
unfolding flood_round
flood_round-wait_us env src dst unsolicited now clock_us s later =
    let t = clamp_debt now s in
    let r = catch_up env src dst unsolicited (λ f. f) catch_up_burst 0 now t in
    elim (Bool-cases (ltb now t.next_tx_us)) [
      | inl idle ↦
          let e = idle_round env src dst unsolicited 15 now t idle in
          inl (
            ground arith,
            ap (λ q. let p : Round = q in p.sent) e,
            ap (λ b. wait_us b clock_us (report r.now_us r.flood))
                  (ap (λ q. let p : Round = q in p.budget) e)
                ∙ wait_unused clock_us (report r.now_us r.flood),
          )
      | inr due ↦
          let few : r.budget ≤ 15 = due_le env src dst unsolicited 15 0 now t due in
          let within =
            wait_within r.budget clock_us (report r.now_us r.flood) (omega (arith, few)) in
          let (next, interval) = report-kept r.now_us r.flood in
          elim (loop env src dst unsolicited 16 0 now t) [
            | early h b ↦ inr (inr (inl (omega (arith, h, next)), omega (arith, b, few), within))
            | full f h b ↦
                let z : 0 + length r.sent ≡ length r.sent = omega arith in
                let s = report r.now_us r.flood in
                inr (
                  inl (
                    ap env.takes (sym z) ∙ f,
                    omega (arith, b),
                    omega (arith, h, next),
                    within ∙ paced_due clock_us s (omega (arith, h, next, later)),
                  ))
            | used l b ↦ inr (inr (inr l, omega (arith, l), within))
          ]
    ]
