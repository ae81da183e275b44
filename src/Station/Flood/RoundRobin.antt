-- ===== src/Station/Flood/RoundRobin.antt =====
-- Which stations `run_icmp_flood_multi` serves.
use native.Mathlib.Nat.{add-mod, mod-mod}
use esp_csi_rs_core.Common.{
  ℕ, zero, suc, get_or, ◌==◌, ◌≢◌, ◌⊎◌, ◌+◌, ◌-◌, ◌%◌, ◌^◌, ◌<◌, ◌≤◌, ◌≡◌, refl, ap, ◌∙◌, Bool,
  List, none, arith, ltb, leb, Bool-cases, inl, inr, if_cases, length, All,
}
use esp_csi_rs_core.Ap.{Ipv4Addr, ipv4}
use esp_csi_rs_core.Station.Flood.{
  Flood, Surroundings, Round, catch_up, multi_round, clamp_debt, report, queued, attempt, refused,
  next_dst, build_icmp_echo_ipv4, catch_up_burst, target,
}

-- A round sends at most `most` frames, all to one station, and moves the index on by one for each.
pub record OneTarget (most : ℕ) (dst : Ipv4Addr) (index : ℕ) (r : Round) : Type 0 where
  pub one : All (λ e. e.dst ≡ dst) r.sent
  pub few : length r.sent ≤ most
  pub moved : r.flood.dst_idx ≡ (index + length r.sent) % 2 ^ 32

module _ (env : Surroundings) (src dst : Ipv4Addr) (unsolicited : Bool) where
  open env use {takes, clock}

  loop :
      (budget i now : ℕ) (s : Flood)
      → s.dst_idx < 2 ^ 32
      → OneTarget budget dst s.dst_idx (catch_up env src dst unsolicited next_dst budget i now s)
  unfolding catch_up queued attempt refused build_icmp_echo_ipv4 next_dst
  loop zero i now s h = record { one = tt; few = omega arith; moved = omega arith }
  loop (suc budget) i now s h = elim (Bool-cases (ltb now s.next_tx_us)) [
    | inl wait ↦ rw wait (record { one = tt; few = omega arith; moved = omega arith })
    | inr due ↦ elim (Bool-cases (takes i)) [
      | inr full ↦ rw (due, full) (record { one = tt; few = omega arith; moved = omega arith })
      | inl taken ↦
          let ih = loop budget (suc i) (clock i) (next_dst (queued (attempt s))) (omega arith) in
          rw (due, taken)
            (record {
              one = (refl, ih.one);
              few = omega (arith, ih.few);
              moved = omega (arith, ih.moved);
            })
    ]
  ]

clamp-dst_idx : (now : ℕ) (s : Flood) → (let t = clamp_debt now s in t.dst_idx ≡ s.dst_idx)
unfolding clamp_debt
clamp-dst_idx now s = ground arith

report-dst_idx : (now : ℕ) (s : Flood) → (let t = report now s in t.dst_idx ≡ s.dst_idx)
unfolding report
report-dst_idx now s = ground arith

-- One target and the index, in a round.
round-OneTarget :
    (env : Surroundings) (src : Ipv4Addr) (unsolicited : Bool) (now : ℕ) (dsts : List Ipv4Addr)
    (s : Flood)
    → s.dst_idx < 2 ^ 32
    → (let (r, later) = multi_round env src none unsolicited now dsts s in
        OneTarget 16 (target dsts s.dst_idx) s.dst_idx r × (later ≡ dsts))
unfolding multi_round
round-OneTarget env src unsolicited now dsts s h =
    let t = clamp_debt now s in
    let same = clamp-dst_idx now s in
    let r = catch_up env src (target dsts s.dst_idx) unsolicited next_dst catch_up_burst 0 now t in
    let e =
      loop env src (target dsts s.dst_idx) unsolicited catch_up_burst 0 now t
        (omega (arith, same, h)) in
    let moved : r.flood.dst_idx ≡ (s.dst_idx + length r.sent) % 2 ^ 32 =
      e.moved ∙ ap (λ i. (i + length r.sent) % 2 ^ 32) same in
    if_cases
      (λ (p : Round × List Ipv4Addr).
        OneTarget 16 (target dsts s.dst_idx) s.dst_idx p.0 × (p.1 ≡ dsts))
      (leb 1000000 (r.now_us - r.flood.last_report_us))
      (record r { flood = report r.now_us r.flood }, dsts) (r, dsts)
      (record { one = e.one; few = e.few; moved = report-dst_idx r.now_us r.flood ∙ moved }, refl)
      (record { one = e.one; few = e.few; moved = moved }, refl)

-- A number of frames that the number of stations divides leads back to the same station.
same_target :
    (dsts : List Ipv4Addr) (index k next : ℕ)
    → next ≡ (index + k) % 2 ^ 32
    → (k % length dsts ≢ 0) ⊎ (2 ^ 32 ≤ index + k) ⊎ (target dsts next ≡ target dsts index)
unfolding target
same_target dsts index k next h = elim (Bool-cases (k % length dsts == 0)) [
  | inr f ↦ inl (ground arith)
  | inl t ↦ elim (Bool-cases (ltb (index + k) (2 ^ 32))) [
    | inr g ↦ inr (inl (ground arith))
    | inl l ↦
        let whole : k % length dsts ≡ 0 = ground arith in
        let n : next ≡ index + k = ground arith in
        inr (
          inr (
            ap (λ i. target dsts i) n
            ∙ ap (λ j. get_or dsts j (ipv4 0 0 0 0))
                (add-mod index k (length dsts)
                  ∙ ap (λ j. (index % length dsts + j) % length dsts) whole
                  ∙ ap (λ j. j % length dsts) (omega arith)
                  ∙ mod-mod index (length dsts))))
  ]
]

-- Where its list of targets is not refreshed, a round of `run_icmp_flood_multi` sends at most 16
-- frames, whatever the stall before it, all of them to one station, the one at the index, and
-- moves the index on by their number, modulo 2^32. So where the number of stations divides the
-- number of frames, and the index does not wrap around, the next round goes to the same station
-- again.
pub multi_round-OneTarget :
    (env : Surroundings) (src : Ipv4Addr) (unsolicited : Bool) (now : ℕ) (dsts : List Ipv4Addr)
    (s : Flood)
    → s.dst_idx < 2 ^ 32
    → (let (r, later) = multi_round env src none unsolicited now dsts s in
        let k = length r.sent in
        OneTarget 16 (target dsts s.dst_idx) s.dst_idx r
        × (later ≡ dsts)
        × ((k % length dsts ≢ 0)
            ⊎ (2 ^ 32 ≤ s.dst_idx + k)
            ⊎ (target dsts r.flood.dst_idx ≡ target dsts s.dst_idx)))
multi_round-OneTarget env src unsolicited now dsts s h =
    let (r, _) = multi_round env src none unsolicited now dsts s in
    let (one, kept) = round-OneTarget env src unsolicited now dsts s h in
    (one, kept, same_target dsts s.dst_idx (length r.sent) r.flood.dst_idx one.moved)
