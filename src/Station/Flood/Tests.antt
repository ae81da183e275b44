-- ===== src/Station/Flood/Tests.antt =====
-- The floods at small inputs.
use esp_csi_rs_core.Common.{
  ◌%◌, ◌^◌, ◌≢◌, ℕ, ◌+◌, ◌-◌, ◌/◌, ◌*◌, min, max, ◌≤◌, ◌<◌, All, ◌⊎◌, ◌≡◌, refl, true, false, [],
  ◌∷◌, none, arith, ltb, length,
}
use esp_csi_rs_core.Ap.{Ipv4Addr, ipv4}
use esp_csi_rs_core.Station.Flood.{
  Flood, Surroundings, clamp_debt, flood_start, catch_up, flood_round, multi_round, target, volley,
  burst_tick, wait_us,
}
use esp_csi_rs_core.Station.Flood.Rate.{flood_rounds, flood_rounds-rate}
use esp_csi_rs_core.Station.Flood.RoundRobin.{OneTarget, multi_round-OneTarget}
use esp_csi_rs_core.Station.Flood.Burst.{destinations, burst_tick-around}
use esp_csi_rs_core.Station.Flood.Backoff.{flood_round-wait_us}

abbrev host : ℕ → Ipv4Addr
host n = ipv4 192 168 13 n

-- 100 Hz, at second 1.
abbrev begun : Flood
begun = record {
  tx_interval_us = 10000;
  next_tx_us = 1010000;
  seq_counter = 0;
  dst_idx = 0;
  enqueued = 0;
  blocked = 0;
  last_report_us = 1000000;
}

begun_lem : flood_start none 1000000 ≡ begun
unfolding flood_start
begun_lem = refl

-- The queue takes all, and the clock stands still at 1.05 s.
abbrev idle : Surroundings
idle = record { takes = λ i. true; clock = λ i. 1050000 }

abbrev full : Surroundings
full = record { takes = λ i. ltb i 2; clock = λ i. 1050000 }

abbrev stuck : Surroundings
stuck = record { takes = λ i. false; clock = λ i. 1050000 }

-- Five ticks are due after the stall, and all five frames go to the first of two stations.
stalled :
    (let (r, later) = multi_round idle (host 1) none true 1050000 (host 2 ∷ host 3 ∷ []) begun in
      destinations r.sent)
    ≡ host 2 ∷ host 2 ∷ host 2 ∷ host 2 ∷ host 2 ∷ []
unfolding multi_round catch_up
stalled = refl

multi_round-OneTarget_example :
    let (r, later) = multi_round idle (host 1) none true 1050000 (host 2 ∷ host 3 ∷ []) begun in
    let k = length r.sent in
    OneTarget 16 (target (host 2 ∷ host 3 ∷ []) 0) 0 r
    × (later ≡ host 2 ∷ host 3 ∷ [])
    × ((k % 2 ≢ 0)
        ⊎ (2 ^ 32 ≤ 0 + k)
        ⊎ (target (host 2 ∷ host 3 ∷ []) r.flood.dst_idx ≡ target (host 2 ∷ host 3 ∷ []) 0))
multi_round-OneTarget_example =
    multi_round-OneTarget idle (host 1) true 1050000 (host 2 ∷ host 3 ∷ []) begun (omega arith)

burst_tick-around_example :
    let (v, next) = burst_tick full (host 1) true (host 2 ∷ host 3 ∷ host 4 ∷ []) 2 begun in
    (destinations v.sent ≡ host 4 ∷ host 2 ∷ [])
    × (length v.sent ≤ 3)
    × All (λ j. full.takes j ≡ true) (0 ∷ 1 ∷ [])
    × ((length v.sent ≡ 3) ⊎ (full.takes 2 ≡ false))
    × (next ≡ 1)
unfolding burst_tick volley target
burst_tick-around_example =
    burst_tick-around full (host 1) true (host 2 ∷ host 3 ∷ host 4 ∷ []) 2 begun (omega arith)

flood_round-wait_us_example :
    let r = flood_round full (host 1) (host 2) false 1050000 begun in
    let waited = wait_us r.budget 1050020 r.flood in
    ((1050000 < 1010000) × (r.sent ≡ []) × (waited ≡ 50))
    ⊎ ((full.takes (length r.sent) ≡ false)
        × (length r.sent < 16)
        × (r.flood.next_tx_us ≤ r.now_us)
        × (waited ≡ 1))
    ⊎ (((r.now_us < r.flood.next_tx_us) ⊎ (length r.sent ≡ 16))
        × (0 < length r.sent)
        × (waited ≡ max (min (r.flood.next_tx_us - 1050020) (r.flood.tx_interval_us / 4)) 1))
unfolding clamp_debt flood_round catch_up
flood_round-wait_us_example =
    flood_round-wait_us full (host 1) (host 2) false 1050000 1050020 begun (omega arith)

flood_rounds-rate_example :
    let (t, total) =
      flood_rounds (host 1) (host 2) false ((1050000, idle) ∷ (1060000, full) ∷ []) begun in
    total * 10000 + 1050000 ≤ 2000000 + 17 * 10000
flood_rounds-rate_example =
    flood_rounds-rate (host 1) (host 2) false 2000000 1050000 idle ((1060000, full) ∷ []) begun
      (omega arith) (omega arith) (omega arith)
      ((omega arith, λ j. omega arith), ((omega arith, λ j. omega arith), tt))
