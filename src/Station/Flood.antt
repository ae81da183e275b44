-- ===== src/Station/Flood.antt =====
-- The ICMP floods of lib/collector/sta.rs: `run_icmp_flood`, `run_icmp_flood_multi` and
-- `run_icmp_flood_burst`, one round of the loop at a time. Times are in microseconds.

pub mod Rate
pub mod RoundRobin
pub mod Burst
pub mod Backoff
mod Tests
use esp_csi_rs_core.Common.{
  ℕ, zero, suc, ◌+◌, ◌-◌, ◌*◌, ◌/◌, ◌%◌, ◌^◌, min, max, Bool, true, false, not, ◌&&◌, ◌||◌, List,
  [], ◌∷◌, ◌++◌, Option, none, some, ltb, leb, ◌==◌, if◌then◌else◌, length, get_or,
}
use esp_csi_rs_core.Ap.{Ipv4Addr, ipv4, ip_eq}

abbrev pub u64_max : ℕ
u64_max = 2 ^ 64 - 1

abbrev u32_max : ℕ
u32_max = 2 ^ 32 - 1

abbrev pub catch_up_burst : ℕ
catch_up_burst = 16

abbrev pub queue_backoff_us : ℕ
queue_backoff_us = 50

-- An echo: `smoltcp` writes it, in 20 bytes of header and 12 of ICMP.
pub record Echo : Type 0 where
  pub src : Ipv4Addr
  pub dst : Ipv4Addr
  pub seq_no : ℕ
  pub is_reply : Bool

unfoldable pub build_icmp_echo_ipv4 : ℕ → Ipv4Addr → Ipv4Addr → ℕ → Bool → Option Echo
build_icmp_echo_ipv4 out_len src dst seq_no unsolicited_reply =
    if ltb out_len 64
    then none
    else some (record { src = src; dst = dst; seq_no = seq_no; is_reply = unsolicited_reply })

-- The variables of a flood; the round robin's index is used by `run_icmp_flood_multi` alone.
pub record Flood : Type 0 where
  pub tx_interval_us : ℕ
  pub next_tx_us : ℕ
  pub seq_counter : ℕ
  pub dst_idx : ℕ
  pub enqueued : ℕ
  pub blocked : ℕ
  pub last_report_us : ℕ

-- The state with which a flood begins, by the frequency and the clock.
unfoldable pub flood_start : Option ℕ → ℕ → Flood
flood_start frequency_hz now_us =
    let asked : ℕ = elim frequency_hz [ some hz ↦ hz | none ↦ 100 ] in
    let interval = 1000000 / max asked 1 in
    record {
      tx_interval_us = interval;
      next_tx_us = min (now_us + interval) u64_max;
      seq_counter = 0;
      dst_idx = 0;
      enqueued = 0;
      blocked = 0;
      last_report_us = now_us;
    }

-- The debt that a stall leaves is at most one burst's.
unfoldable pub clamp_debt : ℕ → Flood → Flood
clamp_debt now_us s =
    let max_debt_us = min (s.tx_interval_us * catch_up_burst) u64_max in
    let debt_floor = now_us - max_debt_us in
    if ltb s.next_tx_us debt_floor then record s { next_tx_us = debt_floor } else s

-- What the send queue and the clock do in a round, by the number of the attempt to send.
pub record Surroundings : Type 0 where
  pub takes : ℕ → Bool
  pub clock : ℕ → ℕ

-- The outcome of the loop of a round.
pub record Round : Type 0 where
  pub flood : Flood
  pub budget : ℕ
  pub now_us : ℕ
  pub sent : List Echo

unfoldable pub attempt : Flood → Flood
attempt s = record s { seq_counter = (s.seq_counter + 1) % 2 ^ 16 }

unfoldable pub queued : Flood → Flood
queued s = record s {
  enqueued = min (s.enqueued + 1) u32_max;
  next_tx_us = min (s.next_tx_us + s.tx_interval_us) u64_max;
}

unfoldable pub refused : Flood → Flood
refused s = record s { blocked = min (s.blocked + 1) u32_max }

-- `dst_idx.wrapping_add(1)`
unfoldable pub next_dst : Flood → Flood
next_dst s = record s { dst_idx = (s.dst_idx + 1) % 2 ^ 32 }

module _ (env : Surroundings) (src dst : Ipv4Addr) (unsolicited : Bool)
    (advance : Flood → Flood) where
  open env use {takes, clock}

  -- The loop `while now_us >= next_tx_us && burst_budget > 0`, at the attempt `i`.
  unfoldable pub catch_up : ℕ → ℕ → ℕ → Flood → Round
  unfolding build_icmp_echo_ipv4 attempt queued refused
  catch_up zero i now_us s = record { flood = s; budget = 0; now_us = now_us; sent = [] }
  catch_up (suc budget) i now_us s =
      let tried = attempt s in
      let later = catch_up budget (suc i) (clock i) (advance (queued tried)) in
      if ltb now_us s.next_tx_us
      then record { flood = s; budget = suc budget; now_us = now_us; sent = [] }
      else elim (build_icmp_echo_ipv4 64 src dst tried.seq_counter unsolicited) [
        | none ↦ record { flood = tried; budget = budget; now_us = now_us; sent = [] }
        | some echo ↦
            if takes i
            then record {
              flood = later.flood;
              budget = later.budget;
              now_us = later.now_us;
              sent = echo ∷ later.sent;
            }
            else record { flood = refused tried; budget = budget; now_us = now_us; sent = [] }
      ]

-- The report and its reset, once a second.
unfoldable pub report : ℕ → Flood → Flood
report now_us s =
    if leb 1000000 (now_us - s.last_report_us)
    then record s { enqueued = 0; blocked = 0; last_report_us = now_us }
    else s

-- The wait at the end of a round, by the clock then.
unfoldable pub wait_us : ℕ → ℕ → Flood → ℕ
wait_us budget clock_us s =
    if ltb budget catch_up_burst
    then max (min (s.next_tx_us - clock_us) (s.tx_interval_us / 4)) 1
    else queue_backoff_us

-- A round of `run_icmp_flood`.
unfoldable pub flood_round : Surroundings → Ipv4Addr → Ipv4Addr → Bool → ℕ → Flood → Round
unfolding clamp_debt report
flood_round env src dst unsolicited now_us s =
    let r =
      catch_up env src dst unsolicited (λ f. f) catch_up_burst 0 now_us (clamp_debt now_us s) in
    record r { flood = report r.now_us r.flood }

-- `dsts[i % dsts.len()]`
unfoldable pub target : List Ipv4Addr → ℕ → Ipv4Addr
target dsts i = get_or dsts (i % length dsts) (ipv4 0 0 0 0)

-- Whether the refreshed list differs.
unfoldable pub changed : List Ipv4Addr → List Ipv4Addr → Bool
changed [] [] = false
changed (a ∷ as_) (b ∷ bs) = not (ip_eq a b) || changed as_ bs
changed as_ bs = true

-- The list of targets after a report, and whether it was replaced.
unfoldable pub refresh : Option (List Ipv4Addr) → List Ipv4Addr → List Ipv4Addr × Bool
unfolding changed
refresh none dsts = (dsts, false)
refresh (some []) dsts = (dsts, false)
refresh (some (a ∷ updated)) dsts =
    if changed (a ∷ updated) dsts then (a ∷ updated, true) else (dsts, false)

-- A round of `run_icmp_flood_multi`, whose targets are `dsts`: the round, and the targets of the next.
unfoldable pub multi_round :
    Surroundings
    → Ipv4Addr
    → Option (List Ipv4Addr)
    → Bool
    → ℕ
    → List Ipv4Addr
    → Flood
    → Round × List Ipv4Addr
unfolding clamp_debt report target refresh next_dst
multi_round env src refreshed unsolicited now_us dsts s =
    let r =
      catch_up env src (target dsts s.dst_idx) unsolicited next_dst catch_up_burst 0 now_us
        (clamp_debt now_us s) in
    let (updated, replaced) = refresh refreshed dsts in
    let f = r.flood in
    if leb 1000000 (r.now_us - f.last_report_us)
    then (
      record r { flood = report r.now_us (if replaced then record f { dst_idx = 0 } else f) },
      updated,
    )
    else (r, dsts)

-- The loop `for i in 0..n` of `run_icmp_flood_burst`: the frames taken, and the attempt that was
-- refused.
pub record Volley : Type 0 where
  pub flood : Flood
  pub sent : List Echo
  pub blocked_at : Option ℕ

module _ (env : Surroundings) (src : Ipv4Addr) (unsolicited : Bool) (dsts : List Ipv4Addr)
    (burst_start : ℕ) where
  open env use {takes}

  -- The attempts `i`, `i + 1`, … that are left.
  unfoldable pub volley : ℕ → ℕ → Flood → Volley
  unfolding build_icmp_echo_ipv4 attempt refused target
  volley zero i s = record { flood = s; sent = []; blocked_at = none }
  volley (suc left) i s =
      let tried = attempt s in
      let later =
        volley left (suc i) (record tried { enqueued = min (tried.enqueued + 1) u32_max }) in
      elim (build_icmp_echo_ipv4 64 src (target dsts (burst_start + i)) tried.seq_counter
        unsolicited) [
          | none ↦ record { flood = tried; sent = []; blocked_at = none }
          | some echo ↦
              if takes i
              then record {
                flood = later.flood;
                sent = echo ∷ later.sent;
                blocked_at = later.blocked_at;
              }
              else record { flood = refused tried; sent = []; blocked_at = some i }
        ]

-- Where the next volley starts.
unfoldable pub next_start : ℕ → ℕ → Volley → ℕ
next_start n burst_start v = elim v.blocked_at [
  | some i ↦ (burst_start + i) % n
  | none ↦ if length v.sent == 0 then burst_start else 0
]

-- The due part of a round of `run_icmp_flood_burst`: the volley, the flood after it with its next
-- tick, and the start of the next volley.
unfoldable pub burst_tick : Surroundings → Ipv4Addr → Bool → List Ipv4Addr → ℕ → Flood → Volley × ℕ
unfolding next_start
burst_tick env src unsolicited dsts burst_start s =
    let v = volley env src unsolicited dsts burst_start (length dsts) 0 s in
    let f = v.flood in
    (
      record v { flood = record f { next_tx_us = min (f.next_tx_us + f.tx_interval_us) u64_max } },
      next_start (length dsts) burst_start v,
    )

-- The wait of `run_icmp_flood_burst`.
unfoldable pub burst_wait_us : Bool → ℕ → Flood → ℕ
burst_wait_us blocked_burst clock_us s =
    if blocked_burst
    then queue_backoff_us
    else max (min (s.next_tx_us - clock_us) s.tx_interval_us) 1
