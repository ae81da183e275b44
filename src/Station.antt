-- ===== src/Station.antt =====
-- lib/collector/sta.rs: the station's connection and its ICMP floods. What the network stack and the
-- executor do is the input: how an attempt to connect ends, what the send queue takes, what the
-- clock reads, and when the stop signal comes.
pub mod Flood
pub mod Connect
mod Tests
use esp_csi_rs_core.Common.{
  ℕ, ◌+◌, min, Bool, true, false, ◌&&◌, List, [], ◌∷◌, ◌++◌, leb, if◌then◌else◌,
}

-- `StackResourcesSlot`: whether the cell is initialised, and how often it was written.
pub record StackResourcesSlot : Type 0 where
  pub inited : Bool
  pub writes : ℕ

unfoldable pub new_slot : StackResourcesSlot
new_slot = record { inited = false; writes = 0 }

unfoldable pub get_or_init : StackResourcesSlot → StackResourcesSlot
get_or_init s = if s.inited then s else record s { inited = true; writes = s.writes + 1 }

-- How an attempt of `run_sta_connect` ends; a failed one is followed by a pause, which the stop
-- signal may end.
pub data Attempt : Type 0 where
  stopped connected : Attempt
  error timeout : Bool → Attempt

pub data StaAction : Type 0 where
  connect set_csi disconnect pause : StaAction
  -- the concurrent tasks, with or without the flood
  serve : Bool → StaAction

pub data Ended : Type 0 where
  by_stop associated waiting : Ended

abbrev failures_before_radio_cycle : ℕ
failures_before_radio_cycle = 1

-- What follows a failure: the calls, and the failures counted then.
unfoldable pub recover : ℕ → List StaAction × ℕ
recover consecutive_failures =
    let failures = min (consecutive_failures + 1) 255 in
    if leb failures_before_radio_cycle failures
    then (disconnect ∷ set_csi ∷ pause ∷ [], 0)
    else (disconnect ∷ [], failures)

-- What runs once the station is associated.
unfoldable pub tasks : Bool → Ended → List StaAction
tasks tx_enabled associated = serve tx_enabled ∷ []
tasks tx_enabled by_stop = []
tasks tx_enabled waiting = []

-- The loop of `run_sta_connect` over the attempts; `waiting` is one that still goes on.
unfoldable pub connect_loop : Bool → ℕ → List Attempt → List StaAction × Ended
connect_loop rx_enabled failures [] = (connect ∷ [], waiting)
connect_loop rx_enabled failures (stopped ∷ rest) = (connect ∷ [], by_stop)
connect_loop rx_enabled failures (connected ∷ rest) =
    (connect ∷ (if rx_enabled then set_csi ∷ [] else []), associated)
connect_loop rx_enabled failures (error stop ∷ rest) =
    let (calls, left) = recover failures in
    let (later, ended) = connect_loop rx_enabled left rest in
    if stop
    then (connect ∷ (calls ++ (pause ∷ [])), by_stop)
    else (connect ∷ (calls ++ (pause ∷ later)), ended)
connect_loop rx_enabled failures (timeout stop ∷ rest) =
    let (calls, left) = recover failures in
    let (later, ended) = connect_loop rx_enabled left rest in
    if stop
    then (connect ∷ (calls ++ (pause ∷ [])), by_stop)
    else (connect ∷ (calls ++ (pause ∷ later)), ended)

-- `run_sta_connect`; `stop_at_once` tells whether the stop signal ends the first wait.
unfoldable pub run_sta_connect : Bool → Bool → Bool → List Attempt → List StaAction × Ended
unfolding connect_loop tasks
run_sta_connect tx_enabled rx_enabled stop_at_once attempts =
    let (calls, ended) = connect_loop rx_enabled 0 attempts in
    if stop_at_once
    then (pause ∷ [], by_stop)
    else (pause ∷ (calls ++ tasks tx_enabled ended), ended)
