-- ===== src/Station/Connect.antt =====
-- When the station's connection arms CSI.
use esp_csi_rs_core.Common.{
  ℕ, suc, ◌+◌, ◌≡◌, refl, min, Bool, true, false, List, [], ◌∷◌, arith, leb, if◌then◌else◌,
}
use esp_csi_rs_core.Station.{
  Attempt, stopped, connected, error, timeout, StaAction, connect, set_csi, disconnect, pause,
  serve, connect_loop, recover, StackResourcesSlot, get_or_init,
}

-- How often the calls arm CSI.
abbrev pub arms : List StaAction → ℕ
arms [] = 0
arms (set_csi ∷ as_) = suc (arms as_)
arms (connect ∷ as_) = arms as_
arms (disconnect ∷ as_) = arms as_
arms (pause ∷ as_) = arms as_
arms (serve tx ∷ as_) = arms as_

-- The attempts that fail until the station is associated or the stop signal comes, and whether it
-- is associated.
abbrev pub failed : List Attempt → ℕ
failed [] = 0
failed (stopped ∷ rest) = 0
failed (connected ∷ rest) = 0
failed (error true ∷ rest) = 1
failed (error false ∷ rest) = suc (failed rest)
failed (timeout true ∷ rest) = 1
failed (timeout false ∷ rest) = suc (failed rest)

abbrev pub joins : List Attempt → ℕ
joins [] = 0
joins (stopped ∷ rest) = 0
joins (connected ∷ rest) = 1
joins (error true ∷ rest) = 0
joins (error false ∷ rest) = joins rest
joins (timeout true ∷ rest) = 0
joins (timeout false ∷ rest) = joins rest

recovers : (failures : ℕ) → recover failures ≡ (disconnect ∷ set_csi ∷ pause ∷ [], 0)
unfolding recover
recovers failures = let e : leb 1 (min (failures + 1) 255) ≡ true = ground arith in rw e refl

-- Each failed attempt to connect arms CSI, also where RX is disabled; the association arms it
-- once more exactly where RX is enabled.
pub connect_loop-arms :
    (rx_enabled : Bool) (failures : ℕ) (attempts : List Attempt)
    → (let (calls, ended) = connect_loop rx_enabled failures attempts in
        arms calls ≡ failed attempts + (if rx_enabled then joins attempts else 0))
unfolding connect_loop
connect_loop-arms rx failures [] = ground arith
connect_loop-arms rx failures (stopped ∷ rest) = ground arith
connect_loop-arms rx failures (connected ∷ rest) = ground arith
connect_loop-arms rx failures (error true ∷ rest) = rw (recovers failures) (ground arith)
connect_loop-arms rx failures (error false ∷ rest) =
    rw (recovers failures) (omega (arith, connect_loop-arms rx 0 rest))
connect_loop-arms rx failures (timeout true ∷ rest) = rw (recovers failures) (ground arith)
connect_loop-arms rx failures (timeout false ∷ rest) =
    rw (recovers failures) (omega (arith, connect_loop-arms rx 0 rest))

-- However often the slot is asked for, it is written once.
slot_once : (s : StackResourcesSlot) → get_or_init (get_or_init s) ≡ get_or_init s
unfolding get_or_init
slot_once s = ground arith
