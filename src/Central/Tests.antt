-- ===== src/Central/Tests.antt =====
-- The central at small inputs.
use esp_csi_rs_core.Common.{ℕ, List, map, ◌%◌, ◌^◌, ◌≡◌, refl, true, false, [], ◌∷◌, some}
use esp_csi_rs_core.Stats.{Stats}
use esp_csi_rs_core.Peripheral.{pacing_start}
use esp_csi_rs_core.Peripheral.Pace.{Send, paced, Bounded}
use esp_csi_rs_core.Central.{
  TxPacing, ok, pressure, error, CentralTx, tx_pacing_start, central_wait_us,
}
use esp_csi_rs_core.Central.Pace.{as_reply, pace_all, pace_all-tx_pacing_start}
use esp_csi_rs_core.Central.Sequence.{packet, send_all, send_all-consecutive}
use esp_csi_rs_core.Protocol.{frame, serialize_with_magic, parse_with_magic, central_magic_number}
use esp_csi_rs_core.Protocol.Samples.{flat, encode}

abbrev quiet : Stats
quiet = record {
  tx_count = 0;
  rx_count = 0;
  rx_drop_count = 0;
  capture_start_time = 0;
  tx_rate_hz = 0;
  rx_rate_hz = 0;
  reset_seq_tracker = false;
  seq_drop_detection_enabled = false;
}

abbrev pacing : TxPacing
pacing = record {
  tx_hz_max = 1000;
  tx_hz_min = 125;
  adaptive_tx_hz = 1000;
  tx_interval_us = 1000;
  consecutive_tx_ok = 0;
}

pacing_lem : tx_pacing_start (some 1000) true ≡ pacing
unfolding tx_pacing_start
pacing_lem = refl

-- Before the wrap-around of the numbers.
abbrev late : CentralTx
late = record {
  pacing = pacing;
  next_tx_us = 5000;
  control_sequence = 4294967295;
  diagnostics = record { queued = 0; confirmed = 0; failed_count = 0 };
  stats = quiet;
}

idle_wait : central_wait_us true true 4000 late ≡ 100
unfolding central_wait_us
idle_wait = refl

pace_all-tx_pacing_start_example :
    (as_reply (pace_all true (ok ∷ pressure ∷ []) (tx_pacing_start (some 1000) false))
      ≡ paced true (Send.ok ∷ Send.pressure ∷ []) (pacing_start 1000 false))
    × Bounded (as_reply (pace_all true (ok ∷ pressure ∷ []) (tx_pacing_start (some 1000) true)))
pace_all-tx_pacing_start_example =
    pace_all-tx_pacing_start true false (ok ∷ pressure ∷ []) (some 1000)

flat-fits :
    (n : ℕ)
    → (bytes : List ℕ) × (serialize_with_magic flat
          (packet flat true true true n)
          central_magic_number
          true
          16
        ≡ frame bytes)
unfolding serialize_with_magic encode
flat-fits n = (_, refl)

send_all-consecutive_example :
    let (acknowledged, u) =
      send_all flat true true true ((0, ok) ∷ (70, error) ∷ (3, ok) ∷ []) late in
    (map (λ b. parse_with_magic flat b central_magic_number true) acknowledged
      ≡ some (record { is_collector = true; sequence_number = 4294967295 })
        ∷ some (record { is_collector = true; sequence_number = 0 })
        ∷ [])
    × (u.stats.tx_count % 2 ^ 64 ≡ 2)
    × (u.diagnostics.failed_count % 2 ^ 64 ≡ 1)
send_all-consecutive_example =
    send_all-consecutive flat true true true flat-fits ((0, ok) ∷ (70, error) ∷ (3, ok) ∷ []) late
