-- ===== src/Delivery/Rates/Tests.antt =====
-- Five frames in two windows of a clock of one tick a microsecond.
use esp_csi_rs_core.Common.{◌≡◌, refl, true, false, List, [], ◌∷◌}
use esp_csi_rs_core.Stats.{Stats, record_collector_rx}
use esp_csi_rs_core.Delivery.Rates.{
  Happening, frame, output_changed, timer, stop, RateTask, rate_task_start, restart_window,
  publish_rates, on_timer, run_process_csi_packet,
}

abbrev no_stats : Stats
no_stats = record {
  tx_count = 0;
  rx_count = 0;
  rx_drop_count = 0;
  capture_start_time = 0;
  tx_rate_hz = 0;
  rx_rate_hz = 0;
  reset_seq_tracker = false;
  seq_drop_detection_enabled = true;
}

abbrev run : List Happening
run =
    frame
    ∷ timer 500000
    ∷ frame
    ∷ frame
    ∷ timer 2000000
    ∷ frame
    ∷ output_changed 2100000
    ∷ frame
    ∷ timer 2600000
    ∷ stop
    ∷ frame
    ∷ []

abbrev begun : RateTask
begun = rate_task_start 0 no_stats

abbrev ended : RateTask
ended = run_process_csi_packet 1000000 run begun

-- Three frames in two seconds are one a second, and one frame is left over.
rate_run : ended.stats.rx_rate_hz ≡ 1
unfolding run_process_csi_packet record_collector_rx restart_window on_timer publish_rates
    rate_task_start
rate_run = refl
