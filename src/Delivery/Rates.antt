-- ===== src/Delivery/Rates.antt =====
-- `run_process_csi_packet` of lib/csi/delivery.rs with the `statistics` feature, on the classic
-- chips: the task that publishes the packet rates. A list says what happens while it runs: frames
-- and transmissions that are counted, and what ends its waits, with the clock's reading in ticks.
-- Between two waits the task reads the clock several times; the model takes one reading for them.
pub mod Account
mod Tests
use esp_csi_rs_core.Common.{
  ℕ, ◌+◌, ◌-◌, ◌/◌, ◌%◌, Bool, true, false, List, [], ◌∷◌, ltb, ◌==◌, if◌then◌else◌,
}
use esp_csi_rs_core.Stats.{Stats, record_collector_rx, record_tx, u32_mod}

pub data Happening : Type 0 where
  frame sent stop : Happening
  output_changed timer : ℕ → Happening

-- The statics that the task uses, and its local variables.
pub record RateTask : Type 0 where
  pub stats : Stats
  pub stop_signal : Bool
  pub csi_output_changed : Bool
  pub last_rate_update : ℕ
  pub last_rx_count : ℕ
  pub last_tx_count : ℕ

-- What stands before the loop.
unfoldable pub rate_task_start : ℕ → Stats → RateTask
rate_task_start now s = record {
  stats = record s { capture_start_time = now };
  stop_signal = false;
  csi_output_changed = false;
  last_rate_update = now;
  last_rx_count = s.rx_count;
  last_tx_count = s.tx_count;
}

-- The arm of a changed output.
unfoldable pub restart_window : ℕ → RateTask → RateTask
restart_window now t = record t {
  stats = record t.stats { capture_start_time = now; reset_seq_tracker = true };
  csi_output_changed = false;
  last_rate_update = now;
  last_rx_count = t.stats.rx_count;
  last_tx_count = t.stats.tx_count;
}

-- `((current - last) / elapsed_secs) as u32`
abbrev pub rate_of : ℕ → ℕ → ℕ → ℕ
rate_of current last elapsed_secs = (current - last) / elapsed_secs % u32_mod

-- The statements under `elapsed_secs >= 1`.
unfoldable pub publish_rates : ℕ → ℕ → RateTask → RateTask
publish_rates now elapsed_secs t = record t {
  stats = record t.stats {
    rx_rate_hz = rate_of t.stats.rx_count t.last_rx_count elapsed_secs;
    tx_rate_hz = rate_of t.stats.tx_count t.last_tx_count elapsed_secs;
  };
  last_rx_count = t.stats.rx_count;
  last_tx_count = t.stats.tx_count;
  last_rate_update = now;
}

-- `tick_hz` is the rate of the clock.
module _ (tick_hz : ℕ) where
  abbrev pub elapsed_secs : ℕ → RateTask → ℕ
  elapsed_secs now t = (now - t.last_rate_update) / tick_hz

  -- The arm of the timer.
  unfoldable pub on_timer : ℕ → RateTask → RateTask
  unfolding publish_rates
  on_timer now t =
      if ltb 0 (elapsed_secs now t) then publish_rates now (elapsed_secs now t) t else t

  unfoldable pub run_process_csi_packet : List Happening → RateTask → RateTask
  unfolding record_collector_rx record_tx restart_window on_timer
  run_process_csi_packet [] t = t
  run_process_csi_packet (frame ∷ es) t =
      run_process_csi_packet es (record t { stats = record_collector_rx t.stats })
  run_process_csi_packet (sent ∷ es) t =
      run_process_csi_packet es (record t { stats = record_tx t.stats })
  run_process_csi_packet (output_changed now ∷ es) t =
      run_process_csi_packet es (restart_window now t)
  run_process_csi_packet (timer now ∷ es) t = run_process_csi_packet es (on_timer now t)
  run_process_csi_packet (stop ∷ es) t = record t { stop_signal = true }
