-- ===== src/Delivery/Rates/Account.antt =====
-- The published rates against the frames that were counted.
use esp_csi_rs_core.Common.{ℕ, suc, ◌+◌, ◌-◌, ◌*◌, ◌≤◌, ◌≡◌, List, [], ◌∷◌}
use esp_csi_rs_core.Stats.{Stats, record_collector_rx, record_tx}
use esp_csi_rs_core.Delivery.Rates.{
  Happening, frame, sent, stop, output_changed, timer, RateTask, restart_window, elapsed_secs,
  on_timer,
}

-- Frames that the current window has so far.
abbrev pub pending : RateTask → ℕ
pending t = t.stats.rx_count - t.last_rx_count

-- The frames up to a stop.
abbrev pub frames : List Happening → ℕ
frames [] = 0
frames (frame ∷ es) = suc (frames es)
frames (sent ∷ es) = frames es
frames (output_changed now ∷ es) = frames es
frames (timer now ∷ es) = frames es
frames (stop ∷ es) = 0

module _ (tick_hz : ℕ) where
  -- Frames that the published rates stand for, each rate times the seconds that it was taken over.
  abbrev pub measured : List Happening → RateTask → ℕ
  measured [] t = 0
  measured (frame ∷ es) t = measured es (record t { stats = record_collector_rx t.stats })
  measured (sent ∷ es) t = measured es (record t { stats = record_tx t.stats })
  measured (output_changed now ∷ es) t = measured es (restart_window now t)
  measured (timer now ∷ es) t =
      (let u = on_timer tick_hz now t in u.stats.rx_rate_hz) * elapsed_secs tick_hz now t
      + measured es (on_timer tick_hz now t)
  measured (stop ∷ es) t = 0

  -- Frames of the windows that a changed output cuts off.
  abbrev pub cut_off : List Happening → RateTask → ℕ
  cut_off [] t = 0
  cut_off (frame ∷ es) t = cut_off es (record t { stats = record_collector_rx t.stats })
  cut_off (sent ∷ es) t = cut_off es (record t { stats = record_tx t.stats })
  cut_off (output_changed now ∷ es) t = pending t + cut_off es (restart_window now t)
  cut_off (timer now ∷ es) t = cut_off es (on_timer tick_hz now t)
  cut_off (stop ∷ es) t = 0

  -- Seconds of the windows that were published.
  abbrev pub seconds : List Happening → RateTask → ℕ
  seconds [] t = 0
  seconds (frame ∷ es) t = seconds es (record t { stats = record_collector_rx t.stats })
  seconds (sent ∷ es) t = seconds es (record t { stats = record_tx t.stats })
  seconds (output_changed now ∷ es) t = seconds es (restart_window now t)
  seconds (timer now ∷ es) t = elapsed_secs tick_hz now t + seconds es (on_timer tick_hz now t)
  seconds (stop ∷ es) t = 0

  record Timed (now : ℕ) (t u : RateTask) : Type 0 where
    pub count : u.stats.rx_count ≡ t.stats.rx_count
    pub order : u.last_rx_count ≤ u.stats.rx_count
    pub below : u.stats.rx_rate_hz * elapsed_secs tick_hz now t + pending u ≤ pending t
    pub above :
        pending t
        ≤ u.stats.rx_rate_hz * elapsed_secs tick_hz now t + pending u + elapsed_secs tick_hz now t

  record Account (es : List Happening) (t e : RateTask) : Type 0 where
    pub below : measured es t + cut_off es t + pending e ≤ pending t + frames es
    pub above : pending t + frames es ≤ measured es t + cut_off es t + pending e + seconds es t
