-- ===== src/Stats.antt =====
-- lib/stats.rs with the `statistics` feature, on the classic chips: the counters, which wrap at
-- their width. A time is a number of ticks; what a function reads from the clock is its argument.
use esp_csi_rs_core.Common.{ℕ, ◌+◌, ◌/◌, ◌%◌, ◌^◌, Bool, ◌==◌, if◌then◌else◌}

-- `GlobalStats`, with the two gates of sequence-drop detection.
pub record Stats : Type 0 where
  pub tx_count : ℕ
  pub rx_count : ℕ
  pub rx_drop_count : ℕ
  pub capture_start_time : ℕ
  pub tx_rate_hz : ℕ
  pub rx_rate_hz : ℕ
  pub reset_seq_tracker : Bool
  pub seq_drop_detection_enabled : Bool

abbrev pub u32_mod : ℕ
u32_mod = 2 ^ 32

abbrev pub u64_mod : ℕ
u64_mod = 2 ^ 64

unfoldable pub record_collector_rx : Stats → Stats
record_collector_rx s = record s { rx_count = (s.rx_count + 1) % u64_mod }

-- `rx_drop_count.fetch_add(lost)`
unfoldable pub add_rx_drops : ℕ → Stats → Stats
add_rx_drops lost s = record s { rx_drop_count = (s.rx_drop_count + lost) % u32_mod }

unfoldable pub record_collector_rx_drop : Stats → Stats
unfolding add_rx_drops
record_collector_rx_drop s = add_rx_drops 1 s

unfoldable pub record_tx : Stats → Stats
record_tx s = record s { tx_count = (s.tx_count + 1) % u64_mod }

unfoldable pub set_seq_drop_detection : Bool → Stats → Stats
set_seq_drop_detection enabled s = record s { seq_drop_detection_enabled = enabled }

-- `reset`; the log drops, which it also clears, are the logger's.
unfoldable pub reset : Stats → Stats
reset s = record s { tx_count = 0; rx_count = 0; rx_drop_count = 0; tx_rate_hz = 0; rx_rate_hz = 0 }

unfoldable pub stats_begin_run : ℕ → Stats → Stats
unfolding reset
stats_begin_run now s = record (reset s) { capture_start_time = now }

-- `get_pps_rx` and `get_pps_tx` at `elapsed_secs` whole seconds after the capture start.
unfoldable pub get_pps_rx : ℕ → Stats → ℕ
get_pps_rx elapsed_secs s = if elapsed_secs == 0 then s.rx_count else s.rx_count / elapsed_secs

unfoldable pub get_pps_tx : ℕ → Stats → ℕ
get_pps_tx elapsed_secs s = if elapsed_secs == 0 then s.tx_count else s.tx_count / elapsed_secs
