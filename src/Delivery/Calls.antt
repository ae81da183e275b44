-- ===== src/Delivery/Calls.antt =====
-- Sequences of calls of the public functions that set the gates.
use esp_csi_rs_core.Common.{ℕ, ◌≡◌, refl, Bool, true, List, [], ◌∷◌, arith, All, ◌↔◌}
use esp_csi_rs_core.Common.Mac.{Mac, IsMac}
use esp_csi_rs_core.Csi.{WifiCsiInfo}
use esp_csi_rs_core.Delivery.{
  Gates, CsiDeliveryMode, set_csi_logging_enabled, set_csi_delivery_mode, set_csi_callback,
  clear_csi_callback, set_csi_raw_callback, set_csi_output_enabled, set_runtime_collection_mode,
  set_csi_peer_filter, set_csi_min_sig_mode, reset, csi_passes_filter,
}
use esp_csi_rs_core.Delivery.Filter.{Filters, Wanted, csi_passes_filter_iff}

pub data Call : Type 0 where
  logging : Bool → Call
  delivery_mode : CsiDeliveryMode → Call
  callback : ℕ → Call
  clear : Call
  raw : ℕ → Call
  output : Bool → Call
  collection : Bool → Call
  peer_filter : Mac → Call
  min_sig_mode : ℕ → Call
  run_end : Call

unfoldable pub step : Call → Gates → Gates
step (logging enabled) g = set_csi_logging_enabled enabled g
step (delivery_mode mode) g = set_csi_delivery_mode mode g
step (callback cb) g = set_csi_callback cb g
step clear g = clear_csi_callback g
step (raw cb) g = set_csi_raw_callback cb g
step (output enabled) g = set_csi_output_enabled enabled g
step (collection is_collector) g = set_runtime_collection_mode is_collector g
step (peer_filter m) g = set_csi_peer_filter m g
step (min_sig_mode min) g = set_csi_min_sig_mode min g
step run_end g = reset g

unfoldable pub run : List Call → Gates → Gates
run [] g = g
run (c ∷ cs) g = run cs (step c g)

-- The address and the PHY class that were set last.
abbrev pub last_peer : List Call → Mac → Mac
last_peer [] m = m
last_peer (peer_filter n ∷ cs) m = last_peer cs n
last_peer (_ ∷ cs) m = last_peer cs m

abbrev pub last_min : List Call → ℕ → ℕ
last_min [] n = n
last_min (min_sig_mode min ∷ cs) n = last_min cs min
last_min (_ ∷ cs) n = last_min cs n

-- The addresses that are set are arrays of bytes.
abbrev pub IsCall : Call → Type 0
IsCall (peer_filter m) = IsMac m
IsCall _ = Unit {0}

-- No call but the two setters touches the filters: not the end of a run either.
pub run-Filters :
    (cs : List Call) (m : Mac) (min : ℕ) (g : Gates)
    → All IsCall cs
    → Filters m min g
    → Filters (last_peer cs m) (last_min cs min) (run cs g)
unfolding run step set_csi_peer_filter set_csi_min_sig_mode set_csi_logging_enabled
    set_csi_delivery_mode set_csi_callback clear_csi_callback set_csi_raw_callback
    set_csi_output_enabled set_runtime_collection_mode reset
run-Filters [] m min g v f = f
run-Filters (peer_filter n ∷ cs) m min g (vn, v) f =
    run-Filters cs n min (set_csi_peer_filter n g) v
      (record { valid = vn; peer = refl; sig_mode = f.sig_mode; active = ground arith })
run-Filters (min_sig_mode k ∷ cs) m min g (_, v) f =
    run-Filters cs m k (set_csi_min_sig_mode k g) v
      (record { valid = f.valid; peer = f.peer; sig_mode = refl; active = ground arith })
run-Filters (logging e ∷ cs) m min g (_, v) f =
    run-Filters cs m min (step (logging e) g) v
      (record { valid = f.valid; peer = f.peer; sig_mode = f.sig_mode; active = f.active })
run-Filters (delivery_mode e ∷ cs) m min g (_, v) f =
    run-Filters cs m min (step (delivery_mode e) g) v
      (record { valid = f.valid; peer = f.peer; sig_mode = f.sig_mode; active = f.active })
run-Filters (callback e ∷ cs) m min g (_, v) f =
    run-Filters cs m min (step (callback e) g) v
      (record { valid = f.valid; peer = f.peer; sig_mode = f.sig_mode; active = f.active })
run-Filters (clear ∷ cs) m min g (_, v) f =
    run-Filters cs m min (step clear g) v
      (record { valid = f.valid; peer = f.peer; sig_mode = f.sig_mode; active = f.active })
run-Filters (raw e ∷ cs) m min g (_, v) f =
    run-Filters cs m min (step (raw e) g) v
      (record { valid = f.valid; peer = f.peer; sig_mode = f.sig_mode; active = f.active })
run-Filters (output e ∷ cs) m min g (_, v) f =
    run-Filters cs m min (step (output e) g) v
      (record { valid = f.valid; peer = f.peer; sig_mode = f.sig_mode; active = f.active })
run-Filters (collection e ∷ cs) m min g (_, v) f =
    run-Filters cs m min (step (collection e) g) v
      (record { valid = f.valid; peer = f.peer; sig_mode = f.sig_mode; active = f.active })
run-Filters (run_end ∷ cs) m min g (_, v) f =
    run-Filters cs m min (step run_end g) v
      (record { valid = f.valid; peer = f.peer; sig_mode = f.sig_mode; active = f.active })

-- After any sequence of calls, exactly the frames pass that come from the address set last, or any
-- where that is all zero, with a PHY class of at least the minimum set last: the end
-- of a run and the other setters keep the filters.
pub csi_passes_filter-run :
    (cs : List Call) (m : Mac) (min : ℕ) (g : Gates) (info : WifiCsiInfo)
    → All IsCall cs
    → Filters m min g
    → IsMac info.mac
    → (csi_passes_filter (run cs g) info ≡ true) ↔ Wanted (last_peer cs m) (last_min cs min) info
csi_passes_filter-run cs m min g info v f vi =
    csi_passes_filter_iff (last_peer cs m) (last_min cs min) (run cs g) info
      (run-Filters cs m min g v f) vi
