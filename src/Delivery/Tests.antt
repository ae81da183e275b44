-- ===== src/Delivery/Tests.antt =====
-- The callback at sample states, with lists for the queues and a function for the tracker's map.
use esp_csi_rs_core.Common.{
  ◌+◌, ◌%◌, ◌^◌, ◌≡◌, ◌↔◌, inl, refl, true, false, List, [], ◌∷◌, none, some, arith, All,
}
use esp_csi_rs_core.Common.Mac.{Mac, mac}
use esp_csi_rs_core.Containers.{BoundedQueue}
use esp_csi_rs_core.Containers.Samples.{list_queue, function_map, Table}
use esp_csi_rs_core.Csi.{CsiDataPacket}
use esp_csi_rs_core.Csi.Packet.{Carries}
use esp_csi_rs_core.Csi.Samples.{
  sender, sender-IsMac, sample_info, sample_info-IsInfo, sample_packet,
}
use esp_csi_rs_core.Logging.{Logger}
use esp_csi_rs_core.Stats.{Stats}
use esp_csi_rs_core.Delivery.{
  Gates, Delivery, capture_csi_info, csi_passes_filter, pack_mac, pack_bytes,
  set_csi_output_enabled,
}
use esp_csi_rs_core.Delivery.Filter.{Filters, Wanted}
use esp_csi_rs_core.Delivery.Calls.{Call, run, last_peer, last_min, IsCall, csi_passes_filter-run}
use esp_csi_rs_core.Delivery.Stores.{Ready, NotForced, history, history-Ready}
use esp_csi_rs_core.Delivery.Sequence.{Tracks, track_run, track_run_lem, last_seq, total}
use esp_csi_rs_core.Delivery.Capture.{counted, dropped, Handled, capture_csi_info-Handled}
use esp_csi_rs_core.Delivery.Output.{capture_csi_info-set_csi_output_enabled}
use esp_csi_rs_core.Delivery.Balance.{
  Turn, arrives, reads, turns, Streaming, Balanced, turns-Balanced,
}
use esp_csi_rs_core.Delivery.Route.{
  Open, Routed, capture_csi_info-Routed, capture_csi_info-unwanted,
}
use esp_csi_rs_core.Delivery.Consumer.{Consumer, begin, Awaited, poll-capture_csi_info}

abbrev queue : BoundedQueue CsiDataPacket (List CsiDataPacket)
queue = list_queue 32

abbrev State : Type 0
State = Delivery (List CsiDataPacket) Table (List CsiDataPacket)

abbrev zero_stats : Stats
zero_stats = record {
  tx_count = 0;
  rx_count = 0;
  rx_drop_count = 0;
  capture_start_time = 0;
  tx_rate_hz = 0;
  rx_rate_hz = 0;
  reset_seq_tracker = false;
  seq_drop_detection_enabled = false;
}

-- The gates at the start, and those of a consumer of the queue that filters by the sender.
abbrev closed : Gates
closed = record {
  is_collector = false;
  collection_mode_changed = false;
  csi_output_enabled = false;
  csi_output_changed = false;
  csi_publish_enabled = false;
  csi_delivery_mode = 0;
  csi_callback = none;
  csi_raw_callback = none;
  csi_inline_log_enabled = false;
  csi_peer_filter = 0;
  csi_min_sig_mode = 0;
  csi_filter_active = false;
}

abbrev logger : Logger (List CsiDataPacket)
logger = record {
  log_mode = 0;
  role = 0;
  esp_csi_tool_header_printed = false;
  async_log_active = false;
  csi_tool_emit_cap = 0;
  csi_channel = [];
  log_dropped_packets = 0;
}

abbrev state_of : Gates → State
state_of g = record {
  gates = g;
  stats = zero_stats;
  csi_queue = [];
  peer_seq_tracker = λ _. none;
  logger = logger;
}

abbrev draining : Gates
draining = record closed { csi_publish_enabled = true; csi_delivery_mode = 2 }

abbrev any_mac : Mac
any_mac = mac 0 0 0 0 0 0

closed-Filters : Filters any_mac 0 closed
unfolding pack_mac pack_bytes
closed-Filters = record { valid = omega arith; peer = refl; sig_mode = refl; active = refl }

draining-Open : Open queue function_map queue any_mac 0 (state_of draining)
unfolding pack_mac pack_bytes
draining-Open = record {
  no_raw = refl;
  published = refl;
  filters = record { valid = omega arith; peer = refl; sig_mode = refl; active = refl };
}

wanted : Wanted any_mac 0 sample_info
wanted = (inl refl, omega arith)

capture_csi_info-Routed_example :
    (p : CsiDataPacket) × Carries sample_info p
    × (let (e, events) =
          capture_csi_info queue function_map queue sample_info (state_of draining) in
        Routed queue function_map queue p (state_of draining) e events)
capture_csi_info-Routed_example =
    capture_csi_info-Routed queue function_map queue any_mac 0 sample_info (state_of draining)
      draining-Open sample_info-IsInfo wanted (omega arith)

draining-Streaming : Streaming queue function_map queue (state_of draining)
draining-Streaming = record { no_raw = refl; published = refl; async = refl; no_tracking = refl }

abbrev schedule : List Turn
schedule = arrives sample_info ∷ arrives sample_info ∷ reads ∷ arrives sample_info ∷ []

turns-Balanced_example :
    Balanced queue function_map queue
      (turns queue function_map queue schedule (state_of draining, 0))
turns-Balanced_example =
    turns-Balanced queue function_map queue schedule (state_of draining) 0 draining-Streaming
      (record { sums = omega arith })

capture_csi_info-Handled_example :
    (let (e, events) = capture_csi_info queue function_map queue sample_info (state_of draining) in
      Handled queue function_map queue (state_of draining) e events)
capture_csi_info-Handled_example =
    capture_csi_info-Handled queue function_map queue sample_info (state_of draining)

abbrev calls : List Call
calls =
    Call.callback 7 ∷ Call.peer_filter sender ∷ Call.clear ∷ Call.min_sig_mode 1 ∷ Call.run_end ∷ []

calls-IsCall : All IsCall calls
calls-IsCall = (tt, (sender-IsMac, (tt, (tt, (tt, tt)))))

csi_passes_filter-run_example :
    (csi_passes_filter (run calls closed) sample_info ≡ true)
    ↔ Wanted (last_peer calls any_mac) (last_min calls 0) sample_info
csi_passes_filter-run_example =
    csi_passes_filter-run calls any_mac 0 closed sample_info calls-IsCall closed-Filters
      sender-IsMac

calls-NotForced : All NotForced calls
calls-NotForced = (tt, (tt, (tt, (tt, (tt, tt)))))

closed-Ready : Ready closed
closed-Ready h = absurd (omega arith)

history-Ready_example : All Ready (history calls closed)
history-Ready_example = history-Ready calls closed calls-NotForced closed-Ready

-- The same gates with a minimum PHY class that the sample is below.
abbrev strict : Gates
strict = record closed {
  csi_publish_enabled = true;
  csi_delivery_mode = 2;
  csi_min_sig_mode = 2;
  csi_filter_active = true;
}

strict-Open : Open queue function_map queue any_mac 2 (state_of strict)
unfolding pack_mac pack_bytes
strict-Open = record {
  no_raw = refl;
  published = refl;
  filters = record { valid = omega arith; peer = refl; sig_mode = refl; active = refl };
}

not-Wanted : Wanted any_mac 2 sample_info → ⊥
not-Wanted (_, h) = omega arith

capture_csi_info-unwanted_example :
    capture_csi_info queue function_map queue sample_info (state_of strict)
    ≡ (dropped (counted (state_of strict)), [])
capture_csi_info-unwanted_example =
    capture_csi_info-unwanted queue function_map queue any_mac 2 sample_info (state_of strict)
      strict-Open sample_info-IsInfo (inl not-Wanted)

abbrev idle_consumer : Consumer (List CsiDataPacket) Table (List CsiDataPacket)
idle_consumer = record { delivery = state_of closed; registered = false; wake_ups = 0 }

poll-capture_csi_info_example :
    (p : CsiDataPacket) × Carries sample_info p
    × Awaited queue function_map queue sample_info p (begin idle_consumer)
poll-capture_csi_info_example =
    poll-capture_csi_info queue function_map queue any_mac 0 sample_info idle_consumer
      closed-Filters refl refl refl (omega arith) sample_info-IsInfo wanted (omega arith)

abbrev tracking : State
tracking = record {
  gates = closed;
  stats = record zero_stats { seq_drop_detection_enabled = true };
  csi_queue = [];
  peer_seq_tracker = λ _. some 4090;
  logger = logger;
}

tracking-Tracks : Tracks queue function_map queue sender 4090 tracking
tracking-Tracks = record { enabled = refl; no_reset = refl; held = refl }

track_run_lem_example :
    (let e = track_run queue function_map queue sample_packet 4090 (3 ∷ 0 ∷ 499 ∷ []) tracking in
      Tracks queue function_map queue sender (last_seq 4090 (3 ∷ 0 ∷ 499 ∷ [])) e
      × (e.stats.rx_drop_count % 2 ^ 32 ≡ (0 + total (3 ∷ 0 ∷ 499 ∷ [])) % 2 ^ 32))
track_run_lem_example =
    track_run_lem queue function_map queue sample_packet 4090 (3 ∷ 0 ∷ 499 ∷ []) tracking
      (omega arith) (omega arith, (omega arith, (omega arith, tt))) tracking-Tracks

capture_csi_info-set_csi_output_enabled_example :
    (let (e, events) = capture_csi_info queue function_map queue sample_info (state_of draining) in
      capture_csi_info queue function_map queue sample_info
        (record (state_of draining) { gates = set_csi_output_enabled false draining })
      ≡ (record e { gates = set_csi_output_enabled false e.gates }, events))
capture_csi_info-set_csi_output_enabled_example =
    capture_csi_info-set_csi_output_enabled queue function_map queue false sample_info
      (state_of draining)
