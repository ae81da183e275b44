-- ===== src/Delivery.antt =====
-- lib/csi/delivery.rs: the gates that decide what becomes of a captured frame, the functions that
-- set them, and the CSI callback of the Wi-Fi task. An atomic is a field; a function pointer is the
-- number of the function, and null is `none`.
pub mod Filter
pub mod Calls
pub mod Stores
pub mod Sequence
pub mod Capture
pub mod Output
pub mod Rates
pub mod Balance
pub mod Route
pub mod Consumer
mod Tests
use Prim.Native.Nat.{bit_and, bit_or}
use esp_csi_rs_core.Common.{
  ℕ, ◌+◌, ◌-◌, ◌*◌, ◌/◌, ◌%◌, ◌^◌, Bool, true, false, not, ◌&&◌, ◌||◌, List, [], ◌∷◌, map, Option,
  none, some, ltb, ◌==◌, if◌then◌else◌,
}
use esp_csi_rs_core.Common.Mac.{Mac, mac, octets}
use esp_csi_rs_core.Containers.{BoundedQueue, BoundedMap}
use esp_csi_rs_core.Csi.{CsiDataPacket, WifiCsiInfo, from_wifi_csi_info}
use esp_csi_rs_core.Stats.{
  Stats, u64_mod, record_collector_rx, add_rx_drops, record_collector_rx_drop,
}
use esp_csi_rs_core.Logging.{Logger, Write, log_csi}

-- `CsiDeliveryMode`
pub data CsiDeliveryMode : Type 0 where
  off callback async : CsiDeliveryMode

abbrev pub mode_u8 : CsiDeliveryMode → ℕ
mode_u8 off = 0
mode_u8 callback = 1
mode_u8 async = 2

-- The statics that the callback reads.
pub record Gates : Type 0 where
  pub is_collector : Bool
  pub collection_mode_changed : Bool
  pub csi_output_enabled : Bool
  pub csi_output_changed : Bool
  pub csi_publish_enabled : Bool
  pub csi_delivery_mode : ℕ
  pub csi_callback : Option ℕ
  pub csi_raw_callback : Option ℕ
  pub csi_inline_log_enabled : Bool
  pub csi_peer_filter : ℕ
  pub csi_min_sig_mode : ℕ
  pub csi_filter_active : Bool

unfoldable pub set_csi_logging_enabled : Bool → Gates → Gates
set_csi_logging_enabled enabled g = record g {
  csi_inline_log_enabled = enabled;
  csi_publish_enabled = enabled;
}

unfoldable pub set_csi_delivery_mode : CsiDeliveryMode → Gates → Gates
set_csi_delivery_mode mode g = record g { csi_delivery_mode = mode_u8 mode }

unfoldable pub csi_delivery_mode : Gates → CsiDeliveryMode
csi_delivery_mode g =
    if g.csi_delivery_mode == 1 then callback else if g.csi_delivery_mode == 2 then async else off

unfoldable pub set_csi_callback : ℕ → Gates → Gates
set_csi_callback cb g = record g {
  csi_callback = some cb;
  csi_delivery_mode = 1;
  csi_publish_enabled = true;
}

unfoldable pub clear_csi_callback : Gates → Gates
clear_csi_callback g = record g { csi_delivery_mode = 0; csi_callback = none }

unfoldable pub set_csi_raw_callback : ℕ → Gates → Gates
set_csi_raw_callback cb g = record g { csi_raw_callback = some cb; csi_publish_enabled = true }

unfoldable pub set_csi_output_enabled : Bool → Gates → Gates
set_csi_output_enabled enabled g = record g {
  csi_output_enabled = enabled;
  csi_output_changed = true;
}

unfoldable pub set_runtime_collection_mode : Bool → Gates → Gates
set_runtime_collection_mode is_collector g = record g {
  is_collector = is_collector;
  collection_mode_changed = true;
}

-- The loop of `pack_mac` over the bytes left; `<<` drops what leaves the 64 bits.
unfoldable pub pack_bytes : List ℕ → ℕ → ℕ
pack_bytes [] v = v
pack_bytes (b ∷ bs) v = pack_bytes bs (bit_or (v * 256 % u64_mod) b)

unfoldable pub pack_mac : Mac → ℕ
unfolding pack_bytes
pack_mac m = pack_bytes (octets m) 0

unfoldable pub refresh_filter_active : Gates → Gates
refresh_filter_active g = record g {
  csi_filter_active = not (g.csi_peer_filter == 0) || not (g.csi_min_sig_mode == 0);
}

unfoldable pub set_csi_peer_filter : Mac → Gates → Gates
unfolding refresh_filter_active
set_csi_peer_filter m g = refresh_filter_active (record g { csi_peer_filter = pack_mac m })

unfoldable pub set_csi_min_sig_mode : ℕ → Gates → Gates
unfolding refresh_filter_active
set_csi_min_sig_mode min g = refresh_filter_active (record g { csi_min_sig_mode = min })

-- The byte `mac[i]` of `csi_peer_filter`: `(v >> (8 * (5 - i))) as u8`.
abbrev pub filter_byte : ℕ → ℕ → ℕ
filter_byte v i = v / 2 ^ (8 * (5 - i)) % 256

unfoldable pub csi_peer_filter : Gates → Mac
csi_peer_filter g =
    let v = g.csi_peer_filter in
    mac (filter_byte v 0) (filter_byte v 1) (filter_byte v 2) (filter_byte v 3) (filter_byte v 4)
      (filter_byte v 5)

unfoldable pub csi_passes_filter : Gates → WifiCsiInfo → Bool
csi_passes_filter g info =
    if not g.csi_filter_active
    then true
    else if not (g.csi_peer_filter == 0) && not (pack_mac info.mac == g.csi_peer_filter)
    then false
    else not (not (g.csi_min_sig_mode == 0) && ltb (info.packet_mode % 256) g.csi_min_sig_mode)

-- `reset`, which `reset_globals` calls at the end of a run.
unfoldable pub reset : Gates → Gates
reset g = record g {
  csi_inline_log_enabled = false;
  csi_publish_enabled = false;
  csi_delivery_mode = 0;
  csi_callback = none;
}

-- The whole state that the callback works on: `Q` is the type of `CSI_QUEUE`, `M` that of
-- `PEER_SEQ_TRACKER`, `L` that of the logger's channel.
pub record Delivery (Q M L : Type 0) : Type 0 where
  pub gates : Gates
  pub open gates use *
  pub stats : Stats
  pub csi_queue : Q
  pub peer_seq_tracker : M
  pub logger : Logger L

-- What a call of the callback does beyond the state: it calls a user's function, wakes the
-- consumer, or writes a line.
pub data Event : Type 0 where
  raw_callback : ℕ → Event
  user_callback : ℕ → CsiDataPacket → Event
  wake : Event
  writes : Write → Event

-- `(current_seq.wrapping_sub(last_seq)) & 0x0FFF`, on `u16`.
unfoldable pub seq_diff : ℕ → ℕ → ℕ
seq_diff current last = bit_and ((current + 65536 - last) % 65536) 4095

-- What one frame adds to `rx_drop_count`, by the last sequence number of its sender.
unfoldable pub lost_frames : ℕ → Option ℕ → ℕ
lost_frames current none = 0
lost_frames current (some last) =
    let diff = seq_diff current last in
    if ltb 1 diff then (if ltb (diff - 1) 500 then diff - 1 else 0) else 0

module _ {Q M L : Type 0} (queue : BoundedQueue CsiDataPacket Q) (peers : BoundedMap Mac ℕ M)
    (channel : BoundedQueue CsiDataPacket L) where
  open queue use {enqueue}
  open peers use {empty, get, insert}

  -- The tracker after `current` of the peer `m`: a full map is cleared, and the insertion repeated;
  -- an error of that one is ignored.
  unfoldable pub insert_or_clear : Mac → ℕ → M → M
  insert_or_clear m current tracker = elim (insert m current tracker) [
    | some t ↦ t
    | none ↦ elim (insert m current empty) [ some t ↦ t | none ↦ empty ]
  ]

  -- The tracker that the gate `RESET_SEQ_TRACKER` leaves.
  unfoldable pub tracker_at_entry : Delivery Q M L → M
  tracker_at_entry d = if d.stats.reset_seq_tracker then empty else d.peer_seq_tracker

  unfoldable pub track_sequence : CsiDataPacket → Delivery Q M L → Delivery Q M L
  unfolding insert_or_clear tracker_at_entry
  track_sequence p d =
      if d.stats.seq_drop_detection_enabled
      then record d {
        stats =
            add_rx_drops (lost_frames p.sequence_number (get p.mac (tracker_at_entry d)))
              (record (d.stats) { reset_seq_tracker = false });
        peer_seq_tracker = insert_or_clear p.mac p.sequence_number (tracker_at_entry d);
      }
      else d

  -- The `match` on `CSI_DELIVERY_MODE`, and the inline log behind it.
  unfoldable pub dispatch : CsiDataPacket → Delivery Q M L → Delivery Q M L × List Event
  dispatch p d =
      if d.csi_delivery_mode == 1
      then elim d.csi_callback [ some cb ↦ (d, user_callback cb p ∷ []) | none ↦ (d, []) ]
      else if d.csi_delivery_mode == 2
      then elim (enqueue p d.csi_queue) [
        | some q ↦ (record d { csi_queue = q }, wake ∷ [])
        | none ↦ (record d { stats = record_collector_rx_drop d.stats }, [])
      ]
      else if d.csi_inline_log_enabled
      then (let (l, ws) = log_csi channel p d.logger in (record d { logger = l }, map writes ws))
      else (d, [])

  -- What follows the publish gate.
  unfoldable pub deliver : WifiCsiInfo → Delivery Q M L → Delivery Q M L × List Event
  unfolding track_sequence dispatch
  deliver info d =
      if csi_passes_filter d.gates info
      then elim (from_wifi_csi_info info) [
        | some p ↦ dispatch p (track_sequence p d)
        | none ↦ (record d { stats = record_collector_rx_drop d.stats }, [])
      ]
      else (record d { stats = record_collector_rx_drop d.stats }, [])

  unfoldable pub capture_csi_info : WifiCsiInfo → Delivery Q M L → Delivery Q M L × List Event
  unfolding deliver
  capture_csi_info info d =
      let counted = record d { stats = record_collector_rx d.stats } in
      elim d.csi_raw_callback [
        | some cb ↦ (counted, raw_callback cb ∷ [])
        | none ↦ if d.csi_publish_enabled then deliver info counted else (counted, [])
      ]
