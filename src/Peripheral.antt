-- ===== src/Peripheral.antt =====
-- lib/peripheral/esp_now.rs: the responder of the ESP-NOW peripheral, with the `statistics` feature,
-- on a chip other than the `esp32c5`. The driver's peer table and postcard are parameters.
pub mod Address
pub mod Pace
pub mod Ingest
pub mod Mode
pub mod Responder
mod Tests
use Prim.Native.Nat.{bit_or, bit_and}
use esp_csi_rs_core.Common.{
  ℕ, ◌+◌, ◌-◌, ◌*◌, ◌/◌, ◌%◌, ◌^◌, min, max, Bool, true, false, not, ◌&&◌, List, [], ◌∷◌, Option,
  none, some, ltb, leb, ◌==◌, if◌then◌else◌, bool_eq,
}
use esp_csi_rs_core.Common.Mac.{Mac, mac, mac_eq}
use esp_csi_rs_core.Protocol.{ControlPacket, Postcard, parse_with_magic, central_magic_number}

abbrev u64_mod : ℕ
u64_mod = 2 ^ 64

unfoldable pub hz_to_interval_us : ℕ → ℕ
hz_to_interval_us hz = max (1000000 / max hz 1) 1

unfoldable pub mac_to_u64 : Mac → ℕ
mac_to_u64 m =
    bit_or
      (bit_or (bit_or (bit_or (bit_or m.m0 (m.m1 * 2 ^ 8)) (m.m2 * 2 ^ 16)) (m.m3 * 2 ^ 24))
        (m.m4 * 2 ^ 32))
      (m.m5 * 2 ^ 40)

-- `(v >> k) & 0xFF` is the byte at bit `k`.
unfoldable pub u64_to_mac : ℕ → Mac
u64_to_mac v =
    mac (v % 256) (v / 2 ^ 8 % 256) (v / 2 ^ 16 % 256) (v / 2 ^ 24 % 256) (v / 2 ^ 32 % 256)
      (v / 2 ^ 40 % 256)

-- The diagnostics counters.
pub record Diagnostics : Type 0 where
  pub parse_fail : ℕ
  pub magic_drop : ℕ
  pub source_filter_drop : ℕ
  pub peer_add_fail : ℕ
  pub sequence_miss : ℕ
  pub control_packet : ℕ
  pub tx_guard_break : ℕ

unfoldable pub reset_rx_diagnostics : Diagnostics → Diagnostics
reset_rx_diagnostics d = record {
  parse_fail = 0;
  magic_drop = 0;
  source_filter_drop = 0;
  peer_add_fail = 0;
  sequence_miss = 0;
  control_packet = 0;
  tx_guard_break = 0;
}

-- `Shared`, with the statics that the responder touches: the raw-listen flag, the diagnostics, the
-- collection gate of the crate, and the driver's peer table `E`.
pub record Shared (E : Type 0) : Type 0 where
  pub is_connected : Bool
  pub is_collector : Bool
  pub central_mac : ℕ
  pub peer_healthcheck_counter : ℕ
  pub last_control_sequence : ℕ
  pub sequence_initialized : Bool
  pub pending_flag : Bool
  pub last_central_is_listener : Bool
  pub mode_streak : ℕ
  pub raw_listen : Bool
  pub runtime_is_collector : Bool
  pub diagnostics : Diagnostics
  pub esp_now : E

-- The peer table of `EspNow`: a peer that was added exists.
pub record PeerTable (E : Type 0) : Type 0 where
  pub peer_exists : Mac → E → Bool
  pub add_peer : Mac → E → Option E

-- What the responder reads of a `PoolFrame`.
pub record PoolFrame : Type 0 where
  pub src_address : Mac
  pub payload : List ℕ

-- The state with which `responder` begins, by the configured peer.
unfoldable pub initial : {E : Type 0} → Option Mac → Bool → Bool → Diagnostics → E → Shared E
unfolding mac_to_u64
initial peer_mac is_collector raw_listen diagnostics esp_now = record {
  is_connected = elim peer_mac [ some _ ↦ true | none ↦ false ];
  is_collector = is_collector;
  central_mac = elim peer_mac [ some m ↦ mac_to_u64 m | none ↦ 0 ];
  peer_healthcheck_counter = 0;
  last_control_sequence = 0;
  sequence_initialized = false;
  pending_flag = false;
  last_central_is_listener = false;
  mode_streak = 0;
  raw_listen = raw_listen;
  runtime_is_collector = is_collector;
  diagnostics = diagnostics;
  esp_now = esp_now;
}

module _ {E : Type 0} (peers : PeerTable E) (postcard : Postcard ControlPacket) where
  open peers use {peer_exists, add_peer}

  -- Whether the peer is registered now, and the state.
  unfoldable pub register_central_peer : Mac → Shared E → Bool × Shared E
  register_central_peer m s =
      if peer_exists m s.esp_now then (true, s) else elim (add_peer m s.esp_now) [
        | some e ↦ (true, record s { esp_now = e })
        | none ↦
            let d = s.diagnostics in
            (
              false,
              record s {
                diagnostics = record d { peer_add_fail = (d.peer_add_fail + 1) % u64_mod };
              },
            )
      ]

  -- The bookkeeping of sequence numbers; a gap that is not above 1 only resynchronises.
  unfoldable pub count_sequence : ControlPacket → Shared E → Shared E
  count_sequence p s =
      let d = s.diagnostics in
      let missed =
        if s.sequence_initialized && ltb (s.last_control_sequence + 1) p.sequence_number
        then p.sequence_number - s.last_control_sequence - 1
        else 0 in
      record s {
        diagnostics = record d {
          control_packet = (d.control_packet + 1) % u64_mod;
          sequence_miss = (d.sequence_miss + missed) % u64_mod;
        };
        sequence_initialized = true;
        last_control_sequence = p.sequence_number;
      }

  -- Locking onto the first central, and the periodic check of its entry in the peer table.
  unfoldable pub manage_peer : Bool → Mac → Shared E → Shared E
  unfolding register_central_peer mac_to_u64 u64_to_mac
  manage_peer is_connected src s =
      if is_connected
      then (let counter = (s.peer_healthcheck_counter + 1) % 65536 in
          let t = record s { peer_healthcheck_counter = counter } in
          if bit_and counter 255 == 0
          then (let (_, u) = register_central_peer (u64_to_mac s.central_mac) t in u)
          else t)
      else (let (added, t) = register_central_peer src s in
          if added
          then record t {
            central_mac = mac_to_u64 src;
            peer_healthcheck_counter = 0;
            is_connected = true;
          }
          else t)

  -- The hysteresis of the mode.
  unfoldable pub follow_mode : Bool → Shared E → Shared E
  follow_mode central_is_listener s =
      if bool_eq central_is_listener s.last_central_is_listener
      then (let streak = min (s.mode_streak + 1) 255 in
          let t = record s { mode_streak = streak } in
          if (streak == 3) && central_is_listener && not s.is_collector
          then record t { runtime_is_collector = true; is_collector = true }
          else t)
      else record s { last_central_is_listener = central_is_listener; mode_streak = 1 }

  -- What follows a parsed packet.
  unfoldable pub accept_packet : ControlPacket → Bool → Mac → Bool → Shared E → Shared E
  unfolding count_sequence manage_peer follow_mode
  accept_packet p is_connected src tx_enabled s =
      let counted = count_sequence p s in
      let answered =
        if tx_enabled
        then record (manage_peer is_connected src counted) { pending_flag = true }
        else counted in
      follow_mode (not p.is_collector) answered

  unfoldable pub ingest_control_packet : PoolFrame → Bool → Option Mac → Shared E → Shared E
  unfolding accept_packet u64_to_mac
  ingest_control_packet r tx_enabled peer_mac s =
      let d = s.diagnostics in
      let expect_magic : Bool = elim peer_mac [ some _ ↦ false | none ↦ true ] in
      if s.raw_listen
      then s
      else if s.is_connected && not (mac_eq (u64_to_mac s.central_mac) r.src_address)
      then record s {
        diagnostics = record d { source_filter_drop = (d.source_filter_drop + 1) % u64_mod };
      }
      else elim (parse_with_magic postcard r.payload central_magic_number expect_magic) [
        | some p ↦ accept_packet p s.is_connected r.src_address tx_enabled s
        | none ↦
            if expect_magic
            then record s { diagnostics = record d { magic_drop = (d.magic_drop + 1) % u64_mod } }
            else record s { diagnostics = record d { parse_fail = (d.parse_fail + 1) % u64_mod } }
      ]

-- The adaptive pacing of the replies.
pub record Pacing : Type 0 where
  pub reply_hz_max : ℕ
  pub reply_hz_min : ℕ
  pub adaptive_reply_hz : ℕ
  pub tx_interval_us : ℕ
  pub consecutive_tx_ok : ℕ

-- The pacing with which `responder` begins, at the target frequency.
unfoldable pub pacing_start : ℕ → Bool → Pacing
unfolding hz_to_interval_us
pacing_start frequency_hz rx_enabled =
    let top = min (max frequency_hz 1) 8000 in
    record {
      reply_hz_max = top;
      reply_hz_min = min (max (top / 8) 100) top;
      adaptive_reply_hz = top;
      tx_interval_us = if rx_enabled then hz_to_interval_us top else hz_to_interval_us frequency_hz;
      consecutive_tx_ok = 0;
    }

-- `Ok(())` of a send.
unfoldable pub sent_ok : Bool → Pacing → Pacing
unfolding hz_to_interval_us
sent_ok adaptive_pacing_enabled c =
    let ok = min (c.consecutive_tx_ok + 1) 65535 in
    let hz = min (c.adaptive_reply_hz + max (c.adaptive_reply_hz * 10 / 100) 1) c.reply_hz_max in
    if not adaptive_pacing_enabled
    then c
    else if leb 32 ok
    then record c {
      consecutive_tx_ok = 0;
      adaptive_reply_hz = hz;
      tx_interval_us = hz_to_interval_us hz;
    }
    else record c { consecutive_tx_ok = ok }

-- `OutOfMemory` or `SendFailed`.
unfoldable pub sent_under_pressure : Bool → Pacing → Pacing
unfolding hz_to_interval_us
sent_under_pressure adaptive_pacing_enabled c =
    let hz = max (c.adaptive_reply_hz - max (c.adaptive_reply_hz * 25 / 100) 1) c.reply_hz_min in
    if adaptive_pacing_enabled
    then record c {
      consecutive_tx_ok = 0;
      adaptive_reply_hz = hz;
      tx_interval_us = hz_to_interval_us hz;
    }
    else record c { consecutive_tx_ok = 0 }

-- Any other error of a send.
unfoldable pub sent_error : Pacing → Pacing
sent_error c = record c { consecutive_tx_ok = 0 }
