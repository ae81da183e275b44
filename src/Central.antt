-- ===== src/Central.antt =====
-- lib/central/esp_now.rs: the ESP-NOW central with the `statistics` feature, on a chip other than the
-- `esp32c5`. The driver's peer table, the map of known peers and postcard are parameters; the clock,
-- the frames received and the outcomes of the sends are inputs.
pub mod Pace
pub mod Sequence
mod Tests
use esp_csi_rs_core.Common.{
  ℕ, zero, suc, ◌+◌, ◌-◌, ◌*◌, ◌/◌, ◌%◌, ◌^◌, min, max, Bool, true, false, not, ◌&&◌, List, [], ◌∷◌,
  ◌++◌, Option, none, some, ltb, leb, if◌then◌else◌, take,
}
use esp_csi_rs_core.Common.Mac.{Mac, mac, mac_eq}
use esp_csi_rs_core.Containers.{BoundedMap}
use esp_csi_rs_core.Protocol.{
  ControlPacket, PeripheralPacket, Postcard, Serialized, frame, failed, panicked,
  serialize_with_magic, parse_with_magic, central_magic_number, peripheral_magic_number,
}
use esp_csi_rs_core.Peripheral.{PeerTable, PoolFrame}
use esp_csi_rs_core.Stats.{Stats, record_tx, u32_mod, u64_mod}

unfoldable pub hz_to_interval_us : ℕ → ℕ
hz_to_interval_us hz = max (1000000 / max hz 1) 1

-- The peers that the central knows of: the driver's table `E`, and the map `K`.
pub record Peers (E K : Type 0) : Type 0 where
  pub esp_now : E
  pub known_peers : K

module _ {E K : Type 0} (table : PeerTable E) (known : BoundedMap Mac ℕ K)
    (postcard : Postcard PeripheralPacket) where
  open table use {peer_exists, add_peer}
  open known use {get, insert, empty}

  -- Whether a frame is the peripheral's: by its address in manual pairing, else by its magic.
  unfoldable pub from_peripheral : PoolFrame → Option Mac → Bool
  from_peripheral r peer_mac = elim peer_mac [
    | some expected ↦ mac_eq r.src_address expected
    | none ↦ elim (parse_with_magic postcard r.payload peripheral_magic_number true) [
      | some packet ↦ true
      | none ↦ false
    ]
  ]

  -- The result of `add_peer` is dropped.
  unfoldable pub register_peer : Mac → E → E
  register_peer src e =
      if peer_exists src e then e else elim (add_peer src e) [ some added ↦ added | none ↦ e ]

  -- A map that is full is cleared first; the unit that it stores is 0.
  unfoldable pub remember : Mac → K → K
  remember src m = elim (insert src 0 m) [
    | some held ↦ held
    | none ↦ elim (insert src 0 empty) [ some held ↦ held | none ↦ empty ]
  ]

  unfoldable pub handle_peripheral_packet : PoolFrame → Option Mac → Peers E K → Peers E K
  unfolding from_peripheral register_peer remember
  handle_peripheral_packet r peer_mac p =
      if from_peripheral r peer_mac
      then elim (get r.src_address p.known_peers) [
        | some _ ↦ p
        | none ↦ record {
          esp_now = register_peer r.src_address p.esp_now;
          known_peers = remember r.src_address p.known_peers;
        }
      ]
      else p

  -- The frames that a round takes from the pool: one while the central transmits. The deadline that
  -- the loop tests is read after the first frame, when that limit has already ended it.
  unfoldable pub rx_limit : Bool → ℕ
  rx_limit tx_active = if tx_active then 1 else 65535

  unfoldable pub handle_all : Option Mac → List PoolFrame → Peers E K → Peers E K
  handle_all peer_mac [] p = p
  handle_all peer_mac (r ∷ rs) p = handle_all peer_mac rs (handle_peripheral_packet r peer_mac p)

  unfoldable pub drain : Bool → Bool → Option Mac → List PoolFrame → Peers E K → Peers E K
  unfolding rx_limit handle_all
  drain rx_enabled tx_active peer_mac frames p =
      if rx_enabled then handle_all peer_mac (take (rx_limit tx_active) frames) p else p

-- The adaptive rate of the control packets.
pub record TxPacing : Type 0 where
  pub tx_hz_max : ℕ
  pub tx_hz_min : ℕ
  pub adaptive_tx_hz : ℕ
  pub tx_interval_us : ℕ
  pub consecutive_tx_ok : ℕ

-- The pacing at the start, by the configured frequency.
unfoldable pub tx_pacing_start : Option ℕ → Bool → TxPacing
unfolding hz_to_interval_us
tx_pacing_start frequency_hz rx_enabled =
    let freq : ℕ = elim frequency_hz [ some hz ↦ max hz 1 | none ↦ 65535 ] in
    let top = min (max freq 1) 8000 in
    record {
      tx_hz_max = top;
      tx_hz_min = min (max (top / 8) 100) top;
      adaptive_tx_hz = top;
      tx_interval_us = if rx_enabled then hz_to_interval_us top else hz_to_interval_us freq;
      consecutive_tx_ok = 0;
    }

-- The outcome of `send_async`: sent, out of memory or failed, another error.
pub data Sent : Type 0 where
  ok pressure error : Sent

unfoldable pub pace : Bool → Sent → TxPacing → TxPacing
unfolding hz_to_interval_us
pace adaptive ok c =
    let count = min (c.consecutive_tx_ok + 1) 65535 in
    let hz = min (c.adaptive_tx_hz + max (c.adaptive_tx_hz * 10 / 100) 1) c.tx_hz_max in
    if not adaptive
    then c
    else if leb 32 count
    then record c {
      consecutive_tx_ok = 0;
      adaptive_tx_hz = hz;
      tx_interval_us = hz_to_interval_us hz;
    }
    else record c { consecutive_tx_ok = count }
pace adaptive pressure c =
    let hz = max (c.adaptive_tx_hz - max (c.adaptive_tx_hz * 25 / 100) 1) c.tx_hz_min in
    if adaptive
    then record c {
      consecutive_tx_ok = 0;
      adaptive_tx_hz = hz;
      tx_interval_us = hz_to_interval_us hz;
    }
    else record c { consecutive_tx_ok = 0 }
pace adaptive error c = record c { consecutive_tx_ok = 0 }

-- The counters of the diagnostics.
pub record TxDiagnostics : Type 0 where
  pub queued : ℕ
  pub confirmed : ℕ
  pub failed_count : ℕ

unfoldable pub reset_tx_diagnostics : TxDiagnostics → TxDiagnostics
reset_tx_diagnostics d = record { queued = 0; confirmed = 0; failed_count = 0 }

-- What the transmitting half of the loop keeps.
pub record CentralTx : Type 0 where
  pub pacing : TxPacing
  pub next_tx_us : ℕ
  pub control_sequence : ℕ
  pub diagnostics : TxDiagnostics
  pub stats : Stats

-- The counters after a send, and the number of the next packet.
unfoldable pub count_sent : Sent → CentralTx → CentralTx
count_sent ok t =
    let d = t.diagnostics in
    record t {
      control_sequence = (t.control_sequence + 1) % u32_mod;
      diagnostics = record d {
        queued = (d.queued + 1) % u64_mod;
        confirmed = (d.confirmed + 1) % u64_mod;
      };
      stats = record_tx t.stats;
    }
count_sent pressure t =
    let d = t.diagnostics in
    record t { diagnostics = record d { failed_count = (d.failed_count + 1) % u64_mod } }
count_sent error t =
    let d = t.diagnostics in
    record t { diagnostics = record d { failed_count = (d.failed_count + 1) % u64_mod } }

-- A send of the burst, and the tick that follows it.
unfoldable pub after_send : Bool → Sent → CentralTx → CentralTx
unfolding pace count_sent
after_send adaptive outcome t =
    let counted = count_sent outcome t in
    let pacing = pace adaptive outcome t.pacing in
    record counted {
      pacing = pacing;
      next_tx_us = min (t.next_tx_us + pacing.tx_interval_us) (u64_mod - 1);
    }

module _ (postcard : Postcard ControlPacket) where
  -- The transmitting half of a round: the bytes handed to the driver, and the state. A burst is one
  -- packet; one that cannot be serialised is logged.
  unfoldable pub transmit : Bool → Bool → Bool → ℕ → Sent → CentralTx → List (List ℕ) × CentralTx
  unfolding after_send
  transmit is_collector send_magic adaptive now_us outcome t =
      let packet : ControlPacket = record {
        is_collector = is_collector;
        sequence_number = t.control_sequence;
      } in
      if ltb now_us t.next_tx_us
      then ([], t)
      else elim (serialize_with_magic postcard packet central_magic_number send_magic 16) [
        | frame bytes ↦ (bytes ∷ [], after_send adaptive outcome t)
        | failed ↦ ([], t)
        | panicked ↦ ([], t)
      ]

-- The wait at the end of a round, by the clock then.
unfoldable pub central_wait_us : Bool → Bool → ℕ → CentralTx → ℕ
central_wait_us tx_enabled rx_enabled clock_us t =
    let until_tx_us = t.next_tx_us - clock_us in
    let interval = t.pacing.tx_interval_us in
    let slice_us = min (max (interval / (if rx_enabled then 8 else 4)) 1) 100 in
    if tx_enabled then max (min until_tx_us slice_us) 1 else if rx_enabled then 20 else 1
