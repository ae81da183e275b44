-- ===== src/FastEspNow.antt =====
-- lib/central/esp_now_fast.rs and lib/peripheral/esp_now_fast.rs: the collector that beacons until it
-- hears a source, and the source that floods a collector it heard. Postcard, the receive queue and
-- the driver's rates are parameters; the clock's readings, in microseconds, what ends a wait and
-- the outcomes of sends are inputs. The scratch buffers are long enough for the magic prefix.
pub mod Pairing
pub mod Collecting
mod Tests
use Prim.Native.Nat.{bit_and}
use esp_csi_rs_core.Common.{
  ℕ, zero, suc, ◌+◌, ◌-◌, ◌/◌, ◌%◌, ◌^◌, min, max, Bool, true, false, not, ◌&&◌, List, [], ◌∷◌,
  ◌++◌, map, Option, none, some, ltb, leb, ◌==◌, if◌then◌else◌,
}
use esp_csi_rs_core.Common.Mac.{Mac, mac_eq}
use esp_csi_rs_core.Containers.{BoundedQueue}
use esp_csi_rs_core.Config.{EspNowConfig}
use esp_csi_rs_core.Radio.{RadioCall, WifiPhyRate, SecondaryChannel, apply_peer_espnow_phy}
use esp_csi_rs_core.Peripheral.Responder.{broadcast_address}
use esp_csi_rs_core.Peripheral.{PoolFrame}
use esp_csi_rs_core.Central.{Sent, ok, pressure, error}
use esp_csi_rs_core.EspNowPool.{Pool, receive}
use esp_csi_rs_core.EspNowPool as Pools
use esp_csi_rs_core.Protocol.{
  ControlPacket, PeripheralPacket, peripheral_packet, Postcard, frame, failed, panicked,
  serialize_with_magic, parse_with_magic, central_magic_number, peripheral_magic_number,
}

-- What ends a wait.
pub data Wake : Type 0 where
  stop deadline : Wake
  received : PoolFrame → Wake

-- A round of the discovery: the clock before the beacon, behind it, and the end of the wait.
pub record Round : Type 0 where
  pub now : ℕ
  pub later : ℕ
  pub wake : Wake

-- The collector's variables, and the beacons that it broadcast.
pub record Collector : Type 0 where
  pub detected_src : Option Mac
  pub beacon_at : ℕ
  pub beacon_seq : ℕ
  pub tx_count : ℕ
  pub stop_signal : Bool
  pub sent : List (Mac × List ℕ)

abbrev pub control : Bool → ℕ → ControlPacket
control is_collector n = record { is_collector = is_collector; sequence_number = n }

module _ (controls : Postcard ControlPacket) (hellos : Postcard PeripheralPacket) where
  unfoldable pub send_beacon : Bool → Collector → Collector
  send_beacon send_magic c =
      elim (serialize_with_magic controls (control true c.beacon_seq) central_magic_number
        send_magic 16) [
          | frame bytes ↦ record c {
            sent = c.sent ++ ((broadcast_address, bytes) ∷ []);
            tx_count = (c.tx_count + 1) % 2 ^ 64;
            beacon_seq = (c.beacon_seq + 1) % 2 ^ 32;
          }
          | failed ↦ c
          | panicked ↦ c
        ]

  -- The beacon that is due.
  unfoldable pub beacon : Bool → Bool → ℕ → ℕ → Collector → Collector
  unfolding send_beacon
  beacon tx_enabled send_magic now later c =
      if tx_enabled && leb c.beacon_at now
      then (let d = send_beacon send_magic c in record d { beacon_at = later + 1000000 })
      else c

  unfoldable pub is_source : Option Mac → PoolFrame → Bool
  is_source peer_mac r = elim peer_mac [
    | some expected ↦ mac_eq r.src_address expected
    | none ↦ elim (parse_with_magic hellos r.payload peripheral_magic_number true) [
      | some p ↦ true
      | none ↦ false
    ]
  ]

  -- The end of a wait; the Boolean is whether the loop goes on.
  unfoldable pub on_wake : Option Mac → Wake → Collector → Collector × Bool
  unfolding is_source
  on_wake peer_mac stop c = (record c { stop_signal = true }, false)
  on_wake peer_mac deadline c = (c, true)
  on_wake peer_mac (received r) c =
      if is_source peer_mac r
      then (record c { detected_src = some r.src_address }, false)
      else (c, true)

  unfoldable pub discover : Bool → Option Mac → List Round → Collector → Collector
  unfolding beacon on_wake
  discover tx_enabled peer_mac [] c = c
  discover tx_enabled peer_mac (r ∷ rs) c =
      let send_magic : Bool = elim peer_mac [ some m ↦ false | none ↦ true ] in
      let (d, goes_on) = on_wake peer_mac r.wake (beacon tx_enabled send_magic r.now r.later c) in
      let rest = discover tx_enabled peer_mac rs d in if goes_on then rest else d

  -- The first phase, from the clock's first reading on.
  unfoldable pub discovery : Bool → Option Mac → ℕ → List Round → Collector
  unfolding discover
  discovery tx_enabled peer_mac now rs =
      let c : Collector = record {
        detected_src = peer_mac;
        beacon_at = now;
        beacon_seq = 0;
        tx_count = 0;
        stop_signal = false;
        sent = [];
      } in
      elim peer_mac [ some m ↦ c | none ↦ discover tx_enabled none rs c ]

  -- What the source's search ends in.
  pub data Search : Type 0 where
    searching stopped : Search
    locked : Mac → Search

  unfoldable pub search_collector : List Wake → Search
  search_collector [] = searching
  search_collector (stop ∷ ws) = stopped
  search_collector (deadline ∷ ws) = search_collector ws
  search_collector (received r ∷ ws) =
      let rest = search_collector ws in
      elim (parse_with_magic controls r.payload central_magic_number true) [
        | some p ↦ locked r.src_address
        | none ↦ rest
      ]

  -- The first phase of the source: a configured peer is not searched for.
  unfoldable pub find_collector : Option Mac → List Wake → Search
  unfolding search_collector
  find_collector peer_mac ws = elim peer_mac [ some m ↦ locked m | none ↦ search_collector ws ]

-- The second phase of the collector: the frames that a wake-up takes off the queue.
module _ {Q : Type 0} (frames : BoundedQueue Pools.PoolFrame Q) where
  unfoldable pub drain : ℕ → Pool Q → Pool Q
  unfolding receive
  drain zero p = p
  drain (suc left) p = elim (receive frames p) [ some (r, q) ↦ drain left q | none ↦ p ]

  unfoldable pub collect_wake : Pool Q → Pool Q
  unfolding drain receive
  collect_wake p = elim (receive frames p) [ some (r, q) ↦ drain 64 q | none ↦ p ]

-- What the source asks of the driver: a unicast peer, calls for its PHY, and frames to it.
pub data SourceCall : Type 0 where
  add_peer : Mac → SourceCall
  radio : RadioCall → SourceCall
  send : Mac → List ℕ → SourceCall

-- A round of the flood: whether a stop is signalled, whether the driver has the peer, the outcome
-- of the send, the clock behind it, and whether the waits for room and for the cap end in a stop.
pub record FloodRound : Type 0 where
  pub stop_signaled : Bool
  pub peer_exists : Bool
  pub outcome : Sent
  pub backoff_stopped : Bool
  pub now : ℕ
  pub cap_stopped : Bool

pub record FastFlood : Type 0 where
  pub next_tx_us : ℕ
  pub seq : ℕ
  pub healthcheck : ℕ
  pub tx_count : ℕ
  pub stop_signal : Bool
  pub calls : List SourceCall

abbrev stopping : FastFlood → FastFlood × Bool
stopping f = (record f { stop_signal = true }, false)

abbrev u64_max : ℕ
u64_max = 2 ^ 64 - 1

unfoldable pub add_collector_peer : Bool → Mac → List SourceCall
add_collector_peer peer_exists m = if peer_exists then [] else add_peer m ∷ []

unfoldable pub cap_interval_us : Option ℕ → Option ℕ
cap_interval_us freq_hz = elim freq_hz [ some f ↦ some (1000000 / max f 1) | none ↦ none ]

-- The cap on the rate.
unfoldable pub hold_cap : Option ℕ → FloodRound → FastFlood → FastFlood × Bool
hold_cap cap r f = elim cap [
  | none ↦ (f, true)
  | some interval ↦
      let next = min (f.next_tx_us + interval) u64_max in
      let g = record f { next_tx_us = next } in
      if ltb r.now next && r.cap_stopped then stopping g else (g, true)
]

-- The arms of the outcome, and the cap behind them.
unfoldable pub after_flood_send : Option ℕ → FloodRound → FastFlood → FastFlood × Bool
unfolding hold_cap
after_flood_send cap r f = elim r.outcome [
  | ok ↦
      hold_cap cap r (record f { tx_count = (f.tx_count + 1) % 2 ^ 64; seq = (f.seq + 1) % 2 ^ 32 })
  | pressure ↦ if r.backoff_stopped then stopping f else hold_cap cap r f
  | error ↦ hold_cap cap r f
]

module _ {R : Type 0} (rates : WifiPhyRate R) (config : EspNowConfig R)
    (controls : Postcard ControlPacket) (hellos : Postcard PeripheralPacket) where
  open rates use {mcs7_lgi}

  unfoldable pub forced_rate : R
  forced_rate = if config.force_phy then config.phy_rate else mcs7_lgi

  abbrev pub send_magic_of : Bool
  send_magic_of = elim config.peer_mac [ some m ↦ false | none ↦ true ]

  -- `add_collector_peer` with the PHY behind it.
  unfoldable pub peer_calls : Bool → Mac → List SourceCall
  unfolding add_collector_peer forced_rate
  peer_calls peer_exists m =
      add_collector_peer peer_exists m
      ++ map radio (apply_peer_espnow_phy rates m forced_rate config.secondary_channel)

  unfoldable pub hello_calls : Mac → List SourceCall
  hello_calls m =
      if send_magic_of
      then elim (serialize_with_magic hellos peripheral_packet peripheral_magic_number true 8) [
        | frame bytes ↦ send m bytes ∷ []
        | failed ↦ []
        | panicked ↦ []
      ]
      else []

  -- The frame of a round.
  unfoldable pub flood_frame : ℕ → Option (List ℕ)
  flood_frame n =
      elim (serialize_with_magic controls (control false n) central_magic_number send_magic_of 16) [
        | frame bytes ↦ some bytes
        | failed ↦ none
        | panicked ↦ none
      ]

  -- The periodic check of the peer.
  unfoldable pub check_peer : Mac → FloodRound → FastFlood → FastFlood
  unfolding peer_calls
  check_peer m r f =
      let n = (f.healthcheck + 1) % 2 ^ 16 in
      if (bit_and n 255 == 0) && not r.peer_exists
      then record f { healthcheck = n; calls = f.calls ++ peer_calls r.peer_exists m }
      else record f { healthcheck = n }

  unfoldable pub flood_round : Option ℕ → Mac → FloodRound → FastFlood → FastFlood × Bool
  unfolding check_peer flood_frame after_flood_send
  flood_round cap m r f =
      if r.stop_signaled
      then stopping f
      else (let g = check_peer m r f in
          elim (flood_frame g.seq) [
            | none ↦ (g, false)
            | some bytes ↦
                after_flood_send cap r (record g { calls = g.calls ++ (send m bytes ∷ []) })
          ])

  unfoldable pub flood_rounds : Option ℕ → Mac → List FloodRound → FastFlood → FastFlood
  unfolding flood_round
  flood_rounds cap m [] f = f
  flood_rounds cap m (r ∷ rs) f =
      let (g, goes_on) = flood_round cap m r f in
      let rest = flood_rounds cap m rs g in if goes_on then rest else g

  -- Behind the search: the peer, the hello and the flood, from the clock's reading on.
  unfoldable pub run_source : Option ℕ → Bool → ℕ → List FloodRound → Mac → FastFlood
  unfolding peer_calls hello_calls cap_interval_us flood_rounds
  run_source freq_hz peer_exists now rs m = flood_rounds (cap_interval_us freq_hz) m rs (record {
    next_tx_us = now;
    seq = 0;
    healthcheck = 0;
    tx_count = 0;
    stop_signal = false;
    calls = peer_calls peer_exists m ++ hello_calls m;
  })
