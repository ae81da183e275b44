-- ===== src/Peripheral/Responder.antt =====
-- `responder` of lib/peripheral/esp_now.rs, one round of its loop at a time. What waits in the receive
-- pool, the clock's readings in microseconds, the outcomes of sends and the end of a wait are inputs.
-- The PHY that a registered central gets is a list of driver calls of its own.
pub mod Silent
pub mod Rounds
mod Tests
use esp_csi_rs_core.Common.{
  ℕ, zero, suc, ◌+◌, ◌-◌, ◌/◌, ◌%◌, ◌^◌, min, max, Bool, true, false, not, ◌&&◌, List, [], ◌∷◌,
  ◌++◌, Option, none, some, ltb, leb, if◌then◌else◌,
}
use esp_csi_rs_core.Common.Mac.{Mac, mac}
use esp_csi_rs_core.Config.{EspNowConfig}
use esp_csi_rs_core.Radio.{RadioCall, WifiPhyRate, apply_peer_espnow_phy}
use esp_csi_rs_core.Peripheral.Pace.{Send, ok, pressure, error}
use esp_csi_rs_core.Peripheral.{
  Shared, PeerTable, PoolFrame, Pacing, initial, ingest_control_packet, register_central_peer,
  u64_to_mac, Diagnostics, pacing_start, sent_ok, sent_under_pressure, sent_error,
}
use esp_csi_rs_core.Protocol.{
  ControlPacket, PeripheralPacket, peripheral_packet, Postcard, frame, failed, panicked,
  serialize_with_magic, peripheral_magic_number,
}

abbrev u64_max : ℕ
u64_max = 2 ^ 64 - 1

abbrev pub broadcast_address : Mac
broadcast_address = mac 255 255 255 255 255 255

module _ {R : Type 0} (config : EspNowConfig R) where
  unfoldable pub unicast_replies : Bool
  unicast_replies = elim config.secondary_channel [ some s ↦ true | none ↦ false ]

  unfoldable pub apply_central_peer_phy : WifiPhyRate R → Mac → List RadioCall
  unfolding unicast_replies
  apply_central_peer_phy rates m =
      if config.force_phy && unicast_replies
      then apply_peer_espnow_phy rates m config.phy_rate config.secondary_channel
      else []

  unfoldable pub reply_destination : {E : Type 0} → Shared E → Mac
  unfolding unicast_replies u64_to_mac
  reply_destination s = if unicast_replies then u64_to_mac s.central_mac else broadcast_address

-- The task's variables, with the frames that wait in the pool and the replies sent: each with its
-- destination and the clock's reading when it was due.
pub record Responder (E : Type 0) : Type 0 where
  pub shared : Shared E
  pub pacing : Pacing
  pub next_tx_us : ℕ
  pub waiting : List PoolFrame
  pub tx_count : ℕ
  pub stop_signal : Bool
  pub sent : List (Mac × List ℕ × ℕ)

-- A round: the frames that came in before it, the clock at the check of the receive loop, at the
-- reply, and behind the send, the outcome of the send, and whether the last wait ends in a stop.
pub record Round : Type 0 where
  pub arrived : List PoolFrame
  pub rx_now : ℕ
  pub now : ℕ
  pub after : ℕ
  pub outcome : Send
  pub stopped : Bool

abbrev pub rx_burst_max_with_tx : ℕ
rx_burst_max_with_tx = 1

abbrev pub tx_catch_up_burst : ℕ
tx_catch_up_burst = 1

abbrev pub rx_burst_max_rx_only : ℕ
rx_burst_max_rx_only = 64

unfoldable pub reply_pending : {E : Type 0} → Responder E → Bool
reply_pending t = let s = t.shared in s.is_connected && s.pending_flag

unfoldable pub count_guard_break : {E : Type 0} → Responder E → Responder E
count_guard_break t =
    let s = t.shared in
    let d = s.diagnostics in
    record t {
      shared = record s {
        diagnostics = record d { tx_guard_break = (d.tx_guard_break + 1) % 2 ^ 64 };
      };
    }

-- The statements behind the match on the outcome.
unfoldable pub pace_reply : Bool → Send → Pacing → Pacing
unfolding sent_ok sent_under_pressure sent_error
pace_reply adaptive ok c = sent_ok adaptive c
pace_reply adaptive pressure c = sent_under_pressure adaptive c
pace_reply adaptive error c = sent_error c

unfoldable pub after_reply : {E : Type 0} → Bool → Send → Responder E → Responder E
unfolding pace_reply
after_reply adaptive outcome t =
    let c = pace_reply adaptive outcome t.pacing in
    record t {
      pacing = c;
      next_tx_us = min (t.next_tx_us + c.tx_interval_us) u64_max;
      tx_count = elim outcome [
        | ok ↦ (t.tx_count + 1) % 2 ^ 64
        | pressure ↦ t.tx_count
        | error ↦ t.tx_count
      ];
    }

unfoldable pub wait_us : {E : Type 0} → Bool → Bool → ℕ → Responder E → ℕ
unfolding reply_pending
wait_us rx_enabled tx_enabled now t =
    let c = t.pacing in
    let slice = min (max (c.tx_interval_us / (if rx_enabled then 8 else 4)) 1) 100 in
    if tx_enabled && reply_pending t then max (min (t.next_tx_us - now) slice) 1 else 1

module _ {E R : Type 0} (peers : PeerTable E) (controls : Postcard ControlPacket)
    (hellos : Postcard PeripheralPacket) (config : EspNowConfig R) where
  abbrev ingest : PoolFrame → Bool → Shared E → Shared E
  ingest r tx_enabled s = ingest_control_packet peers controls r tx_enabled config.peer_mac s

  -- The receive loop in front of a reply, with `left` turns left and `n` frames taken.
  unfoldable pub rx_burst : ℕ → ℕ → ℕ → Responder E → Responder E
  unfolding reply_pending count_guard_break
  rx_burst zero n now t = t
  rx_burst (suc left) n now t =
      let deadline = if reply_pending t then t.next_tx_us - 15 else u64_max in
      if ltb 0 n && leb deadline now then count_guard_break t else elim t.waiting [
        | [] ↦ t
        | r ∷ rs ↦
            rx_burst left (n + 1) now (record t { waiting = rs; shared = ingest r true t.shared })
      ]

  -- The message of a reply; a sentinel byte in manual pairing.
  unfoldable pub message : Option (List ℕ)
  message = elim config.peer_mac [
    | none ↦ elim (serialize_with_magic hellos peripheral_packet peripheral_magic_number true 8) [
      | frame bytes ↦ some bytes
      | failed ↦ none
      | panicked ↦ none
    ]
    | some m ↦ some (0 ∷ [])
  ]

  -- One reply, which is due and was asked for; the Boolean is whether it was sent.
  unfoldable pub send_reply : Bool → Round → Responder E → Responder E × Bool
  unfolding message reply_destination after_reply
  send_reply adaptive r t =
      let s = t.shared in
      let u = record t { shared = record s { pending_flag = false } } in
      elim message [
        | none ↦ (u, false)
        | some bytes ↦ (
          after_reply adaptive r.outcome (record u {
            sent = u.sent ++ ((reply_destination config u.shared, bytes, r.now) ∷ []);
          }),
          elim r.outcome [ ok ↦ true | pressure ↦ false | error ↦ false ],
        )
      ]

  -- The loop over replies that are due; `now` is the last reading of the clock.
  unfoldable pub tx_burst : ℕ → Bool → ℕ → Round → Responder E → Responder E
  unfolding send_reply reply_pending
  tx_burst zero adaptive now r t = t
  tx_burst (suc left) adaptive now r t =
      if leb t.next_tx_us now && reply_pending t
      then (let (u, sent) = send_reply adaptive r t in
          let rest = tx_burst left adaptive r.after r u in if sent then rest else u)
      else t

  -- The frames that a wake-up takes without replies.
  unfoldable pub rx_drain : ℕ → Responder E → Responder E
  rx_drain zero t = t
  rx_drain (suc left) t = elim t.waiting [
    | [] ↦ t
    | r ∷ rs ↦ rx_drain left (record t { waiting = rs; shared = ingest r false t.shared })
  ]

  -- The last wait of a round; the Boolean is whether the loop goes on.
  unfoldable pub last_wait : Bool → Bool → Round → Responder E → Responder E × Bool
  unfolding rx_drain
  last_wait rx_enabled tx_enabled r t =
      if r.stopped
      then (record t { stop_signal = true }, false)
      else if not tx_enabled && rx_enabled
      then (rx_drain (suc rx_burst_max_rx_only) t, true)
      else (t, true)

  unfoldable pub round : Bool → Bool → Round → Responder E → Responder E × Bool
  unfolding rx_burst tx_burst last_wait
  round rx_enabled tx_enabled r t =
      let both = rx_enabled && tx_enabled in
      let heard = record t { waiting = t.waiting ++ r.arrived } in
      let taken = if both then rx_burst rx_burst_max_with_tx 0 r.rx_now heard else heard in
      let replied = if tx_enabled then tx_burst tx_catch_up_burst both r.now r taken else taken in
      last_wait rx_enabled tx_enabled r replied

  unfoldable pub rounds : Bool → Bool → List Round → Responder E → Responder E
  unfolding round
  rounds rx_enabled tx_enabled [] t = t
  rounds rx_enabled tx_enabled (r ∷ rs) t =
      let (u, goes_on) = round rx_enabled tx_enabled r t in
      let rest = rounds rx_enabled tx_enabled rs u in if goes_on then rest else u

  -- The state before the loop; in manual pairing the central is registered up front.
  unfoldable pub responder_start :
      ℕ → Bool → Bool → Bool → Bool → Diagnostics → ℕ → E → ℕ → Responder E
  unfolding initial register_central_peer pacing_start
  responder_start frequency_hz rx_enabled tx_enabled is_collector raw_listen diagnostics now esp_now
        tx_count =
      let s = initial config.peer_mac is_collector raw_listen diagnostics esp_now in
      let shared : Shared E = elim config.peer_mac [
        | some m ↦ if tx_enabled then (register_central_peer peers controls m s).1 else s
        | none ↦ s
      ] in
      let c = pacing_start frequency_hz rx_enabled in
      record {
        shared = shared;
        pacing = c;
        next_tx_us = min (now + c.tx_interval_us) u64_max;
        waiting = [];
        tx_count = tx_count;
        stop_signal = false;
        sent = [];
      }
