-- ===== src/Peripheral/Responder/Tests.antt =====
-- The responder over three rounds: a control frame, a reply that waits for its time, and silence.
use esp_csi_rs_core.Common.{
  ℕ, ◌-◌, ◌*◌, ◌≤◌, ◌≡◌, refl, true, false, List, [], ◌∷◌, none, some, arith, length,
}
use esp_csi_rs_core.Common.Mac.{Mac, mac, mac_eq}
use esp_csi_rs_core.Config.{EspNowConfig}
use esp_csi_rs_core.Protocol.{
  to_le_bytes, peripheral_magic_number, parse_with_magic, serialize_with_magic,
}
use esp_csi_rs_core.Protocol.Samples.{flat, empty_hello, decode}
use esp_csi_rs_core.Peripheral.{
  PeerTable, PoolFrame, Diagnostics, initial, ingest_control_packet, accept_packet, count_sequence,
  manage_peer, register_central_peer, mac_to_u64, u64_to_mac, follow_mode, pacing_start,
  hz_to_interval_us, sent_ok,
}
use esp_csi_rs_core.Peripheral.Pace.{ok, pressure}
use esp_csi_rs_core.Peripheral.Responder.{
  Responder, Round, rounds, round, responder_start, rx_burst, tx_burst, reply_pending, send_reply,
  message, reply_destination, unicast_replies, after_reply, pace_reply, last_wait,
  broadcast_address,
}
use esp_csi_rs_core.Peripheral.Responder.Rounds.{arrivals, rounds-replies}
use esp_csi_rs_core.Peripheral.Responder.Silent.{rounds-sent}

abbrev open_table : PeerTable (List Mac)
open_table = record { peer_exists = λ _ _. false; add_peer = λ m e. some (m ∷ e) }

abbrev zero_diagnostics : Diagnostics
zero_diagnostics = record {
  parse_fail = 0;
  magic_drop = 0;
  source_filter_drop = 0;
  peer_add_fail = 0;
  sequence_miss = 0;
  control_packet = 0;
  tx_guard_break = 0;
}

abbrev config : EspNowConfig ℕ
config = record {
  phy_rate = 16;
  channel = 6;
  peer_mac = none;
  secondary_channel = none;
  force_phy = false;
}

abbrev control_frame : PoolFrame
control_frame = record {
  src_address = mac 36 98 171 1 2 3;
  payload = 240 ∷ 43 ∷ 145 ∷ 168 ∷ 1 ∷ 7 ∷ [];
}

abbrev traffic : List Round
traffic =
    record {
      arrived = control_frame ∷ control_frame ∷ [];
      rx_now = 1100;
      now = 1101;
      after = 1300;
      outcome = ok;
      stopped = false;
    }
    ∷ record {
      arrived = [];
      rx_now = 1400;
      now = 1401;
      after = 1402;
      outcome = ok;
      stopped = false;
    }
    ∷ record {
      arrived = [];
      rx_now = 2200;
      now = 2201;
      after = 2250;
      outcome = pressure;
      stopped = true;
    }
    ∷ []

abbrev served : Responder (List Mac)
served = rounds open_table flat empty_hello config true true traffic (
    responder_start open_table flat empty_hello config 1000 true true false false zero_diagnostics 0
      [] 0)

rounds-replies_example :
    (length served.sent ≤ arrivals traffic) × (125 * length served.sent ≤ 3000 - 0)
rounds-replies_example =
    rounds-replies open_table flat empty_hello config 0 3000 1000 false false zero_diagnostics [] 0
      traffic (omega arith) (omega arith) (omega arith)

rounds-sent_example :
    (rounds open_table flat empty_hello config false true traffic (
      responder_start open_table flat empty_hello config 1000 false true false false
        zero_diagnostics 0 [] 0)).sent
    ≡ []
rounds-sent_example =
    rounds-sent open_table flat empty_hello config 1000 false false zero_diagnostics 0 [] 0 traffic

-- Two frames, two replies, each a beacon when it is due.
replies_run :
    served.sent
    ≡ (broadcast_address, to_le_bytes peripheral_magic_number, 1101)
      ∷ (broadcast_address, to_le_bytes peripheral_magic_number, 2201)
      ∷ []
unfolding rounds round responder_start initial rx_burst ingest_control_packet parse_with_magic
    decode accept_packet count_sequence manage_peer register_central_peer mac_to_u64 u64_to_mac
    follow_mode tx_burst reply_pending send_reply message serialize_with_magic reply_destination
    unicast_replies after_reply pace_reply sent_ok pacing_start hz_to_interval_us last_wait mac_eq
replies_run = refl
