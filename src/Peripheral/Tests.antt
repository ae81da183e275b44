-- ===== src/Peripheral/Tests.antt =====
-- The responder at sample states.
use esp_csi_rs_core.Common.{◌≡◌, ◌≢◌, refl, ap, true, false, List, [], ◌∷◌, none, some, arith, inr}
use esp_csi_rs_core.Common.Mac.{Mac, mac}
use esp_csi_rs_core.Protocol.{ControlPacket, parse_with_magic, central_magic_number}
use esp_csi_rs_core.Protocol.Samples.{flat, decode}
use esp_csi_rs_core.Peripheral.{Shared, Diagnostics, PeerTable, PoolFrame, ingest_control_packet}
use esp_csi_rs_core.Peripheral.Ingest.{ingest_all, filtered, ingest_control_packet-locks}

-- A peer table that takes every peer.
abbrev open_table : PeerTable (List Mac)
open_table = record { peer_exists = λ _ _. false; add_peer = λ m e. some (m ∷ e) }

abbrev zero_diagnostics : Diagnostics
zero_diagnostics = record {
  parse_fail = 0;
  magic_drop = 0;
  source_filter_drop = 0;
  peer_add_fail = 0;
  sequence_miss = 0;
  control_packet = 0;
  tx_guard_break = 0;
}

abbrev central : Mac
central = mac 36 98 171 1 2 3

abbrev stranger : Mac
stranger = mac 9 8 7 6 5 4

abbrev idle : Shared (List Mac)
idle = record {
  is_connected = false;
  is_collector = false;
  central_mac = 0;
  peer_healthcheck_counter = 0;
  last_control_sequence = 0;
  sequence_initialized = false;
  pending_flag = false;
  last_central_is_listener = false;
  mode_streak = 0;
  raw_listen = false;
  runtime_is_collector = false;
  diagnostics = zero_diagnostics;
  esp_now = [];
}

abbrev first_frame : PoolFrame
first_frame = record { src_address = central; payload = 240 ∷ 43 ∷ 145 ∷ 168 ∷ 1 ∷ 7 ∷ [] }

abbrev control : ControlPacket
control = record { is_collector = true; sequence_number = 7 }

parsed : parse_with_magic flat first_frame.payload central_magic_number true ≡ some control
unfolding parse_with_magic decode
parsed = refl

abbrev strangers : List PoolFrame
strangers =
    record first_frame { src_address = stranger }
    ∷ record first_frame { src_address = stranger }
    ∷ []

strange : stranger ≢ central
strange h = omega (arith, ap (λ m. m.m0) h)

ingest_control_packet-locks_example :
    (let t = ingest_control_packet open_table flat first_frame true none idle in
      (t.is_connected ≡ true)
      × (t.pending_flag ≡ true)
      × (ingest_all open_table flat true none strangers t ≡ filtered open_table flat 2 t))
ingest_control_packet-locks_example =
    ingest_control_packet-locks open_table flat first_frame control strangers idle refl refl
      (omega arith) (omega arith) parsed (inr (central ∷ [], refl)) (strange, (strange, tt))

abbrev running : Shared (List Mac)
running = record idle { sequence_initialized = true; last_control_sequence = 7 }
