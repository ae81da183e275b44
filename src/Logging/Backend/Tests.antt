-- ===== src/Logging/Backend/Tests.antt =====
-- The backend with channels of two items: packets and a message logged between its steps.
use esp_csi_rs_core.Common.{
  ℕ, ◌≡◌, refl, Bool, true, false, not, List, [], ◌∷◌, ◌++◌, Option, none, some, arith, ◌==◌,
  length, replicate, length-replicate,
}
use esp_csi_rs_core.Containers.{BoundedQueue}
use esp_csi_rs_core.Containers.Samples.{list_queue, push, pop}
use esp_csi_rs_core.Csi.{CsiDataPacket}
use esp_csi_rs_core.Csi.Samples.{sample_packet, sample_packet-IsPacket}
use esp_csi_rs_core.Logging.{
  esp_csi_tool, sta, Logger, log_mode_from, role_from, log_csi, record_log_drop,
}
use esp_csi_rs_core.Logging.ArrayList.Pieces.{join_pieces}
use esp_csi_rs_core.Logging.CsiTool.Line.{tool_line}
use esp_csi_rs_core.Logging.Backend.{
  of_packet, of_message, selecting, Backend, Event, log_packet, log_message, backend, write,
  write_all, write_serialized_packet_async, write_packet, write_csi_tool_packet_async, log_record,
  select, drain, flush, logger_backend, happen, run,
}
use esp_csi_rs_core.Logging.Backend.Writes.{printed, spoken}
use esp_csi_rs_core.Logging.Backend.Channels.{
  Steady, Delivered, logged, said, due_of, pending, unsaid,
}
use esp_csi_rs_core.Logging.Backend.Runs.{run-Delivered, run-ahead}
use esp_csi_rs_core.Logging.Backend.Header.{write_csi_tool_packet_async-header}

abbrev scratch : List ℕ
scratch = replicate 3328 0

abbrev packets : BoundedQueue CsiDataPacket (List CsiDataPacket)
packets = list_queue 2

abbrev messages : BoundedQueue (List ℕ) (List (List ℕ))
messages = list_queue 2

-- A packet as one byte.
abbrev cobs : CsiDataPacket → Option (List ℕ)
cobs p = some (p.channel ∷ [])

abbrev always : ℕ → Bool
always n = true

abbrev statics : ℕ → Logger (List CsiDataPacket)
statics mode = record {
  log_mode = mode;
  role = 0;
  esp_csi_tool_header_printed = false;
  async_log_active = true;
  csi_tool_emit_cap = 0;
  csi_channel = [];
  log_dropped_packets = 0;
}

abbrev idle : ℕ → Backend (List CsiDataPacket) (List (List ℕ))
idle mode = record {
  logger = statics mode;
  log_channel = [];
  phase = selecting;
  calls = 0;
  out = [];
}

idle-Steady : Steady packets messages cobs esp_csi_tool sta 0 (idle 3)
unfolding log_mode_from role_from
idle-Steady = record {
  active = refl;
  in_mode = refl;
  in_role = refl;
  capped = refl;
  well_formed = tt;
}

-- Three packets for a channel of two, a message, and steps of the backend.
abbrev traffic : List Event
traffic =
    log_packet sample_packet
    ∷ log_message 3 (104 ∷ 105 ∷ [])
    ∷ log_packet sample_packet
    ∷ log_packet sample_packet
    ∷ backend scratch
    ∷ backend scratch
    ∷ []

scratch_size : length scratch ≡ 3328
scratch_size = length-replicate {A = ℕ} 3328 0

run-Delivered_example :
    (t : Backend (List CsiDataPacket) (List (List ℕ))) × (run always packets messages cobs traffic
        (idle 3)
      ≡ some t)
    × Steady packets messages cobs esp_csi_tool sta 0 t
    × Delivered packets messages cobs esp_csi_tool sta 0 (logged traffic) (said traffic) (idle 3) t
run-Delivered_example =
    run-Delivered always packets messages cobs esp_csi_tool sta 0 (λ n. refl) traffic (idle 3)
      (
        sample_packet-IsPacket,
        (
          tt,
          (sample_packet-IsPacket, (sample_packet-IsPacket, (scratch_size, (scratch_size, tt)))),
        ),
      )
      idle-Steady

abbrev loaded : Backend (List CsiDataPacket) (List (List ℕ))
loaded =
    (let l = statics 3 in
      record (idle 3) {
        logger = record l { csi_channel = sample_packet ∷ [] };
        log_channel = (104 ∷ 105 ∷ []) ∷ [];
      })

loaded-Steady : Steady packets messages cobs esp_csi_tool sta 0 loaded
unfolding log_mode_from role_from
loaded-Steady = record {
  active = refl;
  in_mode = refl;
  in_role = refl;
  capped = refl;
  well_formed = (sample_packet-IsPacket, tt);
}

run-ahead_example :
    (t : Backend (List CsiDataPacket) (List (List ℕ))) × (run always packets messages cobs
        (replicate 4 (backend scratch))
        loaded
      ≡ some t)
    × (printed t.out ++ due_of packets messages cobs esp_csi_tool sta 0 t
        ≡ printed [] ++ pending packets messages cobs esp_csi_tool sta 0 loaded)
    × (spoken t.out
        ≡ spoken [] ++ join_pieces (unsaid packets messages cobs esp_csi_tool sta 0 loaded))
run-ahead_example =
    run-ahead always packets messages cobs esp_csi_tool sta 0 (λ n. refl) scratch 4 loaded
      loaded-Steady scratch_size (omega arith)

abbrev refuses_first : ℕ → Bool
refuses_first n = not (n == 0)

write_csi_tool_packet_async-header_example :
    (c d : Backend (List CsiDataPacket) (List (List ℕ))) × (write_csi_tool_packet_async
        refuses_first sample_packet scratch
        (idle 3)
      ≡ some c)
    × (c.out ≡ [])
    × (write_csi_tool_packet_async refuses_first sample_packet scratch c ≡ some d)
    × (printed d.out ≡ printed [] ++ tool_line (role_from 0) 0 sample_packet)
write_csi_tool_packet_async-header_example =
    write_csi_tool_packet_async-header refuses_first sample_packet sample_packet scratch scratch
      (idle 3) refl refl refl sample_packet-IsPacket scratch_size

abbrev longer : List Event
longer =
    traffic
    ++ (backend scratch
        ∷ backend scratch
        ∷ log_message 3 (111 ∷ [])
        ∷ backend scratch
        ∷ backend scratch
        ∷ backend scratch
        ∷ backend scratch
        ∷ [])

-- In serialized mode the message comes out between the packets.
serialized_run :
    elim (run always packets messages cobs longer (idle 1)) [ some t ↦ t.out | none ↦ [] ]
    ≡ of_packet (6 ∷ [])
      ∷ of_message (104 ∷ 105 ∷ 13 ∷ 10 ∷ [])
      ∷ of_packet (6 ∷ [])
      ∷ of_message (111 ∷ 13 ∷ 10 ∷ [])
      ∷ []
unfolding run happen log_csi record_log_drop log_record push pop logger_backend select drain flush
    log_mode_from write_packet write_serialized_packet_async write write_all
serialized_run = refl
