-- ===== src/Logging/Backend.antt =====
-- The asynchronous backend of lib/logging/logging.rs: `logger_backend`, the formatters' writes to its
-- output, the text logger in front of it, and `init_logger`, with the `println` and `auto` features. A
-- step of the backend is what it does between two looks at a channel; producers may log before
-- each step. Whether the transport takes the n-th write is a parameter, and of a write that it does
-- not take nothing counts as written. What the shared scratch holds before a step is an input, and
-- so are the readings of the USB register.
pub mod Writes
pub mod Channels
pub mod Accounting
pub mod Runs
pub mod Header
mod Tests
use esp_csi_rs_core.Common.{
  ℕ, ◌+◌, ◌≤◌, Bool, true, false, ◌&&◌, List, [], ◌∷◌, ◌++◌, Option, none, some, leb, ◌==◌,
  if◌then◌else◌, length, take, ◌>>=◌,
}
use esp_csi_rs_core.Containers.{BoundedQueue}
use esp_csi_rs_core.Csi.{CsiDataPacket}
use esp_csi_rs_core.Logging.{
  LogMode, text, serialized, array_list, esp_csi_tool, to_u8, log_mode_from, role_from, Logger,
  record_log_drop, log_csi, set_log_mode,
}
use esp_csi_rs_core.Logging.ArrayList.{format_array_list_into}
use esp_csi_rs_core.Logging.CsiTool.{format_csi_tool_into}
use esp_csi_rs_core.Logging.CsiTool.Sync.{esp_csi_tool_header}
use esp_csi_rs_core.Logging.Text.{write_text_packet_async}

-- What the transport took, by who wrote it.
pub data Out : Type 0 where
  of_packet of_message : List ℕ → Out
  flushed : Out

-- Where the task stands: before `select`, in the loop over text messages behind a packet, or
-- before the flush behind a message.
pub data Phase : Type 0 where
  selecting draining flushing : Phase

-- The statics, the text channel, and the task; `calls` counts the writes.
pub record Backend (L T : Type 0) : Type 0 where
  pub logger : Logger L
  pub log_channel : T
  pub phase : Phase
  pub calls : ℕ
  pub out : List Out

abbrev pub channel_of : {L T : Type 0} → Backend L T → L
channel_of b = let l = b.logger in l.csi_channel

-- Something is logged, the mode is set, or the backend makes a step.
pub data Event : Type 0 where
  log_packet : CsiDataPacket → Event
  log_message : ℕ → List ℕ → Event
  set_mode : LogMode → Event
  backend : List ℕ → Event

-- `Level::Info`; a more verbose level is a greater number.
abbrev pub info : ℕ
info = 3

-- `EspLogger::log` with the formatted arguments.
unfoldable pub log_record : {T : Type 0} → BoundedQueue (List ℕ) T → ℕ → List ℕ → T → T
log_record messages level args t =
    if leb level info && leb (length args + 2) 256
    then elim (BoundedQueue.enqueue messages (args ++ (13 ∷ 10 ∷ [])) t) [ some u ↦ u | none ↦ t ]
    else t

module _ (takes : ℕ → Bool) where
  -- `LogOutput::write`; the Boolean is whether it succeeds.
  unfoldable pub write : {L T : Type 0} → (List ℕ → Out) → List ℕ → Backend L T → Backend L T × Bool
  write tag bytes b =
      let c = record b { calls = b.calls + 1 } in
      if takes b.calls then (record c { out = b.out ++ (tag bytes ∷ []) }, true) else (c, false)

  -- `write_all`: no write where there are no bytes.
  unfoldable pub write_all : {L T : Type 0} → List ℕ → Backend L T → Backend L T
  unfolding write
  write_all [] b = b
  write_all (x ∷ xs) b = (write of_message (x ∷ xs) b).0

  -- One write for each chunk, up to the first that fails.
  unfoldable pub write_chunks : {L T : Type 0} → List (List ℕ) → Backend L T → Backend L T
  unfolding write
  write_chunks [] b = b
  write_chunks (x ∷ xs) b =
      let (c, ok) = write of_packet x b in let rest = write_chunks xs c in if ok then rest else c

  unfoldable pub write_serialized_packet_async :
      {L T : Type 0} → (CsiDataPacket → Option (List ℕ)) → CsiDataPacket → Backend L T → Backend L T
  unfolding write
  write_serialized_packet_async to_slice_cobs p b = elim (to_slice_cobs p) [
    | some bytes ↦ (write of_packet bytes b).0
    | none ↦ b
  ]

  unfoldable pub write_text_array_packet_async :
      {L T : Type 0} → CsiDataPacket → List ℕ → Backend L T → Option (Backend L T)
  unfolding write format_array_list_into record_log_drop
  write_text_array_packet_async p scratch b = format_array_list_into p scratch >>= λ e. some (
      if e.at == 0
      then record b { logger = record_log_drop b.logger }
      else (write of_packet (take e.at e.buf) b).0)

  -- The line behind the header.
  unfoldable pub write_tool_line :
      {L T : Type 0} → CsiDataPacket → List ℕ → Backend L T → Option (Backend L T)
  unfolding write format_csi_tool_into role_from
  write_tool_line p scratch b =
      let l = b.logger in
      format_csi_tool_into (role_from l.role) l.csi_tool_emit_cap p scratch >>= λ e.
      some (write of_packet (take e.at e.buf) b).0

  unfoldable pub write_csi_tool_packet_async :
      {L T : Type 0} → CsiDataPacket → List ℕ → Backend L T → Option (Backend L T)
  unfolding write write_tool_line
  write_csi_tool_packet_async p scratch b =
      let l = b.logger in
      let headed = record b { logger = record l { esp_csi_tool_header_printed = true } } in
      if l.esp_csi_tool_header_printed
      then write_tool_line p scratch headed
      else (let (c, ok) = write of_packet esp_csi_tool_header headed in
          if ok then write_tool_line p scratch c else some c)

  -- The match on the mode; `none` is a panic of a formatter.
  unfoldable pub write_packet :
      {L T : Type 0}
      → (CsiDataPacket → Option (List ℕ))
      → LogMode
      → CsiDataPacket
      → List ℕ
      → Backend L T
      → Option (Backend L T)
  unfolding write_serialized_packet_async write_text_array_packet_async write_text_packet_async
      write_chunks write_csi_tool_packet_async
  write_packet to_slice_cobs serialized p scratch b =
      some (write_serialized_packet_async to_slice_cobs p b)
  write_packet to_slice_cobs array_list p scratch b = write_text_array_packet_async p scratch b
  write_packet to_slice_cobs text p scratch b =
      write_text_packet_async p scratch >>= λ r. some (write_chunks r.1 b)
  write_packet to_slice_cobs esp_csi_tool p scratch b = write_csi_tool_packet_async p scratch b

  module _ {L T : Type 0} (packets : BoundedQueue CsiDataPacket L)
      (messages : BoundedQueue (List ℕ) T) (to_slice_cobs : CsiDataPacket → Option (List ℕ)) where
    -- `select` looks at the packets first.
    unfoldable pub select : List ℕ → Backend L T → Option (Backend L T)
    unfolding write_packet write_all log_mode_from
    select scratch b =
        let l = b.logger in
        elim (BoundedQueue.dequeue packets l.csi_channel) [
          | some (p, q) ↦
              write_packet to_slice_cobs (log_mode_from l.log_mode) p scratch
                (record b { logger = record l { csi_channel = q }; phase = draining })
          | none ↦ elim (BoundedQueue.dequeue messages b.log_channel) [
            | some (m, t) ↦ some (write_all m (record b { log_channel = t; phase = flushing }))
            | none ↦ some b
          ]
        ]

    -- A turn of the loop over messages.
    unfoldable pub drain : Backend L T → Backend L T
    unfolding write_all
    drain b = elim (BoundedQueue.dequeue messages b.log_channel) [
      | some (m, t) ↦ write_all m (record b { log_channel = t })
      | none ↦ record b { phase = selecting }
    ]

    -- The flush where no message waits; its result is dropped.
    unfoldable pub flush : Backend L T → Backend L T
    flush b = elim (BoundedQueue.dequeue messages b.log_channel) [
      | some (m, t) ↦ record b { phase = selecting }
      | none ↦ record b { phase = selecting; out = b.out ++ (flushed ∷ []) }
    ]

    unfoldable pub logger_backend : List ℕ → Backend L T → Option (Backend L T)
    unfolding select drain flush
    logger_backend scratch b = elim b.phase [
      | selecting ↦ select scratch b
      | draining ↦ some (drain b)
      | flushing ↦ some (flush b)
    ]

    unfoldable pub happen : Event → Backend L T → Option (Backend L T)
    unfolding log_csi log_record set_log_mode logger_backend
    happen (log_packet p) b = some (record b { logger = (log_csi packets p b.logger).0 })
    happen (log_message level args) b =
        some (record b { log_channel = log_record messages level args b.log_channel })
    happen (set_mode mode) b = some (record b { logger = set_log_mode mode b.logger })
    happen (backend scratch) b = logger_backend scratch b

    unfoldable pub run : List Event → Backend L T → Option (Backend L T)
    unfolding happen
    run [] b = some b
    run (e ∷ es) b = happen e b >>= run es
