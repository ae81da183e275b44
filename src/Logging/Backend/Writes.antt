-- ===== src/Logging/Backend/Writes.antt =====
-- What one packet or message adds to the output, where the transport takes every write.
use esp_csi_rs_core.Common.{
  ℕ, ◌≡◌, refl, sym, ap, ◌∙◌, Bool, true, false, List, [], ◌∷◌, ◌++◌, append_assoc, append-nil,
  Option, none, some, arith, length, subst,
}
use esp_csi_rs_core.Csi.{CsiDataPacket}
use esp_csi_rs_core.Csi.Packet.{IsPacket}
use esp_csi_rs_core.Logging.{
  LogMode, text, serialized, array_list, esp_csi_tool, Role, role_from, Logger,
}
use esp_csi_rs_core.Logging.ArrayList.Line.{array_line}
use esp_csi_rs_core.Logging.ArrayList.Pieces.{join_pieces}
use esp_csi_rs_core.Logging.ArrayList.Scratch.{format_array_list_into_whole}
use esp_csi_rs_core.Logging.CsiTool.Sync.{esp_csi_tool_header}
use esp_csi_rs_core.Logging.CsiTool.Line.{tool_line, format_csi_tool_into-Written}
use esp_csi_rs_core.Logging.Text.Lines.{metadata_text}
use esp_csi_rs_core.Logging.Text.Stream.{samples_text, write_text_packet_async-text}
use esp_csi_rs_core.Logging.Backend.{
  Out, of_packet, of_message, flushed, Backend, write, write_all, write_chunks,
  write_serialized_packet_async, write_text_array_packet_async, write_tool_line,
  write_csi_tool_packet_async, write_packet,
}

-- The bytes written for packets, and those for messages.
abbrev pub printed : List Out → List ℕ
printed [] = []
printed (of_packet bytes ∷ os) = bytes ++ printed os
printed (of_message bytes ∷ os) = printed os
printed (flushed ∷ os) = printed os

abbrev pub spoken : List Out → List ℕ
spoken [] = []
spoken (of_packet bytes ∷ os) = spoken os
spoken (of_message bytes ∷ os) = bytes ++ spoken os
spoken (flushed ∷ os) = spoken os

pub printed-append : (xs ys : List Out) → printed (xs ++ ys) ≡ printed xs ++ printed ys
printed-append [] ys = refl
printed-append (of_packet b ∷ xs) ys =
    ap (λ t. b ++ t) (printed-append xs ys) ∙ sym (append_assoc b (printed xs) (printed ys))
printed-append (of_message b ∷ xs) ys = printed-append xs ys
printed-append (flushed ∷ xs) ys = printed-append xs ys

pub spoken-append : (xs ys : List Out) → spoken (xs ++ ys) ≡ spoken xs ++ spoken ys
spoken-append [] ys = refl
spoken-append (of_packet b ∷ xs) ys = spoken-append xs ys
spoken-append (of_message b ∷ xs) ys =
    ap (λ t. b ++ t) (spoken-append xs ys) ∙ sym (append_assoc b (spoken xs) (spoken ys))
spoken-append (flushed ∷ xs) ys = spoken-append xs ys

abbrev or_nothing : Option (List ℕ) → List ℕ
or_nothing o = elim o [ some bytes ↦ bytes | none ↦ [] ]

-- What a packet reads as in each mode; nothing where postcard refuses it.
abbrev pub packet_text :
    (CsiDataPacket → Option (List ℕ)) → LogMode → Role → ℕ → CsiDataPacket → List ℕ
packet_text to_slice_cobs serialized role cap p = or_nothing (to_slice_cobs p)
packet_text to_slice_cobs array_list role cap p = array_line p
packet_text to_slice_cobs text role cap p =
    metadata_text p ++ (samples_text p.csi_data ++ (93 ∷ 13 ∷ 10 ∷ []))
packet_text to_slice_cobs esp_csi_tool role cap p = tool_line role cap p

-- The header line where it is still due in a mode, and the logger behind a packet in it.
abbrev pub header_due : LogMode → Bool → List ℕ
header_due esp_csi_tool true = []
header_due esp_csi_tool false = esp_csi_tool_header
header_due text printed = []
header_due serialized printed = []
header_due array_list printed = []

abbrev pub marked : {L : Type 0} → LogMode → Logger L → Logger L
marked esp_csi_tool l = record l { esp_csi_tool_header_printed = true }
marked text l = l
marked serialized l = l
marked array_list l = l

-- Bytes of packets and of messages are added, and nothing else changes but the count of writes.
pub record Adds {L T : Type 0} (bytes message : List ℕ) (b c : Backend L T) : Type 0 where
  pub logger : c.logger ≡ b.logger
  pub log_channel : c.log_channel ≡ b.log_channel
  pub phase : c.phase ≡ b.phase
  pub printed : printed c.out ≡ printed b.out ++ bytes
  pub spoken : spoken c.out ≡ spoken b.out ++ message

module _ {L T : Type 0} where
  pub Adds-nothing : (b : Backend L T) → Adds [] [] b b
  Adds-nothing b = record {
    logger = refl;
    log_channel = refl;
    phase = refl;
    printed = sym (append-nil (printed b.out));
    spoken = sym (append-nil (spoken b.out));
  }

  Adds-append :
      (xs ys : List ℕ) (b c d : Backend L T)
      → Adds xs [] b c
      → Adds ys [] c d
      → Adds (xs ++ ys) [] b d
  Adds-append xs ys b c d u v = record {
    logger = v.logger ∙ u.logger;
    log_channel = v.log_channel ∙ u.log_channel;
    phase = v.phase ∙ u.phase;
    printed = v.printed ∙ ap (λ t. t ++ ys) u.printed ∙ append_assoc (printed b.out) xs ys;
    spoken = v.spoken ∙ append-nil (spoken c.out) ∙ u.spoken;
  }

module _ {L T : Type 0} (takes : ℕ → Bool) (all : (n : ℕ) → takes n ≡ true) where
  write_packet_bytes :
      (bytes : List ℕ) (b : Backend L T)
      → ((write takes of_packet bytes b).1 ≡ true)
        × Adds bytes [] b (write takes of_packet bytes b).0
  unfolding write
  write_packet_bytes bytes b =
      rw (write, all b.calls)
        (
          refl,
          record {
            logger = refl;
            log_channel = refl;
            phase = refl;
            printed =
                printed-append b.out (of_packet bytes ∷ [])
                ∙ ap (λ t. printed b.out ++ t) (append-nil bytes);
            spoken = spoken-append b.out (of_packet bytes ∷ []);
          },
        )

  pub write_all-Adds :
      (bytes : List ℕ) (b : Backend L T) → Adds [] bytes b (write_all takes bytes b)
  unfolding write_all write
  write_all-Adds [] b = Adds-nothing b
  write_all-Adds (x ∷ xs) b =
      rw (write_all, write, all b.calls)
        (record {
          logger = refl;
          log_channel = refl;
          phase = refl;
          printed = printed-append b.out (of_message (x ∷ xs) ∷ []);
          spoken =
              spoken-append b.out (of_message (x ∷ xs) ∷ [])
              ∙ ap (λ t. spoken b.out ++ t) (append-nil (x ∷ xs));
        })

  write_chunks-Adds :
      (xs : List (List ℕ)) (b : Backend L T) → Adds (join_pieces xs) [] b (write_chunks takes xs b)
  unfolding write_chunks
  write_chunks-Adds [] b = Adds-nothing b
  write_chunks-Adds (x ∷ xs) b =
      let (ok, u) = write_packet_bytes x b in
      let c : Backend L T = (write takes of_packet x b).0 in
      rw (write_chunks, ok)
        (Adds-append x (join_pieces xs) b c (write_chunks takes xs c) u (write_chunks-Adds xs c))

  serialized-Adds :
      (o : Option (List ℕ)) (b : Backend L T)
      → Adds
          (or_nothing o)
          []
          b
          (elim o [ some bytes ↦ (write takes of_packet bytes b).0 | none ↦ b ])
  serialized-Adds none b = Adds-nothing b
  serialized-Adds (some bytes) b = (write_packet_bytes bytes b).1

  write_tool_line-Adds :
      (p : CsiDataPacket) (scratch : List ℕ) (b : Backend L T)
      → IsPacket p
      → length scratch ≡ 3328
      → (c : Backend L T) × (write_tool_line takes p scratch b ≡ some c)
        × Adds
            (tool_line
              (let l = b.logger in role_from l.role)
              (let l = b.logger in l.csi_tool_emit_cap)
              p)
            []
            b
            c
  unfolding write_tool_line
  write_tool_line-Adds p scratch b v room =
      let l = b.logger in
      let line : List ℕ = tool_line (role_from l.role) l.csi_tool_emit_cap p in
      let (e, f, w) =
        format_csi_tool_into-Written (role_from l.role) l.csi_tool_emit_cap p scratch v
          (omega (arith, room)) in
      (
        (write takes of_packet line b).0,
        rw (write_tool_line, f, w.text) refl,
        (write_packet_bytes line b).1,
      )

  tool-Adds :
      (due : Bool) (p : CsiDataPacket) (scratch : List ℕ) (b : Backend L T)
      → IsPacket p
      → length scratch ≡ 3328
      → (let l = b.logger in l.esp_csi_tool_header_printed) ≡ due
      → (c : Backend L T) × (write_csi_tool_packet_async takes p scratch b ≡ some c)
        × Adds
            (header_due esp_csi_tool due
              ++ tool_line
                  (let l = b.logger in role_from l.role)
                  (let l = b.logger in l.csi_tool_emit_cap)
                  p)
            []
            (record b { logger = marked esp_csi_tool b.logger })
            c
  unfolding write_csi_tool_packet_async
  tool-Adds true p scratch b v room h =
      let l = b.logger in
      let m : Backend L T = record b { logger = record l { esp_csi_tool_header_printed = true } } in
      let (c, f, a) = write_tool_line-Adds p scratch m v room in
      (c, rw (write_csi_tool_packet_async, h) f, a)
  tool-Adds false p scratch b v room h =
      let l = b.logger in
      let m : Backend L T = record b { logger = record l { esp_csi_tool_header_printed = true } } in
      let (ok, u) = write_packet_bytes esp_csi_tool_header m in
      let d : Backend L T = (write takes of_packet esp_csi_tool_header m).0 in
      let (c, f, a) = write_tool_line-Adds p scratch d v room in
      let same =
        ap (λ k. let k : Logger L = k in tool_line (role_from k.role) k.csi_tool_emit_cap p)
          u.logger in
      (
        c,
        rw (write_csi_tool_packet_async, h, ok) f,
        Adds-append esp_csi_tool_header (tool_line (role_from l.role) l.csi_tool_emit_cap p) m d c u
            (subst (λ bytes. Adds bytes [] d c) same a),
      )

  -- In whatever mode, a well-formed packet adds its text, behind the header line where it is due.
  pub write_packet-Adds :
      (to_slice_cobs : CsiDataPacket → Option (List ℕ)) (mode : LogMode) (p : CsiDataPacket)
      (scratch : List ℕ) (b : Backend L T)
      → IsPacket p
      → length scratch ≡ 3328
      → (c : Backend L T) × (write_packet takes to_slice_cobs mode p scratch b ≡ some c)
        × Adds
            (header_due mode (let l = b.logger in l.esp_csi_tool_header_printed)
              ++ packet_text to_slice_cobs mode
                  (let l = b.logger in role_from l.role)
                  (let l = b.logger in l.csi_tool_emit_cap)
                  p)
            []
            (record b { logger = marked mode b.logger })
            c
  unfolding write_packet write_serialized_packet_async write_text_array_packet_async
  write_packet-Adds to_slice_cobs serialized p scratch b v room = (
    write_serialized_packet_async takes to_slice_cobs p b,
    refl,
    serialized-Adds (to_slice_cobs p) b,
  )
  write_packet-Adds to_slice_cobs array_list p scratch b v room =
      let (e, f, n, t, s) = format_array_list_into_whole p scratch v room in
      (
        (write takes of_packet (array_line p) b).0,
        rw (write_packet, write_text_array_packet_async, f, n, t) refl,
        (write_packet_bytes (array_line p) b).1,
      )
  write_packet-Adds to_slice_cobs text p scratch b v room =
      let (r, f, t) = write_text_packet_async-text p scratch v.samples room in
      (write_chunks takes r.1 b, rw (write_packet, f) refl, rw (sym t) (write_chunks-Adds r.1 b))
  write_packet-Adds to_slice_cobs esp_csi_tool p scratch b v room =
      tool-Adds (let l = b.logger in l.esp_csi_tool_header_printed) p scratch b v room refl
