-- ===== src/Logging/Text/Stream.antt =====
-- The chunks of the text formatter, put together, against the text of the packet.
use esp_csi_rs_core.Common.{
  ℕ, zero, suc, ◌+◌, ◌≤◌, ◌≡◌, refl, ap, ◌∙◌, false, List, [], ◌∷◌, ◌++◌, some, arith, ltb, ◌==◌,
  if◌then◌else◌, length, take, length-append, append_assoc, append-nil, dec_lt, lt→ltb, All,
}
use esp_csi_rs_core.Common.Int.{ℤ, IsI8}
use esp_csi_rs_core.Csi.{CsiDataPacket}
use esp_csi_rs_core.Logging.Encode.{Cursor}
use esp_csi_rs_core.Logging.Encode.Writes.{write_slice-Written, i32_text}
use esp_csi_rs_core.Logging.Encode.Emits.{write_i8_sep-Emits}
use esp_csi_rs_core.Logging.ArrayList.Pieces.{whole_of_room, join_pieces, join_pieces-append}
use esp_csi_rs_core.Logging.Text.{
  write_metadata, elem_text, stream_samples, write_text_packet_async,
}
use esp_csi_rs_core.Logging.Text.Lines.{metadata_text, metadata-Writes, metadata_length}

-- The samples with a comma and a space between them.
abbrev pub samples_text : List ℤ → List ℕ
samples_text [] = []
samples_text (z ∷ []) = i32_text z
samples_text (z ∷ y ∷ zs) = i32_text z ++ (44 ∷ 32 ∷ samples_text (y ∷ zs))

-- What the loop puts out.
abbrev elems_text : List ℤ → List ℕ
elems_text [] = []
elems_text (z ∷ zs) = elem_text z zs ++ elems_text zs

elems : (zs : List ℤ) → elems_text zs ≡ samples_text zs
elems [] = refl
elems (z ∷ []) = append-nil (i32_text z)
elems (z ∷ y ∷ zs) =
    append_assoc (i32_text z) (44 ∷ 32 ∷ []) (elems_text (y ∷ zs))
    ∙ ap (λ t. i32_text z ++ (44 ∷ 32 ∷ t)) (elems (y ∷ zs))

elem_le : (z : ℤ) (zs : List ℤ) → IsI8 z → length (elem_text z zs) ≤ 6
elem_le z [] h =
    let e = write_i8_sep-Emits z 44 h in
    omega (arith, e.bound, length-append (i32_text z) (44 ∷ []))
elem_le z (y ∷ zs) h =
    let e = write_i8_sep-Emits z 44 h in
    omega (
      arith,
      e.bound,
      length-append (i32_text z) (44 ∷ []),
      length-append (i32_text z) (44 ∷ 32 ∷ []),
    )

last_flush :
    (n : ℕ) (buf : List ℕ) → join_pieces (if n == 0 then [] else take n buf ∷ []) ≡ take n buf ++ []
last_flush zero buf = refl
last_flush (suc n) buf = let e : (suc n == 0) ≡ false = ground arith in rw e refl

record Streamed (zs : List ℤ) (c : Cursor) (r : Cursor × List (List ℕ)) : Type 0 where
  pub runs : stream_samples zs c ≡ some r
  pub text : join_pieces r.1 ≡ take c.at c.buf ++ elems_text zs
  pub size : length (let d : Cursor = r.0 in d.buf) ≡ length c.buf

samples_stream :
    (zs : List ℤ) (c : Cursor)
    → All IsI8 zs
    → 6 ≤ length c.buf
    → (r : Cursor × List (List ℕ)) × Streamed zs c r
unfolding stream_samples
samples_stream [] c h room = (_, record { runs = refl; text = last_flush c.at c.buf; size = refl })
samples_stream (z ∷ zs) c (h, hs) room =
    elim (dec_lt (length c.buf) (c.at + length (elem_text z zs))) [
      | yes l ↦
          let (d, p, w) =
            write_slice-Written (elem_text z zs) (record c { at = 0 })
              (omega (arith, elem_le z zs h, room)) in
          let (r, s) = samples_stream zs d hs (omega (arith, room, w.size)) in
          (
            (r.0, take c.at c.buf ∷ r.1),
            record {
              runs =
                  rw
                    (
                      stream_samples,
                      lt→ltb (length c.buf) (c.at + length (elem_text z zs)) l,
                      p,
                      s.runs,
                    )
                    refl;
              text = ap (λ t. take c.at c.buf ++ t) (s.text ∙ ap (λ t. t ++ elems_text zs) w.text);
              size = s.size ∙ w.size;
            },
          )
      | no l ↦
          let e : ltb (length c.buf) (c.at + length (elem_text z zs)) ≡ false = ground arith in
          let (d, p, w) = write_slice-Written (elem_text z zs) c (omega arith) in
          let (r, s) = samples_stream zs d hs (omega (arith, room, w.size)) in
          (
            r,
            record {
              runs = rw (stream_samples, e, p, s.runs) refl;
              text =
                  s.text
                  ∙ ap (λ t. t ++ elems_text zs) w.text
                  ∙ append_assoc (take c.at c.buf) (elem_text z zs) (elems_text zs);
              size = s.size ∙ w.size;
            },
          )
    ]

-- For every packet of `i8` samples, the chunks that the text formatter hands to the driver are, put
-- together, the text of the packet: the lines of its metadata, its samples with commas between them,
-- and the closing bracket, whatever the scratch of 3328 bytes held and wherever it was flushed.
pub write_text_packet_async-text :
    (p : CsiDataPacket) (scratch : List ℕ)
    → All IsI8 p.csi_data
    → length scratch ≡ 3328
    → (r : List ℕ × List (List ℕ)) × (write_text_packet_async p scratch ≡ some r)
      × (join_pieces r.1 ≡ metadata_text p ++ (samples_text p.csi_data ++ (93 ∷ 13 ∷ 10 ∷ [])))
unfolding write_text_packet_async
write_text_packet_async-text p scratch h room =
    let c : Cursor = record { buf = scratch; at = 0 } in
    let (d, f, w) =
      whole_of_room (write_metadata p) (metadata_text p) c (metadata-Writes p c (omega arith))
        (omega (arith, metadata_length p, room)) in
    let (r, s) = samples_stream p.csi_data (record d { at = 0 }) h (omega (arith, w.size, room)) in
    (
      ((let e : Cursor = r.0 in e.buf), take d.at d.buf ∷ (r.1 ++ ((93 ∷ 13 ∷ 10 ∷ []) ∷ []))),
      rw (write_text_packet_async, f, s.runs) refl,
      ap (λ t. take d.at d.buf ++ t)
            (join_pieces-append r.1 ((93 ∷ 13 ∷ 10 ∷ []) ∷ [])
              ∙ ap (λ t. t ++ (93 ∷ 13 ∷ 10 ∷ [])) s.text)
          ∙ ap (λ t. t ++ (elems_text p.csi_data ++ (93 ∷ 13 ∷ 10 ∷ []))) w.text
          ∙ ap (λ t. metadata_text p ++ (t ++ (93 ∷ 13 ∷ 10 ∷ []))) (elems p.csi_data),
    )
