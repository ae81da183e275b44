-- ===== src/Logging/ArrayList/Line.antt =====
-- The array-list line that a packet gives, and that the formatter writes it whole or not at all.
use esp_csi_rs_core.Common.{
  ℕ, ◌+◌, ◌-◌, ◌*◌, ◌/◌, ◌%◌, ◌≤◌, ◌<◌, ◌≡◌, refl, sym, ap, ◌∙◌, ◌⊎◌, inl, inr, true, false, List,
  [], ◌∷◌, ◌++◌, some, arith, ltb, length, take, length-append, length-take, append_assoc,
  take-take, take_prefix, subst, dec_lt, ◌>>=◌, lt→ltb, All, if_cases,
}
use esp_csi_rs_core.Common.Int.{ℤ, pos, IsI8}
use esp_csi_rs_core.Common.Mac.{Mac}
use esp_csi_rs_core.Csi.{CsiDataPacket}
use esp_csi_rs_core.Logging.Encode.{Cursor, write_i8_sep}
use esp_csi_rs_core.Logging.Encode.Writes.{Written, write_slice-Written, i32_text, u32_text}
use esp_csi_rs_core.Logging.Encode.Emits.{◌⨾◌, write_i8_sep-Emits}
use esp_csi_rs_core.Logging.ArrayList.{
  back, fields, write_header, write_samples, hex_lower, display_02x, write_mac_byte, write_tail,
  write_rest, format_array_list_into, tail_reserve,
}
use esp_csi_rs_core.Logging.ArrayList.Pieces.{
  Wrote, whole, short, Writes, IsPiece, digits_few, whole_of_room, ◌⨠◌, Written-nil, Written-append,
  join_pieces, write_once-Writes, write_fmt-Writes, write_fields-Writes, field_text, fields_text,
}

abbrev pub header_text : CsiDataPacket → List ℕ
header_text p = (91 ∷ field_text (pos p.sequence_number)) ++ (fields_text (fields p) ++ (91 ∷ []))

-- The samples with commas between them.
abbrev pub samples_text : List ℤ → List ℕ
samples_text [] = []
samples_text (z ∷ []) = i32_text z
samples_text (z ∷ y ∷ zs) = field_text z ++ samples_text (y ∷ zs)

abbrev pub hex2_text : ℕ → List ℕ
hex2_text b = hex_lower (b / 16) ∷ hex_lower (b % 16) ∷ []

abbrev pub tail_text : Mac → List ℕ
tail_text m =
    (93 ∷ 44 ∷ [])
    ++ (hex2_text m.m0
        ++ ((58 ∷ hex2_text m.m1)
            ++ ((58 ∷ hex2_text m.m2)
                ++ ((58 ∷ hex2_text m.m3)
                    ++ ((58 ∷ hex2_text m.m4) ++ ((58 ∷ hex2_text m.m5) ++ (93 ∷ 13 ∷ 10 ∷ [])))))))

abbrev pub array_line : CsiDataPacket → List ℕ
array_line p = header_text p ++ (samples_text p.csi_data ++ tail_text p.mac)

-- The room that the formatter insists on.
abbrev pub need : CsiDataPacket → ℕ
need p = length (header_text p) + length p.csi_data * 5 + 22

header-Writes : (p : CsiDataPacket) → Writes (write_header p) (header_text p)
unfolding write_header
header-Writes p =
    write_fmt-Writes ((91 ∷ []) ∷ u32_text p.sequence_number ∷ (44 ∷ []) ∷ [])
      (omega arith, (digits_few p.sequence_number, (omega arith, tt)))
    ⨠ write_fields-Writes (fields p)
    ⨠ write_once-Writes (91 ∷ []) (omega arith)

join_pieces-display_02x : (b : ℕ) → join_pieces (display_02x b) ≡ hex2_text b
unfolding display_02x hex_lower
join_pieces-display_02x b = elim (dec_lt b 16) [
  | yes l ↦
      let e : b / 16 ≡ 0 = omega arith in
      let f : b % 16 ≡ b = omega arith in rw (display_02x, lt→ltb b 16 l, e, f) refl
  | no l ↦ let e : ltb b 16 ≡ false = ground arith in rw (display_02x, e) refl
]

display_few : (b : ℕ) → All IsPiece (display_02x b)
unfolding display_02x
display_few b =
    if_cases (All IsPiece) (ltb b 16) _ _ (omega arith, (omega arith, tt)) (omega arith, tt)

write_mac_byte-Writes :
    (sep : List ℕ) (b : ℕ) → IsPiece sep → Writes (write_mac_byte sep b) (sep ++ hex2_text b)
unfolding write_mac_byte
write_mac_byte-Writes sep b few =
    subst (λ l. Writes (write_mac_byte sep b) (sep ++ l)) (join_pieces-display_02x b)
      (write_fmt-Writes (sep ∷ display_02x b) (few, display_few b))

tail-Writes : (m : Mac) → Writes (write_tail m) (tail_text m)
unfolding write_tail
tail-Writes m =
    write_once-Writes (93 ∷ 44 ∷ []) (omega arith)
    ⨠ write_mac_byte-Writes [] m.m0 (omega arith)
    ⨠ write_mac_byte-Writes (58 ∷ []) m.m1 (omega arith)
    ⨠ write_mac_byte-Writes (58 ∷ []) m.m2 (omega arith)
    ⨠ write_mac_byte-Writes (58 ∷ []) m.m3 (omega arith)
    ⨠ write_mac_byte-Writes (58 ∷ []) m.m4 (omega arith)
    ⨠ write_mac_byte-Writes (58 ∷ []) m.m5 (omega arith)
    ⨠ write_once-Writes (93 ∷ 13 ∷ 10 ∷ []) (omega arith)

-- Going back over the last byte takes it off the text.
rewind :
    (xs : List ℕ) (b : ℕ) (c d : Cursor)
    → c.at ≤ length c.buf
    → Written (xs ++ (b ∷ [])) c d
    → Written xs c (record d { at = d.at - 1 })
rewind xs b c d h w =
    let before = take c.at c.buf ++ xs in
    let n : d.at - 1 ≡ c.at + length xs = omega (arith, w.at, length-append xs (b ∷ [])) in
    let k : d.at - 1 ≡ length before =
      omega (arith, n, length-append (take c.at c.buf) xs, length-take c.at c.buf, h) in
    record {
      at = n;
      size = w.size;
      text =
          sym (take-take (d.at - 1) d.at d.buf (omega arith))
          ∙ ap (take (d.at - 1)) (w.text ∙ sym (append_assoc (take c.at c.buf) xs (b ∷ [])))
          ∙ ap (λ i. take i (before ++ (b ∷ []))) k
          ∙ take_prefix before (b ∷ []);
    }

sample_writes :
    (z : ℤ) (c : Cursor)
    → IsI8 z
    → c.at + 5 ≤ length c.buf
    → (d : Cursor) × (write_i8_sep z 44 c ≡ some d) × Written (field_text z) c d × (d.at ≤ c.at + 5)
sample_writes z c h room =
    let e = write_i8_sep-Emits z 44 h in
    let (d, p, w) = write_slice-Written (field_text z) c (omega (arith, e.bound, room)) in
    (d, e.writes c ∙ p, w, omega (arith, w.at, e.bound))

samples_write :
    (zs : List ℤ) (c : Cursor)
    → All IsI8 zs
    → c.at + length zs * 5 ≤ length c.buf
    → (e : Cursor) × (write_samples zs c ≡ some e)
      × Written (samples_text zs) c e
      × (e.at ≤ c.at + length zs * 5)
unfolding write_samples
samples_write [] c h room = (c, refl, Written-nil c, omega arith)
samples_write (z ∷ []) c (h, hs) room =
    let (d, p, w, l) = sample_writes z c h (omega (arith, room)) in
    (
      record d { at = d.at - 1 },
      ap (λ o. o >>= back) p,
      rewind (i32_text z) 44 c d (omega (arith, room)) w,
      omega (arith, l),
    )
samples_write (z ∷ y ∷ zs) c (h, hs) room =
    let (d, p, w, l) = sample_writes z c h (omega (arith, room)) in
    let (e, q, v, k) = samples_write (y ∷ zs) d hs (omega (arith, room, l, w.size)) in
    (
      e,
      ap (λ o. o >>= write_samples (y ∷ zs)) p ∙ q,
      Written-append (field_text z) (samples_text (y ∷ zs)) c d e w v,
      omega (arith, l, k),
    )

-- Behind the header the line is refused, or there is room for the rest of it.
rest_writes :
    (p : CsiDataPacket) (c : Cursor)
    → All IsI8 p.csi_data
    → c.at + length p.csi_data * 5 + 22 ≤ length c.buf
    → (e : Cursor) × (write_rest p c ≡ some e)
      × Written (samples_text p.csi_data ++ tail_text p.mac) c e
unfolding write_rest ◌⨾◌
rest_writes p c h room =
    let e : ltb (length c.buf) (c.at + length p.csi_data * 5 + tail_reserve) ≡ false =
      ground arith in
    let (d, q, w, l) = samples_write p.csi_data c h (omega (arith, room)) in
    let (r, f, v) =
      whole_of_room (write_tail p.mac) (tail_text p.mac) d
        (tail-Writes p.mac d (omega (arith, l, room, w.size))) (omega (arith, l, room, w.size)) in
    (
      r,
      rw (write_rest, e) (ap (λ o. o >>= write_tail p.mac) q ∙ f),
      Written-append (samples_text p.csi_data) (tail_text p.mac) c d r w v,
    )

rest_refuses :
    (p : CsiDataPacket) (c : Cursor)
    → length c.buf < c.at + length p.csi_data * 5 + 22
    → write_rest p c ≡ some (record c { at = 0 })
unfolding write_rest
rest_refuses p c h =
    let e : ltb (length c.buf) (c.at + length p.csi_data * 5 + tail_reserve) ≡ true =
      ground arith in
    rw (write_rest, e) refl

abbrev start : List ℕ → Cursor
start buf = record { buf = buf; at = 0 }

abbrev pub Refused : CsiDataPacket → List ℕ → Cursor → Type 0
Refused p buf e = (length buf < need p) × (e.at ≡ 0)

abbrev pub Complete : CsiDataPacket → List ℕ → Cursor → Type 0
Complete p buf e =
    (need p ≤ length buf) × (e.at ≡ length (array_line p)) × (take e.at e.buf ≡ array_line p)

behind_header :
    (p : CsiDataPacket) (buf : List ℕ)
    → All IsI8 p.csi_data
    → Wrote (write_header p) (header_text p) (start buf)
    → (e : Cursor) × (format_array_list_into p buf ≡ some e)
      × (length e.buf ≡ length buf)
      × (Refused p buf e ⊎ Complete p buf e)
unfolding format_array_list_into ◌⨾◌
behind_header p buf h (short d q s l tight up end) = (
  record d { at = 0 },
  ap (λ o. o >>= write_rest p) q ∙ rest_refuses p d (omega (arith, s, end)),
  s,
  inl (omega (arith, tight), refl),
)
behind_header p buf h (whole d q w l) = elim (dec_lt (length buf) (need p)) [
  | yes n ↦ (
    record d { at = 0 },
    ap (λ o. o >>= write_rest p) q ∙ rest_refuses p d (omega (arith, n, w.at, w.size)),
    w.size,
    inl (n, refl),
  )
  | no n ↦
      let (e, f, v) = rest_writes p d h (omega (arith, n, w.at, w.size)) in
      let t =
        Written-append (header_text p) (samples_text p.csi_data ++ tail_text p.mac) (start buf) d e
          w v in
      (
        e,
        ap (λ o. o >>= write_rest p) q ∙ f,
        t.size,
        inr (omega (arith, n), omega (arith, t.at), t.text),
      )
]

-- With any buffer at all the formatter ends without a write out of bounds, and reports a whole line
-- or no byte: none where the header, five bytes a sample and 22 bytes exceed the buffer, and
-- otherwise the whole line, though each write on its own may fail in silence.
pub format_array_list_into_lem :
    (p : CsiDataPacket) (buf : List ℕ)
    → All IsI8 p.csi_data
    → (e : Cursor) × (format_array_list_into p buf ≡ some e)
      × (length e.buf ≡ length buf)
      × (Refused p buf e ⊎ Complete p buf e)
format_array_list_into_lem p buf h =
    behind_header p buf h (header-Writes p (start buf) (omega arith))
