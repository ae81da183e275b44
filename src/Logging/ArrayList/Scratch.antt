-- ===== src/Logging/ArrayList/Scratch.antt =====
-- The array-list line in the static scratch of 3328 bytes.
use esp_csi_rs_core.Common.{
  ℕ, ◌*◌, ◌≤◌, ◌<◌, ◌≡◌, refl, ◌∙◌, inl, inr, false, List, [], ◌∷◌, ◌++◌, map, some, arith, ◌==◌,
  length, length-append, take, All,
}
use esp_csi_rs_core.Common.Int.{ℤ, pos, IsI32}
use esp_csi_rs_core.Csi.{CsiDataPacket}
use esp_csi_rs_core.Csi.Packet.{IsPacket, IsU32}
use esp_csi_rs_core.Logging.Encode.{Cursor}
use esp_csi_rs_core.Logging.{Logger}
use esp_csi_rs_core.Logging.Encode.Digits.{length-decimal_below}
use esp_csi_rs_core.Logging.Encode.Writes.{u32_text, i32_text}
use esp_csi_rs_core.Logging.Encode.Emits.{write_u32-Emits, write_i32-Emits}
use esp_csi_rs_core.Logging.ArrayList.{fields, format_array_list_into, write_text_array_packet_sync}
use esp_csi_rs_core.Logging.ArrayList.Pieces.{field_text, fields_text}
use esp_csi_rs_core.Logging.ArrayList.Line.{
  header_text, array_line, need, format_array_list_into_lem,
}

u32_field : (n : ℕ) → IsU32 n → length (field_text (pos n)) ≤ 11
u32_field n h =
    let e = write_u32-Emits n h in omega (arith, length-append (u32_text n) (44 ∷ []), e.bound)

u16_field : (n : ℕ) → n < 65536 → length (field_text (pos n)) ≤ 6
u16_field n h =
    omega (arith, length-append (u32_text n) (44 ∷ []), length-decimal_below 9 4 n (omega arith))

i32_field : (z : ℤ) → IsI32 z → length (field_text z) ≤ 12
i32_field z h =
    let e = write_i32-Emits z h in omega (arith, length-append (i32_text z) (44 ∷ []), e.bound)

u32_fields : (ns : List ℕ) → All IsU32 ns → length (fields_text (map pos ns)) ≤ length ns * 11
u32_fields [] h = omega arith
u32_fields (n ∷ ns) (h, hs) = omega (
  arith,
  length-append (field_text (pos n)) (fields_text (map pos ns)),
  u32_field n h,
  u32_fields ns hs,
)

-- The fields behind the noise floor but for the last, which is of 16 bits.
abbrev columns : CsiDataPacket → List ℕ
columns p =
    p.channel ∷ p.timestamp ∷ p.sig_len ∷ p.rx_state ∷ p.secondary_channel ∷ p.sgi ∷ p.antenna
    ∷ p.ampdu_cnt ∷ p.sig_mode ∷ p.mcs ∷ p.bandwidth ∷ p.smoothing ∷ p.not_sounding ∷ p.aggregation
    ∷ p.stbc ∷ p.fec_coding ∷ p.sig_len ∷ p.csi_data_len ∷ []

columns-IsU32 : (p : CsiDataPacket) → IsPacket p → All IsU32 (columns p)
columns-IsU32 p v =
    let len : IsU32 p.csi_data_len = omega (arith, v.csi_data_len) in
    (
      v.channel,
      (
        v.timestamp,
        (
          v.sig_len,
          (
            v.rx_state,
            (
              v.secondary_channel,
              (
                v.sgi,
                (
                  v.antenna,
                  (
                    v.ampdu_cnt,
                    (
                      v.sig_mode,
                      (
                        v.mcs,
                        (
                          v.bandwidth,
                          (
                            v.smoothing,
                            (
                              v.not_sounding,
                              (v.aggregation, (v.stbc, (v.fec_coding, (v.sig_len, (len, tt))))),
                            ),
                          ),
                        ),
                      ),
                    ),
                  ),
                ),
              ),
            ),
          ),
        ),
      ),
    )

length-fields : (p : CsiDataPacket) → IsPacket p → length (fields_text (fields p)) ≤ 233
length-fields p v =
    let rest = fields_text (map pos (columns p)) in
    omega (
      arith,
      length-append (field_text p.rssi)
          (field_text (pos p.rate) ++ (field_text p.noise_floor ++ rest)),
      length-append (field_text (pos p.rate)) (field_text p.noise_floor ++ rest),
      length-append (field_text p.noise_floor) rest,
      i32_field p.rssi v.rssi,
      u32_field p.rate v.rate,
      i32_field p.noise_floor v.noise_floor,
      u32_fields (columns p) (columns-IsU32 p v),
    )

header_length : (p : CsiDataPacket) → IsPacket p → length (header_text p) ≤ 241
header_length p v = omega (
  arith,
  length-append (field_text (pos p.sequence_number)) (fields_text (fields p) ++ (91 ∷ [])),
  length-append (fields_text (fields p)) (91 ∷ []),
  u16_field p.sequence_number v.sequence_number,
  length-fields p v,
)

pub need_le : (p : CsiDataPacket) → IsPacket p → need p ≤ 3328
need_le p v = omega (arith, header_length p v, v.fits)

line_positive : (p : CsiDataPacket) → 0 < length (array_line p)
line_positive p = omega arith

not_zero : (n m : ℕ) → n ≡ m → 0 < m → (n == 0) ≡ false
not_zero n m e h = ground arith

-- For a well-formed packet the formatter reports the whole line, which is not empty.
pub format_array_list_into_whole :
    (p : CsiDataPacket) (scratch : List ℕ)
    → IsPacket p
    → length scratch ≡ 3328
    → (e : Cursor) × (format_array_list_into p scratch ≡ some e)
      × ((e.at == 0) ≡ false)
      × (take e.at e.buf ≡ array_line p)
      × (length e.buf ≡ 3328)
format_array_list_into_whole p scratch v room =
    let (e, f, s, r) = format_array_list_into_lem p scratch v.samples in
    elim r [
      | inl (small, _) ↦ absurd (omega (arith, small, need_le p v, room))
      | inr (_, n, t) ↦
          (e, f, not_zero e.at (length (array_line p)) n (line_positive p), t, s ∙ room)
    ]

-- A scratch of 3328 bytes is never too small: for every well-formed packet the synchronous write
-- sends out the whole array-list line, in one piece, and counts no drop.
pub write_text_array_packet_sync-array_line :
    {L : Type 0} (p : CsiDataPacket) (scratch : List ℕ) (l : Logger L)
    → IsPacket p
    → length scratch ≡ 3328
    → (after : List ℕ) × (write_text_array_packet_sync p scratch l
        ≡ some (l, after, array_line p ∷ []))
      × (length after ≡ 3328)
unfolding write_text_array_packet_sync
write_text_array_packet_sync-array_line p scratch l v room =
    let (e, f, some_bytes, t, s) = format_array_list_into_whole p scratch v room in
    (e.buf, rw (write_text_array_packet_sync, f, some_bytes, t) refl, s)
