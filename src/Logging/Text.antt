-- ===== src/Logging/Text.antt =====
-- `write_text_packet_async` of lib/logging/logging.rs on the classic chips: the metadata as text in
-- one write, and the samples through the same scratch, which is flushed where the next one does not
-- fit. What comes out are the chunks handed to the driver in order; an error of the driver ends the
-- function at the chunk that it refuses.
pub mod Lines
pub mod Stream
mod Tests
use esp_csi_rs_core.Common.{
  ℕ, ◌+◌, ◌-◌, ◌/◌, ◌%◌, List, [], ◌∷◌, ◌++◌, Option, none, some, ltb, ◌==◌, if◌then◌else◌, length,
  map, take, replicate, ◌>>=◌,
}
use esp_csi_rs_core.Common.Int.{ℤ, pos}
use esp_csi_rs_core.Common.Mac.{Mac}
use esp_csi_rs_core.Time.{DateTime}
use esp_csi_rs_core.Csi.{CsiDataPacket}
use esp_csi_rs_core.Logging.Encode.{Cursor, write_slice, hex}
use esp_csi_rs_core.Logging.Encode.Digits.{decimal}
use esp_csi_rs_core.Logging.Encode.Writes.{i32_text}
use esp_csi_rs_core.Logging.Encode.Emits.{Writer, ◌⨾◌}
use esp_csi_rs_core.Logging.ArrayList.{write_fmt, write_once, display}

-- The pieces of a 64-bit number under `{:0w}`.
abbrev pub display_padded : ℕ → ℕ → List (List ℕ)
display_padded w n =
    let digits = decimal 19 n in replicate (w - length digits) (48 ∷ []) ++ (digits ∷ [])

-- The pieces of a byte under `{:02X}`.
abbrev pub display_02x_upper : ℕ → List (List ℕ)
display_02x_upper b =
    if ltb b 16 then (48 ∷ []) ∷ (hex b ∷ []) ∷ [] else (hex (b / 16) ∷ hex (b % 16) ∷ []) ∷ []

abbrev pub crlf : List ℕ
crlf = 13 ∷ 10 ∷ []

-- One call of the macro `line` with a label and a number.
abbrev pub field : List ℕ → ℤ → List (List ℕ)
field label z = (label ∷ []) ++ (display z ++ (crlf ∷ []))

abbrev pub date_line : DateTime → List (List ℕ)
date_line d =
    (82 ∷ 101 ∷ 99 ∷ 105 ∷ 101 ∷ 118 ∷ 101 ∷ 100 ∷ 32 ∷ 97 ∷ 116 ∷ 32 ∷ [])
    ∷ (display_padded 4 d.year
        ++ ((45 ∷ [])
            ∷ (display_padded 2 d.month
                ++ ((45 ∷ [])
                    ∷ (display_padded 2 d.day
                        ++ ((32 ∷ [])
                            ∷ (display_padded 2 d.hour
                                ++ ((58 ∷ [])
                                    ∷ (display_padded 2 d.minute
                                        ++ ((58 ∷ [])
                                            ∷ (display_padded 2 d.second
                                                ++ ((46 ∷ [])
                                                    ∷ (display_padded 3 d.millisecond
                                                        ++ (crlf ∷ []))))))))))))))

abbrev pub mac_line : Mac → List (List ℕ)
mac_line m =
    (109 ∷ 97 ∷ 99 ∷ 58 ∷ 32 ∷ [])
    ∷ (display_02x_upper m.m0
        ++ ((58 ∷ [])
            ∷ (display_02x_upper m.m1
                ++ ((58 ∷ [])
                    ∷ (display_02x_upper m.m2
                        ++ ((58 ∷ [])
                            ∷ (display_02x_upper m.m3
                                ++ ((58 ∷ [])
                                    ∷ (display_02x_upper m.m4
                                        ++ ((58 ∷ [])
                                            ∷ (display_02x_upper m.m5 ++ (crlf ∷ []))))))))))))

-- The lines of the metadata in order, each as the pieces of one `write!`.
abbrev pub date_lines : CsiDataPacket → List (List (List ℕ))
date_lines p = elim p.date_time [ some d ↦ date_line d ∷ [] | none ↦ [] ]

abbrev pub rows : CsiDataPacket → List (List ℕ × ℤ)
rows p =
    (
      115 ∷ 101 ∷ 113 ∷ 117 ∷ 101 ∷ 110 ∷ 99 ∷ 101 ∷ 32 ∷ 110 ∷ 117 ∷ 109 ∷ 98 ∷ 101 ∷ 114 ∷ 58 ∷ 32
          ∷ [],
      pos p.sequence_number,
    )
    ∷ (114 ∷ 115 ∷ 115 ∷ 105 ∷ 58 ∷ 32 ∷ [], p.rssi)
    ∷ (114 ∷ 97 ∷ 116 ∷ 101 ∷ 58 ∷ 32 ∷ [], pos p.rate)
    ∷ (110 ∷ 111 ∷ 105 ∷ 115 ∷ 101 ∷ 32 ∷ 102 ∷ 108 ∷ 111 ∷ 111 ∷ 114 ∷ 58 ∷ 32 ∷ [], p.noise_floor)
    ∷ (99 ∷ 104 ∷ 97 ∷ 110 ∷ 110 ∷ 101 ∷ 108 ∷ 58 ∷ 32 ∷ [], pos p.channel)
    ∷ (116 ∷ 105 ∷ 109 ∷ 101 ∷ 115 ∷ 116 ∷ 97 ∷ 109 ∷ 112 ∷ 58 ∷ 32 ∷ [], pos p.timestamp)
    ∷ (115 ∷ 105 ∷ 103 ∷ 32 ∷ 108 ∷ 101 ∷ 110 ∷ 58 ∷ 32 ∷ [], pos p.sig_len)
    ∷ (114 ∷ 120 ∷ 32 ∷ 115 ∷ 116 ∷ 97 ∷ 116 ∷ 101 ∷ 58 ∷ 32 ∷ [], pos p.rx_state)
    ∷ (
      115 ∷ 101 ∷ 99 ∷ 111 ∷ 110 ∷ 100 ∷ 97 ∷ 114 ∷ 121 ∷ 32 ∷ 99 ∷ 104 ∷ 97 ∷ 110 ∷ 110 ∷ 101 ∷ 108
          ∷ 58 ∷ 32 ∷ [],
      pos p.secondary_channel,
    )
    ∷ (115 ∷ 103 ∷ 105 ∷ 58 ∷ 32 ∷ [], pos p.sgi)
    ∷ (97 ∷ 110 ∷ 116 ∷ 58 ∷ 32 ∷ [], pos p.antenna)
    ∷ (97 ∷ 109 ∷ 112 ∷ 100 ∷ 117 ∷ 32 ∷ 99 ∷ 110 ∷ 116 ∷ 58 ∷ 32 ∷ [], pos p.ampdu_cnt)
    ∷ (115 ∷ 105 ∷ 103 ∷ 95 ∷ 109 ∷ 111 ∷ 100 ∷ 101 ∷ 58 ∷ 32 ∷ [], pos p.sig_mode)
    ∷ (109 ∷ 99 ∷ 115 ∷ 58 ∷ 32 ∷ [], pos p.mcs)
    ∷ (99 ∷ 119 ∷ 98 ∷ 58 ∷ 32 ∷ [], pos p.bandwidth)
    ∷ (115 ∷ 109 ∷ 111 ∷ 111 ∷ 116 ∷ 104 ∷ 105 ∷ 110 ∷ 103 ∷ 58 ∷ 32 ∷ [], pos p.smoothing)
    ∷ (
      110 ∷ 111 ∷ 116 ∷ 32 ∷ 115 ∷ 111 ∷ 117 ∷ 110 ∷ 100 ∷ 105 ∷ 110 ∷ 103 ∷ 58 ∷ 32 ∷ [],
      pos p.not_sounding,
    )
    ∷ (
      97 ∷ 103 ∷ 103 ∷ 114 ∷ 101 ∷ 103 ∷ 97 ∷ 116 ∷ 105 ∷ 111 ∷ 110 ∷ 58 ∷ 32 ∷ [],
      pos p.aggregation,
    )
    ∷ (115 ∷ 116 ∷ 98 ∷ 99 ∷ 58 ∷ 32 ∷ [], pos p.stbc)
    ∷ (102 ∷ 101 ∷ 99 ∷ 32 ∷ 99 ∷ 111 ∷ 100 ∷ 105 ∷ 110 ∷ 103 ∷ 58 ∷ 32 ∷ [], pos p.fec_coding)
    ∷ (115 ∷ 105 ∷ 103 ∷ 95 ∷ 108 ∷ 101 ∷ 110 ∷ 58 ∷ 32 ∷ [], pos p.sig_len)
    ∷ (
      100 ∷ 97 ∷ 116 ∷ 97 ∷ 32 ∷ 108 ∷ 101 ∷ 110 ∷ 103 ∷ 116 ∷ 104 ∷ 58 ∷ 32 ∷ [],
      pos p.csi_data_len,
    )
    ∷ []

abbrev pub field_lines : List (List ℕ × ℤ) → List (List (List ℕ))
field_lines rs = map (λ r. field r.0 r.1) rs

abbrev pub raw_label : List ℕ
raw_label = 99 ∷ 115 ∷ 105 ∷ 32 ∷ 114 ∷ 97 ∷ 119 ∷ 32 ∷ 100 ∷ 97 ∷ 116 ∷ 97 ∷ 58 ∷ 32 ∷ 91 ∷ []

unfoldable pub write_lines : List (List (List ℕ)) → Writer
unfolding write_fmt ◌⨾◌
write_lines [] c = some c
write_lines (l ∷ ls) c = (write_fmt l ⨾ write_lines ls) c

unfoldable pub write_metadata : CsiDataPacket → Writer
unfolding write_lines write_once ◌⨾◌
write_metadata p =
    write_lines (date_lines p)
    ⨾ write_lines (mac_line p.mac ∷ field_lines (rows p))
    ⨾ write_once raw_label

-- `elem`: the last sample has no separator.
abbrev pub elem_text : ℤ → List ℤ → List ℕ
elem_text z [] = i32_text z
elem_text z (y ∷ zs) = i32_text z ++ (44 ∷ 32 ∷ [])

-- The loop over the samples, with the scratch and `offset` as a cursor, and the last flush.
unfoldable pub stream_samples : List ℤ → Cursor → Option (Cursor × List (List ℕ))
unfolding write_slice
stream_samples [] c = some (c, if c.at == 0 then [] else take c.at c.buf ∷ [])
stream_samples (z ∷ zs) c =
    let flushed = write_slice (elem_text z zs) (record c { at = 0 }) >>= stream_samples zs in
    let kept = write_slice (elem_text z zs) c >>= stream_samples zs in
    if ltb (length c.buf) (c.at + length (elem_text z zs))
    then (flushed >>= λ r. some (r.0, take c.at c.buf ∷ r.1))
    else kept

-- The scratch afterwards, and the chunks.
unfoldable pub write_text_packet_async : CsiDataPacket → List ℕ → Option (List ℕ × List (List ℕ))
unfolding write_metadata stream_samples
write_text_packet_async p scratch = write_metadata p (record { buf = scratch; at = 0 }) >>= λ c.
    stream_samples p.csi_data (record c { at = 0 }) >>= λ r.
    some ((let d : Cursor = r.0 in d.buf), take c.at c.buf ∷ (r.1 ++ ((93 ∷ 13 ∷ 10 ∷ []) ∷ [])))
