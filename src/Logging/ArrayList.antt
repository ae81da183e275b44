-- ===== src/Logging/ArrayList.antt =====
-- `format_array_list_into` of lib/logging/logging.rs on the classic chips, and the synchronous
-- write of its line. A macro `write!` hands the pieces of the text one by one to `write_str`, as
-- `core::fmt` does: a sign and a zero of padding are pieces of their own.
pub mod Pieces
pub mod Line
pub mod Scratch
mod Tests
use esp_csi_rs_core.Common.{
  ℕ, ◌+◌, ◌-◌, ◌*◌, ◌/◌, ◌%◌, Bool, true, false, List, [], ◌∷◌, ◌++◌, Option, none, some, ltb, ◌==◌,
  if◌then◌else◌, length, take, ◌>>=◌,
}
use esp_csi_rs_core.Common.Int.{ℤ, pos, negsuc}
use esp_csi_rs_core.Common.Mac.{Mac}
use esp_csi_rs_core.Csi.{CsiDataPacket}
use esp_csi_rs_core.Logging.{Logger, record_log_drop}
use esp_csi_rs_core.Logging.Encode.{Cursor, write_slice, write_i8_sep}
use esp_csi_rs_core.Logging.Encode.Writes.{u32_text}
use esp_csi_rs_core.Logging.Encode.Emits.{Writer, ◌⨾◌}

-- `SliceWriter::write_str`: the Boolean is false for `fmt::Error`.
unfoldable pub write_str : List ℕ → Cursor → Option (Cursor × Bool)
unfolding write_slice
write_str s c =
    if ltb (length c.buf) (c.at + length s)
    then some (c, false)
    else (write_slice s c >>= λ d. some (d, true))

-- `let _ = w.write_str(..)`
unfoldable pub write_once : List ℕ → Writer
unfolding write_str
write_once s c = write_str s c >>= λ r. some r.0

abbrev go_on : Writer → Cursor × Bool → Option Cursor
go_on rest (d, true) = rest d
go_on rest (d, false) = some d

-- `let _ = write!(..)`: the first piece that fails ends it, and the error is dropped.
unfoldable pub write_fmt : List (List ℕ) → Writer
unfolding write_str
write_fmt [] c = some c
write_fmt (s ∷ ss) c = write_str s c >>= go_on (write_fmt ss)

-- The pieces that `Display` gives of an integer.
abbrev pub display : ℤ → List (List ℕ)
display (pos n) = u32_text n ∷ []
display (negsuc n) = (45 ∷ []) ∷ u32_text (n + 1) ∷ []

-- The macro `field`.
unfoldable pub write_field : ℤ → Writer
unfolding write_fmt
write_field z = write_fmt (display z ++ ((44 ∷ []) ∷ []))

unfoldable pub write_fields : List ℤ → Writer
unfolding ◌⨾◌ write_field
write_fields [] c = some c
write_fields (z ∷ zs) c = (write_field z ⨾ write_fields zs) c

-- The fields behind the sequence number.
abbrev pub fields : CsiDataPacket → List ℤ
fields p =
    p.rssi
    ∷ pos p.rate
    ∷ p.noise_floor
    ∷ pos p.channel
    ∷ pos p.timestamp
    ∷ pos p.sig_len
    ∷ pos p.rx_state
    ∷ pos p.secondary_channel
    ∷ pos p.sgi
    ∷ pos p.antenna
    ∷ pos p.ampdu_cnt
    ∷ pos p.sig_mode
    ∷ pos p.mcs
    ∷ pos p.bandwidth
    ∷ pos p.smoothing
    ∷ pos p.not_sounding
    ∷ pos p.aggregation
    ∷ pos p.stbc
    ∷ pos p.fec_coding
    ∷ pos p.sig_len
    ∷ pos p.csi_data_len
    ∷ []

unfoldable pub write_header : CsiDataPacket → Writer
unfolding write_fmt write_fields write_once ◌⨾◌
write_header p =
    write_fmt ((91 ∷ []) ∷ u32_text p.sequence_number ∷ (44 ∷ []) ∷ [])
    ⨾ write_fields (fields p)
    ⨾ write_once (91 ∷ [])

abbrev pub tail_reserve : ℕ
tail_reserve = 2 + 17 + 3

-- `w.pos -= 1`
abbrev pub back : Writer
back c = some (record c { at = c.at - 1 })

-- The loop over the samples; behind the last one the cursor goes back over the separator.
unfoldable pub write_samples : List ℤ → Writer
unfolding write_i8_sep
write_samples [] c = some c
write_samples (z ∷ []) c = write_i8_sep z 44 c >>= back
write_samples (z ∷ y ∷ zs) c = write_i8_sep z 44 c >>= write_samples (y ∷ zs)

unfoldable pub hex_lower : ℕ → ℕ
hex_lower d = if ltb d 10 then 48 + d else 87 + d

-- The pieces of a byte under `{:02x}`.
unfoldable pub display_02x : ℕ → List (List ℕ)
unfolding hex_lower
display_02x b =
    if ltb b 16
    then (48 ∷ []) ∷ (hex_lower b ∷ []) ∷ []
    else (hex_lower (b / 16) ∷ hex_lower (b % 16) ∷ []) ∷ []

-- One turn of the loop over the address, with its separator.
unfoldable pub write_mac_byte : List ℕ → ℕ → Writer
unfolding write_fmt display_02x
write_mac_byte sep b = write_fmt (sep ∷ display_02x b)

unfoldable pub write_tail : Mac → Writer
unfolding write_once write_mac_byte ◌⨾◌
write_tail m =
    write_once (93 ∷ 44 ∷ [])
    ⨾ write_mac_byte [] m.m0
    ⨾ write_mac_byte (58 ∷ []) m.m1
    ⨾ write_mac_byte (58 ∷ []) m.m2
    ⨾ write_mac_byte (58 ∷ []) m.m3
    ⨾ write_mac_byte (58 ∷ []) m.m4
    ⨾ write_mac_byte (58 ∷ []) m.m5
    ⨾ write_once (93 ∷ 13 ∷ 10 ∷ [])

-- The reservation, and the writes behind it.
unfoldable pub write_rest : CsiDataPacket → Writer
unfolding write_samples write_tail ◌⨾◌
write_rest p c =
    if ltb (length c.buf) (c.at + length p.csi_data * 5 + tail_reserve)
    then some (record c { at = 0 })
    else (write_samples p.csi_data ⨾ write_tail p.mac) c

-- The buffer and the number of bytes reported, as a cursor.
unfoldable pub format_array_list_into : CsiDataPacket → List ℕ → Option Cursor
unfolding write_header write_rest ◌⨾◌
format_array_list_into p buf = (write_header p ⨾ write_rest p) (record { buf = buf; at = 0 })

-- The logger, the scratch and the bytes that go out.
unfoldable pub write_text_array_packet_sync :
    {L : Type 0} → CsiDataPacket → List ℕ → Logger L → Option (Logger L × List ℕ × List (List ℕ))
unfolding format_array_list_into record_log_drop
write_text_array_packet_sync p scratch l = format_array_list_into p scratch >>= λ e.
    some (if e.at == 0 then (record_log_drop l, e.buf, []) else (l, e.buf, take e.at e.buf ∷ []))
