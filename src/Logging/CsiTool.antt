-- ===== src/Logging/CsiTool.antt =====
-- `format_csi_tool_into` of lib/logging/logging.rs on the classic chips. A comma is written behind
-- most values: `write_u32(..); buf[p] = b','; p += 1`.
pub mod Line
pub mod Sync
mod Tests
use esp_csi_rs_core.Common.{
  ℕ, ◌+◌, ◌-◌, ◌/◌, ◌%◌, min, Bool, List, [], ◌∷◌, Option, none, some, ltb, ◌==◌, if◌then◌else◌,
  length, take, ◌>>=◌,
}
use esp_csi_rs_core.Common.Int.{ℤ}
use esp_csi_rs_core.Common.Mac.{Mac}
use esp_csi_rs_core.Csi.{CsiDataPacket}
use esp_csi_rs_core.Logging.{Role, sta, ap, passive}
use esp_csi_rs_core.Logging.Encode.{
  Cursor, put, write_slice, write_u32, write_i32, write_u32_pad6, write_hex_u8, write_i8_sep,
}
use esp_csi_rs_core.Logging.Encode.Emits.{Writer, ◌⨾◌}

-- `Role::as_str`
unfoldable pub as_str : Role → List ℕ
as_str sta = 83 ∷ 84 ∷ 65 ∷ []
as_str ap = 65 ∷ 80 ∷ []
as_str passive = 80 ∷ 65 ∷ 83 ∷ 83 ∷ 73 ∷ 86 ∷ 69 ∷ []

-- "CSI_DATA,"
abbrev pub csi_data_tag : List ℕ
csi_data_tag = 67 ∷ 83 ∷ 73 ∷ 95 ∷ 68 ∷ 65 ∷ 84 ∷ 65 ∷ 44 ∷ []

unfoldable pub write_mac : Mac → Writer
unfolding ◌⨾◌ put write_hex_u8
write_mac m =
    write_hex_u8 m.m0
    ⨾ put 58
    ⨾ write_hex_u8 m.m1
    ⨾ put 58
    ⨾ write_hex_u8 m.m2
    ⨾ put 58
    ⨾ write_hex_u8 m.m3
    ⨾ put 58
    ⨾ write_hex_u8 m.m4
    ⨾ put 58
    ⨾ write_hex_u8 m.m5

-- Unsigned values in order, each with its comma.
unfoldable pub write_values : List ℕ → Writer
unfolding ◌⨾◌ put write_u32
write_values [] c = some c
write_values (n ∷ ns) c = (write_u32 n ⨾ put 44 ⨾ write_values ns) c

-- `emit_len`
unfoldable pub emit_len : ℕ → CsiDataPacket → ℕ
emit_len limit p = if limit == 0 then length p.csi_data else min (length p.csi_data) limit

abbrev pub real_time_set : CsiDataPacket → ℕ
real_time_set p = elim p.date_time [ some _ ↦ 1 | none ↦ 0 ]

-- The unsigned columns before and behind the noise floor.
abbrev pub columns_5_to_14 : CsiDataPacket → List ℕ
columns_5_to_14 p =
    p.rate ∷ p.sig_mode ∷ p.mcs ∷ p.bandwidth ∷ p.smoothing ∷ p.not_sounding ∷ p.aggregation
    ∷ p.stbc ∷ p.fec_coding ∷ p.sgi ∷ []

abbrev pub columns_16_to_22 : CsiDataPacket → List ℕ
columns_16_to_22 p =
    p.ampdu_cnt ∷ p.channel ∷ p.secondary_channel ∷ p.timestamp ∷ p.antenna ∷ p.sig_len ∷ p.rx_state
    ∷ []

-- All columns up to the opening bracket of the last one.
unfoldable pub write_head : Role → ℕ → CsiDataPacket → Writer
unfolding as_str write_mac write_values emit_len ◌⨾◌ put write_slice write_u32 write_i32
    write_u32_pad6
write_head role limit p =
    write_slice csi_data_tag
    ⨾ write_slice (as_str role)
    ⨾ put 44
    ⨾ write_mac p.mac
    ⨾ put 44
    ⨾ write_i32 p.rssi
    ⨾ put 44
    ⨾ write_values (columns_5_to_14 p)
    ⨾ write_i32 p.noise_floor
    ⨾ put 44
    ⨾ write_values (columns_16_to_22 p)
    ⨾ write_u32 (real_time_set p)
    ⨾ put 44
    ⨾ write_u32 (p.timestamp / 1000000)
    ⨾ put 46
    ⨾ write_u32_pad6 (p.timestamp % 1000000)
    ⨾ put 44
    ⨾ write_u32 (emit_len limit p)
    ⨾ put 44
    ⨾ put 91

-- The loop of the body: it stops where less than five bytes are left below `body_cap`.
unfoldable pub write_body : ℕ → List ℤ → Writer
unfolding write_i8_sep
write_body body_cap [] c = some c
write_body body_cap (z ∷ zs) c =
    let rest = write_i8_sep z 32 c >>= write_body body_cap zs in
    if ltb body_cap (c.at + 5) then some c else rest

-- The buffer and the number of bytes written, as the cursor behind them.
unfoldable pub format_csi_tool_into : Role → ℕ → CsiDataPacket → List ℕ → Option Cursor
unfolding write_head write_body emit_len ◌⨾◌ put
format_csi_tool_into role limit p buf =
    (write_head role limit p
        ⨾ write_body (length buf - 2) (take (emit_len limit p) p.csi_data)
        ⨾ put 93
        ⨾ put 10)
      (record { buf = buf; at = 0 })
