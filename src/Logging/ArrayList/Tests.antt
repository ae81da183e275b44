-- ===== src/Logging/ArrayList/Tests.antt =====
-- The array list at a sample packet, in the scratch and in a buffer that is too small.
use esp_csi_rs_core.Common.{
  ℕ, ◌≡◌, refl, ◌⊎◌, List, [], ◌∷◌, some, length, replicate, length-replicate, take, ◌>>=◌, false,
}
use esp_csi_rs_core.Common.Int.{pos, negsuc}
use esp_csi_rs_core.Csi.Samples.{sample_packet, sample_packet-IsPacket}
use esp_csi_rs_core.Logging.{Logger}
use esp_csi_rs_core.Logging.Encode.{Cursor, put, write_slice, write_i8_digits, write_i8_sep}
use esp_csi_rs_core.Logging.ArrayList.{
  format_array_list_into, write_text_array_packet_sync, write_samples, write_mac_byte, write_fmt,
  write_str, display_02x, hex_lower,
}
use esp_csi_rs_core.Logging.ArrayList.Line.{
  Refused, Complete, array_line, format_array_list_into_lem,
}
use esp_csi_rs_core.Logging.ArrayList.Scratch.{write_text_array_packet_sync-array_line}

abbrev scratch : List ℕ
scratch = replicate 3328 0

abbrev small : List ℕ
small = replicate 64 0

abbrev logger : Logger Unit
logger = record {
  log_mode = 2;
  role = 0;
  esp_csi_tool_header_printed = false;
  async_log_active = false;
  csi_tool_emit_cap = 0;
  csi_channel = tt;
  log_dropped_packets = 0;
}

format_array_list_into_lem_example :
    (e : Cursor) × (format_array_list_into sample_packet small ≡ some e)
    × (length e.buf ≡ length small)
    × (Refused sample_packet small e ⊎ Complete sample_packet small e)
format_array_list_into_lem_example =
    format_array_list_into_lem sample_packet small sample_packet-IsPacket.samples

write_text_array_packet_sync-array_line_example :
    (after : List ℕ) × (write_text_array_packet_sync sample_packet scratch logger
      ≡ some (logger, after, array_line sample_packet ∷ []))
    × (length after ≡ 3328)
write_text_array_packet_sync-array_line_example =
    write_text_array_packet_sync-array_line sample_packet scratch logger sample_packet-IsPacket
      (length-replicate {A = ℕ} 3328 0)

-- "-1,27" and ":0a", in room for just that or more.
samples_text_run :
    (write_samples (negsuc 0 ∷ pos 27 ∷ []) (record { buf = replicate 8 0; at = 0 }) >>= λ e.
    some (take e.at e.buf))
    ≡ some (45 ∷ 49 ∷ 44 ∷ 50 ∷ 55 ∷ [])
unfolding write_samples write_i8_sep write_i8_digits put
samples_text_run = refl

mac_byte_run :
    (write_mac_byte (58 ∷ []) 10 (record { buf = replicate 3 0; at = 0 }) >>= λ e. some e.buf)
    ≡ some (58 ∷ 48 ∷ 97 ∷ [])
unfolding write_mac_byte write_fmt write_str write_slice put display_02x hex_lower
mac_byte_run = refl

-- Where the room ends behind the zero of padding the digit is dropped.
mac_byte_cut :
    (write_mac_byte (58 ∷ []) 10 (record { buf = replicate 2 0; at = 0 }) >>= λ e. some e.buf)
    ≡ some (58 ∷ 48 ∷ [])
unfolding write_mac_byte write_fmt write_str write_slice put display_02x hex_lower
mac_byte_cut = refl
