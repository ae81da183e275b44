-- ===== src/Logging/Tests.antt =====
-- The EspCsiTool formatter at a sample packet.
use esp_csi_rs_core.Common.{
  ℕ, ◌≤◌, ◌≡◌, List, some, arith, length, take, replicate, length-replicate,
}
use esp_csi_rs_core.Csi.Samples.{sample_packet, sample_packet-IsPacket}
use esp_csi_rs_core.Logging.{sta}
use esp_csi_rs_core.Logging.Encode.{Cursor}
use esp_csi_rs_core.Logging.CsiTool.{format_csi_tool_into}
use esp_csi_rs_core.Logging.CsiTool.Line.{tool_line, format_csi_tool_into_lem}

abbrev scratch : List ℕ
scratch = replicate 3328 0

scratch_room : 3327 ≤ length scratch
scratch_room = omega (arith, length-replicate {A = ℕ} 3328 0)

format_csi_tool_into_lem_example :
    (e : Cursor) × (format_csi_tool_into sta 0 sample_packet scratch ≡ some e)
    × (e.at ≤ 3327)
    × (take e.at e.buf ≡ tool_line sta 0 sample_packet)
format_csi_tool_into_lem_example =
    format_csi_tool_into_lem sta 0 sample_packet scratch sample_packet-IsPacket scratch_room
