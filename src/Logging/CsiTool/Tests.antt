-- ===== src/Logging/CsiTool/Tests.antt =====
-- Two packets through the EspCsiTool formatter.
use esp_csi_rs_core.Common.{
  ℕ, suc, ◌+◌, ◌%◌, ◌≤◌, ◌≡◌, refl, false, [], ◌∷◌, some, arith, length, replicate,
  length-replicate,
}
use esp_csi_rs_core.Csi.{CsiDataPacket}
use esp_csi_rs_core.Csi.Samples.{sample_packet, sample_packet-IsPacket}
use esp_csi_rs_core.Stats.{u64_mod}
use esp_csi_rs_core.Logging.CsiTool.Sync.{
  ToolSync, Reads, write_all, esp_csi_tool_header, lines, headed, write_all-lines,
}

abbrev fresh : ToolSync Unit
fresh = record {
  logger = record {
    log_mode = 3;
    role = 0;
    esp_csi_tool_header_printed = false;
    async_log_active = false;
    csi_tool_emit_cap = 0;
    csi_channel = tt;
    log_dropped_packets = 0;
  };
  scratch = replicate 3328 0;
  sync_format_us = 0;
  sync_write_us = 0;
  sync_pkt_count = 0;
}

abbrev reads : Reads
reads = record { t0 = 10; t1 = 25; t2 = 900 }

abbrev packet : CsiDataPacket × Reads
packet = (sample_packet, reads)

room : 3327 ≤ length fresh.scratch
room = omega (arith, length-replicate {A = ℕ} 3328 0)

write_all-lines_example :
    (r : ToolSync Unit) × (write_all (packet ∷ packet ∷ []) fresh
      ≡ some (r, esp_csi_tool_header ∷ lines fresh.logger (packet ∷ packet ∷ [])))
    × (r.logger ≡ headed fresh.logger)
    × (r.sync_pkt_count % u64_mod ≡ (fresh.sync_pkt_count + suc (length (packet ∷ []))) % u64_mod)
write_all-lines_example =
    write_all-lines sample_packet reads (packet ∷ []) fresh sample_packet-IsPacket
      (sample_packet-IsPacket, tt) refl room
