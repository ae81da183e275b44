-- ===== src/Logging/CsiTool/Sync.antt =====
-- `write_csi_tool_packet_sync` of lib/logging/logging.rs: the header line and the lines of packets.
use esp_csi_rs_core.Common.{
  ℕ, suc, ◌+◌, ◌-◌, ◌%◌, ◌≤◌, ◌≡◌, refl, ap, ◌∙◌, true, false, List, [], ◌∷◌, ◌++◌, map, Option,
  some, arith, if◌then◌else◌, length, take, ◌>>=◌, All, subst, append_assoc,
}
use esp_csi_rs_core.Csi.{CsiDataPacket}
use esp_csi_rs_core.Csi.Packet.{IsPacket}
use esp_csi_rs_core.Stats.{u64_mod}
use esp_csi_rs_core.Logging.{Logger, role_from}
use esp_csi_rs_core.Logging.CsiTool.{format_csi_tool_into}
use esp_csi_rs_core.Logging.CsiTool.Line.{tool_line, format_csi_tool_into-Written}

-- `ESP_CSI_TOOL_HEADER`, in ASCII.
abbrev pub esp_csi_tool_header : List ℕ
esp_csi_tool_header =
    116 ∷ 121 ∷ 112 ∷ 101 ∷ 44 ∷ 114 ∷ 111 ∷ 108 ∷ 101 ∷ 44 ∷ 109 ∷ 97 ∷ 99 ∷ 44 ∷ 114 ∷ 115 ∷ 115
    ∷ 105 ∷ 44 ∷ 114 ∷ 97 ∷ 116 ∷ 101 ∷ 44 ∷ 115 ∷ 105 ∷ 103 ∷ 95 ∷ 109 ∷ 111 ∷ 100 ∷ 101 ∷ 44 ∷ 109
    ∷ 99 ∷ 115 ∷ 44 ∷ 98 ∷ 97 ∷ 110 ∷ 100 ∷ 119 ∷ 105 ∷ 100 ∷ 116 ∷ 104 ∷ 44 ∷ 115 ∷ 109 ∷ 111 ∷ 111
    ∷ 116 ∷ 104 ∷ 105 ∷ 110 ∷ 103 ∷ 44 ∷ 110 ∷ 111 ∷ 116 ∷ 95 ∷ 115 ∷ 111 ∷ 117 ∷ 110 ∷ 100 ∷ 105
    ∷ 110 ∷ 103 ∷ 44 ∷ 97 ∷ 103 ∷ 103 ∷ 114 ∷ 101 ∷ 103 ∷ 97 ∷ 116 ∷ 105 ∷ 111 ∷ 110 ∷ 44 ∷ 115
    ∷ 116 ∷ 98 ∷ 99 ∷ 44 ∷ 102 ∷ 101 ∷ 99 ∷ 95 ∷ 99 ∷ 111 ∷ 100 ∷ 105 ∷ 110 ∷ 103 ∷ 44 ∷ 115 ∷ 103
    ∷ 105 ∷ 44 ∷ 110 ∷ 111 ∷ 105 ∷ 115 ∷ 101 ∷ 95 ∷ 102 ∷ 108 ∷ 111 ∷ 111 ∷ 114 ∷ 44 ∷ 97 ∷ 109
    ∷ 112 ∷ 100 ∷ 117 ∷ 95 ∷ 99 ∷ 110 ∷ 116 ∷ 44 ∷ 99 ∷ 104 ∷ 97 ∷ 110 ∷ 110 ∷ 101 ∷ 108 ∷ 44 ∷ 115
    ∷ 101 ∷ 99 ∷ 111 ∷ 110 ∷ 100 ∷ 97 ∷ 114 ∷ 121 ∷ 95 ∷ 99 ∷ 104 ∷ 97 ∷ 110 ∷ 110 ∷ 101 ∷ 108 ∷ 44
    ∷ 108 ∷ 111 ∷ 99 ∷ 97 ∷ 108 ∷ 95 ∷ 116 ∷ 105 ∷ 109 ∷ 101 ∷ 115 ∷ 116 ∷ 97 ∷ 109 ∷ 112 ∷ 44 ∷ 97
    ∷ 110 ∷ 116 ∷ 44 ∷ 115 ∷ 105 ∷ 103 ∷ 95 ∷ 108 ∷ 101 ∷ 110 ∷ 44 ∷ 114 ∷ 120 ∷ 95 ∷ 115 ∷ 116 ∷ 97
    ∷ 116 ∷ 101 ∷ 44 ∷ 114 ∷ 101 ∷ 97 ∷ 108 ∷ 95 ∷ 116 ∷ 105 ∷ 109 ∷ 101 ∷ 95 ∷ 115 ∷ 101 ∷ 116 ∷ 44
    ∷ 114 ∷ 101 ∷ 97 ∷ 108 ∷ 95 ∷ 116 ∷ 105 ∷ 109 ∷ 101 ∷ 115 ∷ 116 ∷ 97 ∷ 109 ∷ 112 ∷ 44 ∷ 108
    ∷ 101 ∷ 110 ∷ 44 ∷ 67 ∷ 83 ∷ 73 ∷ 95 ∷ 68 ∷ 65 ∷ 84 ∷ 65 ∷ 10 ∷ []

-- The logger, the scratch and the counters of the time spent, in microseconds.
pub record ToolSync (L : Type 0) : Type 0 where
  pub logger : Logger L
  pub scratch : List ℕ
  pub sync_format_us : ℕ
  pub sync_write_us : ℕ
  pub sync_pkt_count : ℕ

-- What the clock reads before the formatting, behind it, and behind the write.
pub record Reads : Type 0 where
  pub t0 : ℕ
  pub t1 : ℕ
  pub t2 : ℕ

-- The state afterwards and the chunks that go out, in order.
unfoldable pub write_csi_tool_packet_sync :
    {L : Type 0} → CsiDataPacket → Reads → ToolSync L → Option (ToolSync L × List (List ℕ))
unfolding format_csi_tool_into role_from
write_csi_tool_packet_sync p at s =
    let l = s.logger in
    let header = if l.esp_csi_tool_header_printed then [] else esp_csi_tool_header ∷ [] in
    format_csi_tool_into (role_from l.role) l.csi_tool_emit_cap p s.scratch >>= λ e. some (
      record {
        logger = record l { esp_csi_tool_header_printed = true };
        scratch = e.buf;
        sync_format_us = (s.sync_format_us + (at.t1 - at.t0)) % u64_mod;
        sync_write_us = (s.sync_write_us + (at.t2 - at.t1)) % u64_mod;
        sync_pkt_count = (s.sync_pkt_count + 1) % u64_mod;
      },
      header ++ (take e.at e.buf ∷ []),
    )

-- Packets one after the other.
unfoldable pub write_all :
    {L : Type 0} → List (CsiDataPacket × Reads) → ToolSync L → Option (ToolSync L × List (List ℕ))
unfolding write_csi_tool_packet_sync
write_all [] s = some (s, [])
write_all ((p, at) ∷ ps) s =
    write_csi_tool_packet_sync p at s >>= λ r. write_all ps r.0 >>= λ q. some (q.0, r.1 ++ q.1)

module _ {L : Type 0} where
  abbrev pub headed : Logger L → Logger L
  headed l = record l { esp_csi_tool_header_printed = true }

  -- The line of a packet, those of several, and the header where it is due.
  abbrev pub line : Logger L → CsiDataPacket → List ℕ
  line l p = tool_line (role_from l.role) l.csi_tool_emit_cap p

  abbrev pub lines : Logger L → List (CsiDataPacket × Reads) → List (List ℕ)
  lines l ps = map (λ p. line l p.0) ps

  abbrev header_of : Logger L → List (List ℕ)
  header_of l = if l.esp_csi_tool_header_printed then [] else esp_csi_tool_header ∷ []

  record Wrote (p : CsiDataPacket) (at : Reads) (s r : ToolSync L) : Type 0 where
    pub writes :
        write_csi_tool_packet_sync p at s ≡ some (r, header_of s.logger ++ (line s.logger p ∷ []))
    pub logger : r.logger ≡ headed s.logger
    pub size : length r.scratch ≡ length s.scratch
    pub count : r.sync_pkt_count ≡ (s.sync_pkt_count + 1) % u64_mod

  one_packet :
      (p : CsiDataPacket) (at : Reads) (s : ToolSync L)
      → IsPacket p
      → 3327 ≤ length s.scratch
      → (r : ToolSync L) × Wrote p at s r
  unfolding write_csi_tool_packet_sync
  one_packet p at s v room =
      let l = s.logger in
      let (e, f, w) =
        format_csi_tool_into-Written (role_from l.role) l.csi_tool_emit_cap p s.scratch v room in
      (
        record {
          logger = headed l;
          scratch = e.buf;
          sync_format_us = (s.sync_format_us + (at.t1 - at.t0)) % u64_mod;
          sync_write_us = (s.sync_write_us + (at.t2 - at.t1)) % u64_mod;
          sync_pkt_count = (s.sync_pkt_count + 1) % u64_mod;
        },
        record {
          writes = rw (write_csi_tool_packet_sync, f, w.text) refl;
          logger = refl;
          size = w.size;
          count = refl;
        },
      )

  record AllWrote (ps : List (CsiDataPacket × Reads)) (out : List (List ℕ)) (s r : ToolSync L)
      : Type 0 where
    pub writes : write_all ps s ≡ some (r, out)
    pub logger : r.logger ≡ headed s.logger
    pub count : r.sync_pkt_count % u64_mod ≡ (s.sync_pkt_count + length ps) % u64_mod

  -- A packet before those that follow it.
  behind :
      (p : CsiDataPacket) (at : Reads) (ps : List (CsiDataPacket × Reads)) (s r q : ToolSync L)
      → Wrote p at s r
      → AllWrote ps (lines r.logger ps) r q
      → AllWrote ((p, at) ∷ ps) (header_of s.logger ++ lines s.logger ((p, at) ∷ ps)) s q
  unfolding write_all
  behind p at ps s r q w ws = record {
    writes =
        ap (λ o. o >>= λ r. write_all ps r.0 >>= λ q. some (q.0, r.1 ++ q.1)) w.writes
        ∙ ap (λ o. o >>= λ q. some (q.0, (header_of s.logger ++ (line s.logger p ∷ [])) ++ q.1))
            ws.writes
        ∙ ap (λ l. some (q, (header_of s.logger ++ (line s.logger p ∷ [])) ++ lines l ps)) w.logger
        ∙ ap (λ l. some (q, l))
            (append_assoc (header_of s.logger) (line s.logger p ∷ []) (lines s.logger ps));
    logger = ws.logger ∙ ap headed w.logger;
    count = omega (arith, w.count, ws.count);
  }

  -- Once the header is out, each packet is a line.
  packets_after :
      (ps : List (CsiDataPacket × Reads)) (s : ToolSync L)
      → All (λ q. IsPacket q.0) ps
      → (let l = s.logger in l.esp_csi_tool_header_printed) ≡ true
      → 3327 ≤ length s.scratch
      → (r : ToolSync L) × AllWrote ps (lines s.logger ps) s r
  unfolding write_all
  packets_after [] s vs printed room = (
    s,
    record {
      writes = refl;
      logger = ap (λ b. record s.logger { esp_csi_tool_header_printed = b }) printed;
      count = omega arith;
    },
  )
  packets_after ((p, at) ∷ ps) s (v, vs) printed room =
      let (r, w) = one_packet p at s v room in
      let flag = ap (λ l. let m : Logger L = l in m.esp_csi_tool_header_printed) w.logger in
      let (q, ws) = packets_after ps r vs flag (omega (arith, room, w.size)) in
      (
        q,
        subst
            (λ b.
              AllWrote ((p, at) ∷ ps)
                ((if b then [] else esp_csi_tool_header ∷ []) ++ lines s.logger ((p, at) ∷ ps)) s q)
            printed (behind p at ps s r q w ws),
      )

  -- Where the header line is still due, one or more well-formed packets, one after the other, put
  -- out the header line exactly once and first, then the whole line of each packet in their order;
  -- of the logger only the header's flag changes, and the packets are counted modulo 2^64.
  pub write_all-lines :
      (p : CsiDataPacket) (at : Reads) (ps : List (CsiDataPacket × Reads)) (s : ToolSync L)
      → IsPacket p
      → All (λ q. IsPacket q.0) ps
      → (let l = s.logger in l.esp_csi_tool_header_printed) ≡ false
      → 3327 ≤ length s.scratch
      → (r : ToolSync L) × (write_all ((p, at) ∷ ps) s
          ≡ some (r, esp_csi_tool_header ∷ lines s.logger ((p, at) ∷ ps)))
        × (r.logger ≡ headed s.logger)
        × (r.sync_pkt_count % u64_mod ≡ (s.sync_pkt_count + suc (length ps)) % u64_mod)
  write_all-lines p at ps s v vs due room =
      let (r, w) = one_packet p at s v room in
      let flag = ap (λ l. let m : Logger L = l in m.esp_csi_tool_header_printed) w.logger in
      let (q, ws) = packets_after ps r vs flag (omega (arith, room, w.size)) in
      let all =
        subst
          (λ b.
            AllWrote ((p, at) ∷ ps)
              ((if b then [] else esp_csi_tool_header ∷ []) ++ lines s.logger ((p, at) ∷ ps)) s q)
          due (behind p at ps s r q w ws) in
      (q, all.writes, all.logger, all.count)
