-- ===== src/Logging/Backend/Header.antt =====
-- The header line of the EspCsiTool mode where the transport refuses it.
use esp_csi_rs_core.Common.{
  ℕ, ◌+◌, ◌≡◌, refl, ap, ◌∙◌, Bool, true, false, [], ◌∷◌, ◌++◌, append-nil, some, arith, length,
  List,
}
use esp_csi_rs_core.Csi.{CsiDataPacket}
use esp_csi_rs_core.Csi.Packet.{IsPacket}
use esp_csi_rs_core.Logging.{role_from, Logger}
use esp_csi_rs_core.Logging.CsiTool.Line.{tool_line, format_csi_tool_into-Written}
use esp_csi_rs_core.Logging.Backend.{
  of_packet, Backend, write, write_tool_line, write_csi_tool_packet_async,
}
use esp_csi_rs_core.Logging.Backend.Writes.{printed, printed-append}

-- Where the transport refuses the header line and takes the next write, the first packet is lost
-- with the header and the line of the second follows what was out before: the header line is not
-- written again.
pub write_csi_tool_packet_async-header :
    {L T : Type 0} (takes : ℕ → Bool) (p q : CsiDataPacket) (scratch later : List ℕ)
    (b : Backend L T)
    → (let l = b.logger in l.esp_csi_tool_header_printed) ≡ false
    → takes b.calls ≡ false
    → takes (b.calls + 1) ≡ true
    → IsPacket q
    → length later ≡ 3328
    → (c d : Backend L T) × (write_csi_tool_packet_async takes p scratch b ≡ some c)
      × (c.out ≡ b.out)
      × (write_csi_tool_packet_async takes q later c ≡ some d)
      × (printed d.out
          ≡ printed b.out
            ++ tool_line
                (let l = b.logger in role_from l.role)
                (let l = b.logger in l.csi_tool_emit_cap)
                q)
unfolding write_csi_tool_packet_async write_tool_line write
write_csi_tool_packet_async-header {L} {T} takes p q scratch later b due refused taken v room =
    let l = b.logger in
    let m : Logger L = record l { esp_csi_tool_header_printed = true } in
    let c : Backend L T = record b { logger = m; calls = b.calls + 1 } in
    let line : List ℕ = tool_line (role_from l.role) l.csi_tool_emit_cap q in
    let d : Backend L T = record c {
      calls = b.calls + 1 + 1;
      out = b.out ++ (of_packet line ∷ []);
    } in
    let (e, f, w) =
      format_csi_tool_into-Written (role_from l.role) l.csi_tool_emit_cap q later v
        (omega (arith, room)) in
    (
      c,
      d,
      rw (write_csi_tool_packet_async, due, write, refused) refl,
      refl,
      rw (write_csi_tool_packet_async, write_tool_line, f, w.text, write, taken) refl,
      printed-append b.out (of_packet line ∷ []) ∙ ap (λ t. printed b.out ++ t) (append-nil line),
    )
