-- ===== src/Logging.antt =====
-- lib/logging/logging.rs: the logger's state and `log_csi`, for a build with a transport and the
-- `auto` feature, in which both the asynchronous and the synchronous path are compiled in. The
-- formatters stand in the modules below.
pub mod Encode
pub mod CsiTool
pub mod ArrayList
pub mod Text
pub mod Backend
mod Tests
use esp_csi_rs_core.Common.{
  ℕ, ◌+◌, ◌%◌, Bool, true, false, List, [], ◌∷◌, Option, none, some, ◌==◌, if◌then◌else◌,
}
use esp_csi_rs_core.Containers.{BoundedQueue}
use esp_csi_rs_core.Csi.{CsiDataPacket}
use esp_csi_rs_core.Stats.{u32_mod}

pub data LogMode : Type 0 where
  text serialized array_list esp_csi_tool : LogMode

-- `log_mode as u8`, and `LogMode::from`.
unfoldable pub to_u8 : LogMode → ℕ
to_u8 text = 0
to_u8 serialized = 1
to_u8 array_list = 2
to_u8 esp_csi_tool = 3

unfoldable pub log_mode_from : ℕ → LogMode
log_mode_from value =
    if value == 0
    then text
    else if value == 1
    then serialized
    else if value == 2
    then array_list
    else if value == 3
    then esp_csi_tool
    else text

pub data Role : Type 0 where
  sta ap passive : Role

unfoldable pub role_from : ℕ → Role
role_from value = if value == 1 then ap else if value == 2 then passive else sta

-- The module's statics; `L` is the type of `CSI_CHANNEL`.
pub record Logger (L : Type 0) : Type 0 where
  pub log_mode : ℕ
  pub role : ℕ
  pub esp_csi_tool_header_printed : Bool
  pub async_log_active : Bool
  pub csi_tool_emit_cap : ℕ
  pub csi_channel : L
  pub log_dropped_packets : ℕ

unfoldable pub record_log_drop : {L : Type 0} → Logger L → Logger L
record_log_drop l = record l { log_dropped_packets = (l.log_dropped_packets + 1) % u32_mod }

unfoldable pub reset_global_log_drops : {L : Type 0} → Logger L → Logger L
reset_global_log_drops l = record l { log_dropped_packets = 0 }

unfoldable pub set_log_mode : {L : Type 0} → LogMode → Logger L → Logger L
unfolding to_u8
set_log_mode mode l = record l { log_mode = to_u8 mode; esp_csi_tool_header_printed = false }

unfoldable pub set_csi_tool_emit_cap : {L : Type 0} → ℕ → Logger L → Logger L
set_csi_tool_emit_cap cap l = record l { csi_tool_emit_cap = cap }

-- The formatter that a packet is handed to on the synchronous path.
pub data Write : Type 0 where
  write_packet_sync : LogMode → CsiDataPacket → Write

module _ {L : Type 0} (channel : BoundedQueue CsiDataPacket L) where
  open channel use {enqueue}

  unfoldable pub log_csi : CsiDataPacket → Logger L → Logger L × List Write
  unfolding record_log_drop log_mode_from
  log_csi packet l =
      if l.async_log_active
      then (
        elim (enqueue packet l.csi_channel) [
          | some c ↦ record l { csi_channel = c }
          | none ↦ record_log_drop l
        ],
        [],
      )
      else (l, write_packet_sync (log_mode_from l.log_mode) packet ∷ [])
