-- ===== src/Peripheral/Mode.antt =====
-- The hysteresis by which the peripheral follows the central's mode.
use esp_csi_rs_core.Common.{ℕ, ◌+◌, Bool, true, false, List, [], ◌∷◌, leb, if◌then◌else◌}
use esp_csi_rs_core.Peripheral.{Shared, follow_mode, PeerTable, Postcard}
use esp_csi_rs_core.Protocol.{ControlPacket}

-- Three `true` in a row, where `run` of them are behind.
abbrev pub three_in_a_row : List Bool → ℕ → Bool
three_in_a_row [] run = false
three_in_a_row (false ∷ bs) run = three_in_a_row bs 0
three_in_a_row (true ∷ bs) run = if leb 2 run then true else three_in_a_row bs (run + 1)

module _ {E : Type 0} (peers : PeerTable E) (postcard : Postcard ControlPacket) where
  -- Accepted packets, each by whether its central is a listener.
  unfoldable pub follow_all : List Bool → Shared E → Shared E
  follow_all [] s = s
  follow_all (b ∷ bs) s = follow_all bs (follow_mode peers postcard b s)

  -- The number of packets of a listening central just seen.
  abbrev pub listeners : Shared E → ℕ
  listeners s = if s.last_central_is_listener then s.mode_streak else 0
