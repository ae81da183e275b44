-- ===== src/Delivery/Output.antt =====
-- The flag of `set_csi_output_enabled`, and what the callback makes of it.
use esp_csi_rs_core.Common.{ℕ, ◌≡◌, refl, ap, ◌∙◌, Bool, List, ◌==◌, if_related, option_related}
use esp_csi_rs_core.Common.Mac.{Mac}
use esp_csi_rs_core.Containers.{BoundedQueue, BoundedMap}
use esp_csi_rs_core.Csi.{CsiDataPacket, WifiCsiInfo, from_wifi_csi_info}
use esp_csi_rs_core.Delivery.{
  Delivery, Event, csi_passes_filter, track_sequence, dispatch, deliver, capture_csi_info,
  set_csi_output_enabled,
}
use esp_csi_rs_core.Delivery.Capture.{counted}

module _ {Q M L : Type 0} (queue : BoundedQueue CsiDataPacket Q) (peers : BoundedMap Mac ℕ M)
    (channel : BoundedQueue CsiDataPacket L) where
  open queue use {enqueue}

  abbrev output_set : Bool → Delivery Q M L → Delivery Q M L
  output_set enabled d = record d { gates = set_csi_output_enabled enabled d.gates }

  -- The second run differs from the first in the flag only.
  abbrev SameBut : Bool → Delivery Q M L × List Event → Delivery Q M L × List Event → Type 0
  SameBut enabled (d, events) t = t ≡ (output_set enabled d, events)

  dispatch-output :
      (enabled : Bool) (p : CsiDataPacket) (d : Delivery Q M L)
      → SameBut enabled
          (dispatch queue peers channel p d)
          (dispatch queue peers channel p (output_set enabled d))
  unfolding dispatch set_csi_output_enabled
  dispatch-output enabled p d =
      if_related (SameBut enabled) (d.csi_delivery_mode == 1) _ _ _ _
        (option_related (SameBut enabled) d.csi_callback _ _ _ _ (λ cb. refl) refl)
        (if_related (SameBut enabled) (d.csi_delivery_mode == 2) _ _ _ _
          (option_related (SameBut enabled) (enqueue p d.csi_queue) _ _ _ _ (λ q. refl) refl)
          (if_related (SameBut enabled) d.csi_inline_log_enabled _ _ _ _ refl refl))

  tracked-output :
      (enabled : Bool) (p : CsiDataPacket) (d : Delivery Q M L)
      → track_sequence queue peers channel p (output_set enabled d)
        ≡ output_set enabled (track_sequence queue peers channel p d)
  unfolding track_sequence set_csi_output_enabled
  tracked-output enabled p d =
      if_related (λ e f. f ≡ output_set enabled e) d.stats.seq_drop_detection_enabled _ _ _ _ refl
        refl

  dispatched-output :
      (enabled : Bool) (p : CsiDataPacket) (d : Delivery Q M L)
      → SameBut enabled (dispatch queue peers channel p (track_sequence queue peers channel p d)) (
          dispatch queue peers channel p
            (track_sequence queue peers channel p (output_set enabled d)))
  dispatched-output enabled p d =
      ap (λ e. dispatch queue peers channel p e) (tracked-output enabled p d)
      ∙ dispatch-output enabled p (track_sequence queue peers channel p d)

  deliver-output :
      (enabled : Bool) (info : WifiCsiInfo) (d : Delivery Q M L)
      → SameBut enabled
          (deliver queue peers channel info d)
          (deliver queue peers channel info (output_set enabled d))
  unfolding deliver csi_passes_filter set_csi_output_enabled
  deliver-output enabled info d =
      if_related (SameBut enabled) (csi_passes_filter d.gates info) _ _ _ _
        (option_related (SameBut enabled) (from_wifi_csi_info info) _ _ _ _
          (λ p. dispatched-output enabled p d) refl)
        refl

  -- The flag of `set_csi_output_enabled` decides nothing here: with either value of it the same is
  -- done with every frame, and the counters, the queue, the tracker and the logger end the same.
  pub capture_csi_info-set_csi_output_enabled :
      (enabled : Bool) (info : WifiCsiInfo) (d : Delivery Q M L)
      → (let (e, events) = capture_csi_info queue peers channel info d in
          capture_csi_info queue peers channel info
            (record d { gates = set_csi_output_enabled enabled d.gates })
          ≡ (record e { gates = set_csi_output_enabled enabled e.gates }, events))
  unfolding capture_csi_info set_csi_output_enabled
  capture_csi_info-set_csi_output_enabled enabled info d =
      option_related (SameBut enabled) d.csi_raw_callback _ _ _ _ (λ cb. refl)
        (if_related (SameBut enabled) d.csi_publish_enabled _ _ _ _
          (deliver-output enabled info (counted d)) refl)
