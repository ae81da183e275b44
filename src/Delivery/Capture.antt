-- ===== src/Delivery/Capture.antt =====
-- The paths of a frame through the CSI callback.
use esp_csi_rs_core.Common.{
  ℕ, ◌+◌, ◌%◌, ◌^◌, ◌≤◌, ◌≡◌, refl, ◌∙◌, true, false, List, [], ◌∷◌, map, none, some, arith, length,
  Bool-cases, inl, inr, ◌==◌, if_cases, option_cases,
}
use esp_csi_rs_core.Common.Mac.{Mac}
use esp_csi_rs_core.Containers.{BoundedQueue, BoundedMap}
use esp_csi_rs_core.Csi.{CsiDataPacket, WifiCsiInfo, from_wifi_csi_info}
use esp_csi_rs_core.Stats.{record_collector_rx, record_collector_rx_drop, add_rx_drops}
use esp_csi_rs_core.Logging.{log_csi}
use esp_csi_rs_core.Delivery.{
  Delivery, Event, raw_callback, wake, writes, csi_passes_filter, track_sequence, dispatch, deliver,
  capture_csi_info,
}

-- What a frame adds to the counters when it arrives, and when it is dropped.
abbrev pub counted : {Q M L : Type 0} → Delivery Q M L → Delivery Q M L
counted d = record d { stats = record_collector_rx d.stats }

abbrev pub dropped : {Q M L : Type 0} → Delivery Q M L → Delivery Q M L
dropped d = record d { stats = record_collector_rx_drop d.stats }

module _ {Q M L : Type 0} (queue : BoundedQueue CsiDataPacket Q) (peers : BoundedMap Mac ℕ M)
    (channel : BoundedQueue CsiDataPacket L) where
  open queue use {capacity, to_list, enqueue, dequeue, enqueue_room, enqueue_full}

  abbrev pub capture : WifiCsiInfo → Delivery Q M L → Delivery Q M L × List Event
  capture info d = capture_csi_info queue peers channel info d

  abbrev pub tracked : CsiDataPacket → Delivery Q M L → Delivery Q M L
  tracked p d = track_sequence queue peers channel p d

  -- A frame comes as far as the publish gate lets it.
  pub capture_open :
      (info : WifiCsiInfo) (d : Delivery Q M L)
      → d.csi_raw_callback ≡ none
      → d.csi_publish_enabled ≡ true
      → capture_csi_info queue peers channel info d ≡ deliver queue peers channel info (counted d)
  unfolding capture_csi_info
  capture_open info d h k = simp (h, k, capture_csi_info)

  pub capture_closed :
      (info : WifiCsiInfo) (d : Delivery Q M L)
      → d.csi_raw_callback ≡ none
      → d.csi_publish_enabled ≡ false
      → capture_csi_info queue peers channel info d ≡ (counted d, [])
  unfolding capture_csi_info
  capture_closed info d h k = simp (h, k, capture_csi_info)

  pub capture_raw :
      (info : WifiCsiInfo) (d : Delivery Q M L) (cb : ℕ)
      → d.csi_raw_callback ≡ some cb
      → capture_csi_info queue peers channel info d ≡ (counted d, raw_callback cb ∷ [])
  unfolding capture_csi_info
  capture_raw info d cb h = rw h refl

  pub deliver_filtered :
      (info : WifiCsiInfo) (d : Delivery Q M L)
      → csi_passes_filter d.gates info ≡ false
      → deliver queue peers channel info d ≡ (dropped d, [])
  unfolding deliver
  deliver_filtered info d h = simp h

  pub deliver_oversized :
      (info : WifiCsiInfo) (d : Delivery Q M L)
      → from_wifi_csi_info info ≡ none
      → deliver queue peers channel info d ≡ (dropped d, [])
  unfolding deliver
  deliver_oversized info d h = elim (Bool-cases (csi_passes_filter d.gates info)) [
    | inl t ↦ simp (t, h)
    | inr f ↦ simp f
  ]

  pub deliver_packet :
      (info : WifiCsiInfo) (p : CsiDataPacket) (d : Delivery Q M L)
      → csi_passes_filter d.gates info ≡ true
      → from_wifi_csi_info info ≡ some p
      → deliver queue peers channel info d ≡ dispatch queue peers channel p (tracked p d)
  unfolding deliver
  deliver_packet info p d t h = simp (t, h)

  pub dispatch_async_room :
      (p : CsiDataPacket) (d : Delivery Q M L) (q : Q)
      → d.csi_delivery_mode ≡ 2
      → enqueue p d.csi_queue ≡ some q
      → dispatch queue peers channel p d ≡ (record d { csi_queue = q }, wake ∷ [])
  unfolding dispatch
  dispatch_async_room p d q m h = simp (m, h)

  pub dispatch_async_full :
      (p : CsiDataPacket) (d : Delivery Q M L)
      → d.csi_delivery_mode ≡ 2
      → enqueue p d.csi_queue ≡ none
      → dispatch queue peers channel p d ≡ (dropped d, [])
  unfolding dispatch
  dispatch_async_full p d m h = simp (m, h)

  -- What every frame keeps, whichever path it takes: the gates do not change, the frame is
  -- counted, and at most one thing is done with it.
  pub record Handled (d e : Delivery Q M L) (events : List Event) : Type 0 where
    pub same_gates : e.gates ≡ d.gates
    pub received : e.stats.rx_count ≡ (d.stats.rx_count + 1) % 2 ^ 64
    pub one_path : length events ≤ 1

  -- The same without the count, which is done before.
  abbrev Kept : Delivery Q M L → Delivery Q M L × List Event → Type 0
  Kept d (e, events) =
      (e.gates ≡ d.gates) × (e.stats.rx_count ≡ d.stats.rx_count) × (length events ≤ 1)

  dropped-Kept : (d : Delivery Q M L) → Kept d (dropped d, [])
  unfolding record_collector_rx_drop add_rx_drops
  dropped-Kept d = (refl, refl, omega arith)

  log-Kept :
      (p : CsiDataPacket) (d : Delivery Q M L)
      → Kept d
          (let (l, ws) = log_csi channel p d.logger in (record d { logger = l }, map writes ws))
  unfolding log_csi
  log-Kept p d = elim (Bool-cases d.logger.async_log_active) [
    | inl t ↦ rw t (refl, refl, omega arith)
    | inr f ↦ rw f (refl, refl, omega arith)
  ]

  dispatch-Kept :
      (p : CsiDataPacket) (d : Delivery Q M L) → Kept d (dispatch queue peers channel p d)
  unfolding dispatch
  dispatch-Kept p d =
      if_cases (Kept d) (d.csi_delivery_mode == 1) _ _
        (option_cases (Kept d) d.csi_callback _ _ (λ cb. (refl, refl, omega arith))
          (refl, refl, omega arith))
        (if_cases (Kept d) (d.csi_delivery_mode == 2) _ _
          (option_cases (Kept d) (enqueue p d.csi_queue) _ _ (λ q. (refl, refl, omega arith))
            (dropped-Kept d))
          (if_cases (Kept d) d.csi_inline_log_enabled _ _ (log-Kept p d) (refl, refl, omega arith)))

  tracked-Kept : (p : CsiDataPacket) (d : Delivery Q M L) → Kept d (tracked p d, [])
  unfolding track_sequence add_rx_drops
  tracked-Kept p d =
      if_cases (λ e. Kept d (e, [])) d.stats.seq_drop_detection_enabled _ _
        (refl, refl, omega arith) (refl, refl, omega arith)

  dispatched-Kept :
      (p : CsiDataPacket) (d : Delivery Q M L)
      → Kept d (dispatch queue peers channel p (tracked p d))
  dispatched-Kept p d =
      let (g, n, _) = tracked-Kept p d in
      let (h, m, l) = dispatch-Kept p (tracked p d) in (h ∙ g, m ∙ n, l)

  deliver-Kept :
      (info : WifiCsiInfo) (d : Delivery Q M L) → Kept d (deliver queue peers channel info d)
  unfolding deliver
  deliver-Kept info d =
      if_cases (Kept d) (csi_passes_filter d.gates info) _ _
        (option_cases (Kept d) (from_wifi_csi_info info) _ _ (λ p. dispatched-Kept p d)
          (dropped-Kept d))
        (dropped-Kept d)

  counted-Handled :
      (d : Delivery Q M L) (s : Delivery Q M L × List Event)
      → Kept (counted d) s
      → (let (e, events) = s in Handled d e events)
  unfolding record_collector_rx
  counted-Handled d (e, events) (g, n, l) = record { same_gates = g; received = n; one_path = l }

  -- Whatever the gates, the filter, the payload, the queue and the logger say, a call of the
  -- callback counts the frame once, does at most one thing with it, and changes no gate.
  pub capture_csi_info-Handled :
      (info : WifiCsiInfo) (d : Delivery Q M L)
      → (let (e, events) = capture_csi_info queue peers channel info d in Handled d e events)
  unfolding capture_csi_info
  capture_csi_info-Handled info d =
      counted-Handled d (capture_csi_info queue peers channel info d) (
        option_cases (Kept (counted d)) d.csi_raw_callback _ _ (λ cb. (refl, refl, omega arith))
          (if_cases (Kept (counted d)) d.csi_publish_enabled _ _ (deliver-Kept info (counted d))
            (refl, refl, omega arith)))
