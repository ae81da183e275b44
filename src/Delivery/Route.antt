-- ===== src/Delivery/Route.antt =====
-- Where a wanted frame goes, and what the gates let through after a call that should close them.
use esp_csi_rs_core.Common.{
  ℕ, ◌≤◌, ◌<◌, ◌≡◌, refl, ap, ◌∙◌, true, false, List, [], ◌∷◌, ◌++◌, none, some, arith, length,
  Bool-cases, inl, inr, ◌⊎◌,
}
use esp_csi_rs_core.Common.Mac.{Mac}
use esp_csi_rs_core.Containers.{BoundedQueue, BoundedMap}
use esp_csi_rs_core.Csi.{CsiDataPacket, WifiCsiInfo, from_wifi_csi_info, csi_capacity}
use esp_csi_rs_core.Csi.Packet.{IsInfo, Carries, from_wifi_csi_info_lem}
use esp_csi_rs_core.Logging.{log_csi, log_mode_from, write_packet_sync}
use esp_csi_rs_core.Delivery.{
  Delivery, Event, raw_callback, user_callback, wake, writes, csi_passes_filter, track_sequence,
  dispatch, deliver, capture_csi_info, set_csi_callback, set_csi_logging_enabled, reset,
}
use esp_csi_rs_core.Delivery.Filter.{Filters, Wanted, csi_passes_filter_iff}
use esp_csi_rs_core.Delivery.Capture.{
  counted, dropped, capture_open, capture_closed, capture_raw, deliver_filtered, deliver_oversized,
  deliver_packet, dispatch_async_room, dispatch_async_full,
}

module _ {Q M L : Type 0} (queue : BoundedQueue CsiDataPacket Q) (peers : BoundedMap Mac ℕ M)
    (channel : BoundedQueue CsiDataPacket L) where
  open queue use {capacity, to_list, enqueue_room, enqueue_full}

  -- The callback may build packets, and the filters `m` and `min` are in force.
  pub record Open (m : Mac) (min : ℕ) (d : Delivery Q M L) : Type 0 where
    pub no_raw : d.csi_raw_callback ≡ none
    pub published : d.csi_publish_enabled ≡ true
    pub filters : Filters m min d.gates

  -- What is to become of the packet `p` built from a frame that arrives in the state `d`, by the
  -- delivery mode: `e` and `events` are the outcome.
  pub record Routed (p : CsiDataPacket) (d e : Delivery Q M L) (events : List Event) : Type 0 where
    pub to_callback :
        (cb : ℕ)
        → d.csi_delivery_mode ≡ 1
        → d.csi_callback ≡ some cb
        → events ≡ user_callback cb p ∷ []
    pub to_queue :
        d.csi_delivery_mode ≡ 2
        → length (to_list d.csi_queue) < capacity
        → (events ≡ wake ∷ []) × (to_list e.csi_queue ≡ to_list d.csi_queue ++ (p ∷ []))
    pub queue_full :
        d.csi_delivery_mode ≡ 2
        → capacity ≤ length (to_list d.csi_queue)
        → (events ≡ []) × (e ≡ dropped (track_sequence queue peers channel p (counted d)))
    pub to_log :
        d.csi_delivery_mode ≡ 0
        → d.csi_inline_log_enabled ≡ true
        → d.logger.async_log_active ≡ false
        → events ≡ writes (write_packet_sync (log_mode_from d.logger.log_mode) p) ∷ []

  -- The tracker and the count of losses are all that the sequence number changes.
  abbrev Tracked : Delivery Q M L → Delivery Q M L → Type 0
  Tracked d e = (e.gates ≡ d.gates) × (e.csi_queue ≡ d.csi_queue) × (e.logger ≡ d.logger)

  track-Tracked :
      (p : CsiDataPacket) (d : Delivery Q M L) → Tracked d (track_sequence queue peers channel p d)
  unfolding track_sequence
  track-Tracked p d = elim (Bool-cases d.stats.seq_drop_detection_enabled) [
    | inl t ↦ rw t (refl, refl, refl)
    | inr f ↦ rw f (refl, refl, refl)
  ]

  dispatch_callback :
      (p : CsiDataPacket) (d : Delivery Q M L) (cb : ℕ)
      → d.csi_delivery_mode ≡ 1
      → d.csi_callback ≡ some cb
      → dispatch queue peers channel p d ≡ (d, user_callback cb p ∷ [])
  unfolding dispatch
  dispatch_callback p d cb m h = simp (m, h)

  log_sync :
      (p : CsiDataPacket) (d : Delivery Q M L)
      → d.logger.async_log_active ≡ false
      → log_csi channel p d.logger
        ≡ (d.logger, write_packet_sync (log_mode_from d.logger.log_mode) p ∷ [])
  unfolding log_csi
  log_sync p d h = simp h

  dispatch_log :
      (p : CsiDataPacket) (d : Delivery Q M L)
      → d.csi_delivery_mode ≡ 0
      → d.csi_inline_log_enabled ≡ true
      → d.logger.async_log_active ≡ false
      → (let (_, events) = dispatch queue peers channel p d in events)
        ≡ writes (write_packet_sync (log_mode_from d.logger.log_mode) p) ∷ []
  unfolding dispatch
  dispatch_log p d m h k = simp (m, h, log_sync p d k)

  dispatch-Tracked :
      (p : CsiDataPacket) (d t : Delivery Q M L)
      → Tracked d t
      → (let (e, events) = dispatch queue peers channel p t in
          ((cb : ℕ)
            → d.csi_delivery_mode ≡ 1
            → d.csi_callback ≡ some cb
            → events ≡ user_callback cb p ∷ [])
          × (d.csi_delivery_mode ≡ 2
              → length (to_list d.csi_queue) < capacity
              → (events ≡ wake ∷ []) × (to_list e.csi_queue ≡ to_list d.csi_queue ++ (p ∷ [])))
          × (d.csi_delivery_mode ≡ 2
              → capacity ≤ length (to_list d.csi_queue)
              → (events ≡ []) × (e ≡ dropped t))
          × (d.csi_delivery_mode ≡ 0
              → d.csi_inline_log_enabled ≡ true
              → d.logger.async_log_active ≡ false
              → events ≡ writes (write_packet_sync (log_mode_from d.logger.log_mode) p) ∷ []))
  dispatch-Tracked p d t (g, q, l) =
      let mode : t.csi_delivery_mode ≡ d.csi_delivery_mode = ap (λ x. x.csi_delivery_mode) g in
      let size : length (to_list t.csi_queue) ≡ length (to_list d.csi_queue) =
        ap (λ x. length (to_list x)) q in
      (
        λ cb m h. rw (dispatch_callback p t cb (mode ∙ m) (ap (λ x. x.csi_callback) g ∙ h)) refl,
        λ m h.
            let (r, e, s) = enqueue_room p t.csi_queue (omega arith) in
            rw (dispatch_async_room queue peers channel p t r (mode ∙ m) e)
              (refl, s ∙ ap (λ x. to_list x ++ (p ∷ [])) q),
        λ m h.
            rw
              (dispatch_async_full queue peers channel p t (mode ∙ m)
                (enqueue_full p t.csi_queue (omega arith)))
              (refl, refl),
        λ m h k.
            dispatch_log p t (mode ∙ m) (ap (λ x. x.csi_inline_log_enabled) g ∙ h)
              (ap (λ x. x.async_log_active) l ∙ k)
            ∙ ap (λ x. writes (write_packet_sync (log_mode_from x.log_mode) p) ∷ []) l,
      )

  deliver-Routed :
      (info : WifiCsiInfo) (p : CsiDataPacket) (d : Delivery Q M L)
      → csi_passes_filter d.gates info ≡ true
      → from_wifi_csi_info info ≡ some p
      → (let (e, events) = deliver queue peers channel info (counted d) in Routed p d e events)
  deliver-Routed info p d t h =
      let (a, b, c, f) =
        dispatch-Tracked p (counted d) (track_sequence queue peers channel p (counted d))
          (track-Tracked p (counted d)) in
      rw (deliver_packet queue peers channel info p (counted d) t h)
        (record { to_callback = a; to_queue = b; queue_full = c; to_log = f })

  -- With the publish gate open and no raw callback, a frame of the driver that the filters ask for
  -- and whose payload fits becomes a packet that carries it, and goes where the delivery
  -- mode says: to the user's function, to the end of the queue with a wake-up, to the drop
  -- count when the queue is full, or to the inline log.
  pub capture_csi_info-Routed :
      (m : Mac) (min : ℕ) (info : WifiCsiInfo) (d : Delivery Q M L)
      → Open m min d
      → IsInfo info
      → Wanted m min info
      → length info.buf ≤ csi_capacity
      → (p : CsiDataPacket) × Carries info p
        × (let (e, events) = capture_csi_info queue peers channel info d in Routed p d e events)
  capture_csi_info-Routed m min info d o v w h =
      let (fits, _) = from_wifi_csi_info_lem info v in
      let (p, e, c) = fits h in
      let (_, passes) = csi_passes_filter_iff m min d.gates info o.filters v.mac in
      (
        p,
        c,
        rw (capture_open queue peers channel info d o.no_raw o.published)
            (deliver-Routed info p d (passes w) e),
      )

  -- With the publish gate open and no raw callback, a frame that the filters do not ask for, or
  -- whose payload does not fit, is counted as received and as dropped, and nothing else happens.
  pub capture_csi_info-unwanted :
      (m : Mac) (min : ℕ) (info : WifiCsiInfo) (d : Delivery Q M L)
      → Open m min d
      → IsInfo info
      → ((Wanted m min info → ⊥) ⊎ (csi_capacity < length info.buf))
      → capture_csi_info queue peers channel info d ≡ (dropped (counted d), [])
  capture_csi_info-unwanted m min info d o v (inr h) =
      let (_, over) = from_wifi_csi_info_lem info v in
      capture_open queue peers channel info d o.no_raw o.published
      ∙ deliver_oversized queue peers channel info (counted d) (over h)
  capture_csi_info-unwanted m min info d o v (inl h) =
      let (wanted, _) = csi_passes_filter_iff m min d.gates info o.filters v.mac in
      capture_open queue peers channel info d o.no_raw o.published
      ∙ deliver_filtered queue peers channel info (counted d)
          (elim (Bool-cases (csi_passes_filter d.gates info)) [
            | inl t ↦ absurd (h (wanted t))
            | inr f ↦ f
          ])

  -- Turning the log off behind `set_csi_callback` silences the callback: the frames are counted,
  -- and the function that was just registered is not called.
  set_csi_logging_enabled-set_csi_callback :
      (cb : ℕ) (info : WifiCsiInfo) (d : Delivery Q M L)
      → d.csi_raw_callback ≡ none
      → (let late = record d {
        gates = set_csi_logging_enabled false (set_csi_callback cb d.gates);
      } in
          capture_csi_info queue peers channel info late ≡ (counted late, []))
  unfolding set_csi_logging_enabled set_csi_callback
  set_csi_logging_enabled-set_csi_callback cb info d h =
      capture_closed queue peers channel info
        (record d { gates = set_csi_logging_enabled false (set_csi_callback cb d.gates) }) h refl

  -- After `reset` a late frame is only counted where no raw callback was registered, and
  -- otherwise still reaches the raw callback.
  capture_csi_info-reset :
      (info : WifiCsiInfo) (d : Delivery Q M L)
      → (let late = record d { gates = reset d.gates } in
          (d.csi_raw_callback ≡ none
            → capture_csi_info queue peers channel info late ≡ (counted late, []))
          × ((cb : ℕ)
              → d.csi_raw_callback ≡ some cb
              → capture_csi_info queue peers channel info late
                ≡ (counted late, raw_callback cb ∷ [])))
  unfolding reset
  capture_csi_info-reset info d = (
    λ h. capture_closed queue peers channel info (record d { gates = reset d.gates }) h refl,
    λ cb h. capture_raw queue peers channel info (record d { gates = reset d.gates }) cb h,
  )
