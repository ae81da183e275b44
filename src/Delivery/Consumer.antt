-- ===== src/Delivery/Consumer.antt =====
-- `CSINodeClient::next_csi_packet`: the lazy switch to the asynchronous mode, the two looks at the
-- queue in a poll with the waker's registration between them, and the wake-up by the callback. A
-- frame can arrive between any two of these steps.
use esp_csi_rs_core.Common.{
  ℕ, ◌+◌, ◌≤◌, ◌<◌, ◌≡◌, refl, ap, ◌∙◌, Bool, true, false, List, [], ◌∷◌, ◌++◌, Option, none, some,
  arith, length, ◌==◌, if◌then◌else◌, Bool-cases, inl, inr,
}
use esp_csi_rs_core.Common.Mac.{Mac}
use esp_csi_rs_core.Containers.{BoundedQueue, BoundedMap}
use esp_csi_rs_core.Csi.{CsiDataPacket, WifiCsiInfo, csi_capacity}
use esp_csi_rs_core.Csi.Packet.{IsInfo, Carries}
use esp_csi_rs_core.Delivery.{
  Gates, Delivery, Event, raw_callback, user_callback, wake, writes, capture_csi_info,
}
use esp_csi_rs_core.Delivery.Filter.{Filters, Wanted}
use esp_csi_rs_core.Delivery.Route.{Routed, capture_csi_info-Routed}

-- The switch at the head of `next_csi_packet`.
unfoldable pub lazy_init : Gates → Gates
lazy_init g =
    if g.csi_delivery_mode == 0
    then record g { csi_delivery_mode = 2; csi_publish_enabled = true }
    else g

lazy_init_off :
    (g : Gates)
    → g.csi_delivery_mode ≡ 0
    → lazy_init g ≡ record g { csi_delivery_mode = 2; csi_publish_enabled = true }
unfolding lazy_init
lazy_init_off g h = simp (lazy_init, h)

-- Whether a call of the callback wakes the consumer.
unfoldable pub wakes : List Event → Bool
wakes [] = false
wakes (raw_callback f ∷ es) = wakes es
wakes (user_callback f p ∷ es) = wakes es
wakes (wake ∷ es) = true
wakes (writes w ∷ es) = wakes es

-- The consumer's task beside the delivery: whether `CSI_WAKER` holds its waker, and how often it
-- was woken.
pub record Consumer (Q M L : Type 0) : Type 0 where
  pub delivery : Delivery Q M L
  pub open delivery use *
  pub registered : Bool
  pub wake_ups : ℕ

-- A call of `next_csi_packet` up to its first poll.
unfoldable pub begin : {Q M L : Type 0} → Consumer Q M L → Consumer Q M L
unfolding lazy_init
begin c = let d = c.delivery in record c { delivery = record d { gates = lazy_init d.gates } }

unfoldable pub register : {Q M L : Type 0} → Consumer Q M L → Consumer Q M L
register c = record c { registered = true }

-- `AtomicWaker::wake`: takes the waker out and wakes its task.
unfoldable pub wake_consumer : {Q M L : Type 0} → Consumer Q M L → Consumer Q M L
wake_consumer c =
    if c.registered then record c { registered = false; wake_ups = c.wake_ups + 1 } else c

module _ {Q M L : Type 0} (queue : BoundedQueue CsiDataPacket Q) (peers : BoundedMap Mac ℕ M)
    (channel : BoundedQueue CsiDataPacket L) where
  open queue use {capacity, to_list, dequeue, dequeue_first, dequeue_empty}

  -- One `CSI_QUEUE.dequeue()`.
  unfoldable pub look : Consumer Q M L → Option CsiDataPacket × Consumer Q M L
  look c =
      let d = c.delivery in
      elim (dequeue d.csi_queue) [
        | some (p, q) ↦ (some p, record c { delivery = record d { csi_queue = q } })
        | none ↦ (none, c)
      ]

  -- One poll of the future: a packet, or pending with the waker registered.
  unfoldable pub poll : Consumer Q M L → Option CsiDataPacket × Consumer Q M L
  unfolding look register
  poll c = let (o, d) = look c in elim o [ some p ↦ (some p, d) | none ↦ look (register d) ]

  -- A frame arrives in the WiFi task.
  unfoldable pub arrive : WifiCsiInfo → Consumer Q M L → Consumer Q M L
  unfolding wakes wake_consumer
  arrive info c =
      let (d, events) = capture_csi_info queue peers channel info c.delivery in
      let after = record c { delivery = d } in if wakes events then wake_consumer after else after

  look_first :
      (p : CsiDataPacket) (c : Consumer Q M L)
      → to_list c.csi_queue ≡ p ∷ []
      → (let (o, _) = look c in o ≡ some p)
  unfolding look
  look_first p c h = let (q, e, _) = dequeue_first p [] c.csi_queue h in rw (look, e) refl

  look-none : (c : Consumer Q M L) → to_list c.csi_queue ≡ [] → look c ≡ (none, c)
  unfolding look
  look-none c h = rw (look, dequeue_empty c.csi_queue h) refl

  poll_first :
      (p : CsiDataPacket) (c : Consumer Q M L)
      → to_list c.csi_queue ≡ p ∷ []
      → (let (o, _) = poll c in o ≡ some p)
  unfolding poll look
  poll_first p c h = let (q, e, _) = dequeue_first p [] c.csi_queue h in rw (poll, e) refl

  poll-none : (c : Consumer Q M L) → to_list c.csi_queue ≡ [] → poll c ≡ (none, register c)
  unfolding poll look register
  poll-none c h =
      ap (λ x. let (o, d) = x in elim o [ some p ↦ (some p, d) | none ↦ look (register d) ])
        (look-none c h)
      ∙ look-none (register c) h

  -- A frame whose callback wakes the consumer and leaves one packet in the queue.
  record Lands (info : WifiCsiInfo) (p : CsiDataPacket) (d : Delivery Q M L) : Type 0 where
    wakens : (let (_, events) = capture_csi_info queue peers channel info d in events ≡ wake ∷ [])
    queued :
        (let (e, _) = capture_csi_info queue peers channel info d in to_list e.csi_queue ≡ p ∷ [])

  wake_consumer-delivery : (c : Consumer Q M L) → (wake_consumer c).delivery ≡ c.delivery
  unfolding wake_consumer
  wake_consumer-delivery c = elim (Bool-cases c.registered) [
    | inl t ↦ rw (wake_consumer, t) refl
    | inr f ↦ rw (wake_consumer, f) refl
  ]

  Lands-arrive :
      (info : WifiCsiInfo) (p : CsiDataPacket) (c : Consumer Q M L)
      → Lands info p c.delivery
      → (let (e, _) = capture_csi_info queue peers channel info c.delivery in
          arrive info c ≡ wake_consumer (record c { delivery = e }))
  unfolding arrive wakes
  Lands-arrive info p c l =
      let (e, _) = capture_csi_info queue peers channel info c.delivery in
      let after = record c { delivery = e } in
      ap (λ es. if wakes es then wake_consumer after else after) l.wakens

  Lands-queued :
      (info : WifiCsiInfo) (p : CsiDataPacket) (c : Consumer Q M L)
      → Lands info p c.delivery
      → (let e = arrive info c in to_list e.csi_queue ≡ p ∷ [])
  Lands-queued info p c l =
      let (e, _) = capture_csi_info queue peers channel info c.delivery in
      ap (λ (a : Consumer Q M L). to_list a.csi_queue) (Lands-arrive info p c l)
      ∙ ap (λ (d : Delivery Q M L). to_list d.csi_queue)
          (wake_consumer-delivery (record c { delivery = e }))
      ∙ l.queued

  Lands-wake_ups :
      (info : WifiCsiInfo) (p : CsiDataPacket) (c : Consumer Q M L)
      → Lands info p c.delivery
      → c.registered ≡ true
      → (arrive info c).wake_ups ≡ c.wake_ups + 1
  unfolding wake_consumer
  Lands-wake_ups info p c l h =
      let (e, _) = capture_csi_info queue peers channel info c.delivery in
      ap (λ (a : Consumer Q M L). a.wake_ups) (Lands-arrive info p c l)
      ∙ ap
          (λ b.
            let after : Consumer Q M L =
              if b
              then record c { delivery = e; registered = false; wake_ups = c.wake_ups + 1 }
              else record c { delivery = e } in
            after.wake_ups)
          h

  Routed-Lands :
      (info : WifiCsiInfo) (p : CsiDataPacket) (d : Delivery Q M L)
      → (let (e, events) = capture_csi_info queue peers channel info d in
          Routed queue peers channel p d e events)
      → d.csi_delivery_mode ≡ 2
      → to_list d.csi_queue ≡ []
      → 0 < capacity
      → Lands info p d
  Routed-Lands info p d r mode vacant room =
      let (woken, queued) = r.to_queue mode (omega (arith, ap length vacant)) in
      record { wakens = woken; queued = queued ∙ ap (λ l. l ++ (p ∷ [])) vacant }

  -- What a frame that lands does to a waiting consumer, at each point of its polls.
  abbrev pub Awaited : WifiCsiInfo → CsiDataPacket → Consumer Q M L → Type 0
  Awaited info p start =
      let (first, parked) = poll start in
      let (looked, _) = look start in
      let (later, _) = poll (arrive info parked) in
      let (before_register, _) = look (register (arrive info start)) in
      let (after_register, _) = look (arrive info (register start)) in
      ((first ≡ none)
        × (parked.registered ≡ true)
        × ((arrive info parked).wake_ups ≡ start.wake_ups + 1)
        × (later ≡ some p))
      × ((looked ≡ none) × (before_register ≡ some p) × (after_register ≡ some p))

  Lands-Awaited :
      (info : WifiCsiInfo) (p : CsiDataPacket) (start : Consumer Q M L)
      → to_list start.csi_queue ≡ []
      → Lands info p start.delivery
      → Awaited info p start
  unfolding register
  Lands-Awaited info p start vacant l =
      let parks = poll-none start vacant in
      (
        (
          ap (λ x. let (o, _) = x in o) parks,
          ap (λ x. let (_, e) = x in let c : Consumer Q M L = e in c.registered) parks,
          ap (λ x. let (_, c) = x in (arrive info c).wake_ups) parks
              ∙ Lands-wake_ups info p (register start) l refl,
          ap (λ x. let (_, c) = x in let (o, _) = poll (arrive info c) in o) parks
              ∙ poll_first p (arrive info (register start))
                  (Lands-queued info p (register start) l),
        ),
        (
          ap (λ x. let (o, _) = x in o) (look-none start vacant),
          look_first p (register (arrive info start)) (Lands-queued info p start l),
          look_first p (arrive info (register start)) (Lands-queued info p (register start) l),
        ),
      )

  -- With no raw callback and an empty queue, a consumer that awaits a packet while delivery is off
  -- gets the next wanted frame whose payload fits, whenever it arrives: the call opens the gates, and its first poll registers the waker and is
  -- pending; a frame then wakes the consumer, once, and its next poll returns a packet that carries
  -- the frame. A frame that arrives within the first poll, behind its first look at the queue
  -- and before or behind the registration, is what its second look returns.
  pub poll-capture_csi_info :
      (m : Mac) (min : ℕ) (info : WifiCsiInfo) (c : Consumer Q M L)
      → Filters m min c.gates
      → c.csi_raw_callback ≡ none
      → c.csi_delivery_mode ≡ 0
      → to_list c.csi_queue ≡ []
      → 0 < capacity
      → IsInfo info
      → Wanted m min info
      → length info.buf ≤ csi_capacity
      → (p : CsiDataPacket) × Carries info p × Awaited info p (begin c)
  unfolding begin
  poll-capture_csi_info m min info c f r off vacant room v w h =
      let d = c.delivery in
      let opened = record d {
        gates = record (d.gates) { csi_delivery_mode = 2; csi_publish_enabled = true };
      } in
      let (p, carries, routed) =
        capture_csi_info-Routed queue peers channel m min info opened
          (record {
            no_raw = r;
            published = refl;
            filters = record {
              valid = f.valid;
              peer = f.peer;
              sig_mode = f.sig_mode;
              active = f.active;
            };
          })
          v w h in
      let lands = Routed-Lands info p opened routed refl vacant room in
      (
        p,
        carries,
        rw (lazy_init_off d.gates off)
            (Lands-Awaited info p (record c { delivery = opened }) vacant lands),
      )
