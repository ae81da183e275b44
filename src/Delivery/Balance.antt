-- ===== src/Delivery/Balance.antt =====
-- The books of the asynchronous path: every captured frame is read, waits in the queue, or is
-- counted as dropped.
use esp_csi_rs_core.Common.{
  ℕ, ◌+◌, ◌%◌, ◌^◌, ◌≡◌, refl, ap, true, false, List, [], ◌∷◌, ◌++◌, none, some, arith, length,
  length-append, Option-cases, Bool-cases, inl, inr, dec_lt,
}
use esp_csi_rs_core.Common.Mac.{Mac}
use esp_csi_rs_core.Containers.{BoundedQueue, BoundedMap}
use esp_csi_rs_core.Csi.{CsiDataPacket, WifiCsiInfo, from_wifi_csi_info}
use esp_csi_rs_core.Stats.{record_collector_rx, record_collector_rx_drop, add_rx_drops}
use esp_csi_rs_core.Delivery.{
  Delivery, csi_passes_filter, track_sequence, dispatch, deliver, capture_csi_info,
}
use esp_csi_rs_core.Delivery.Capture.{
  counted, dropped, capture_open, deliver_filtered, deliver_oversized, deliver_packet,
  dispatch_async_room, dispatch_async_full,
}

-- A frame arrives, or the consumer takes a packet.
pub data Turn : Type 0 where
  arrives : WifiCsiInfo → Turn
  reads : Turn

module _ {Q M L : Type 0} (queue : BoundedQueue CsiDataPacket Q) (peers : BoundedMap Mac ℕ M)
    (channel : BoundedQueue CsiDataPacket L) where
  open queue use {
    capacity, to_list, enqueue, dequeue, enqueue_room, enqueue_full, dequeue_empty, dequeue_first,
  }

  -- The state, and the number of packets that the consumer has taken.
  unfoldable pub turn : Turn → Delivery Q M L × ℕ → Delivery Q M L × ℕ
  turn (arrives info) (d, n) = let (e, _) = capture_csi_info queue peers channel info d in (e, n)
  turn reads (d, n) = elim (dequeue d.csi_queue) [
    | none ↦ (d, n)
    | some (p, q) ↦ (record d { csi_queue = q }, n + 1)
  ]

  unfoldable pub turns : List Turn → Delivery Q M L × ℕ → Delivery Q M L × ℕ
  turns [] s = s
  turns (t ∷ ts) s = turns ts (turn t s)

  -- The callback queues packets for the consumer, and does not guess losses from sequence numbers.
  pub record Streaming (d : Delivery Q M L) : Type 0 where
    pub no_raw : d.csi_raw_callback ≡ none
    pub published : d.csi_publish_enabled ≡ true
    pub async : d.csi_delivery_mode ≡ 2
    pub no_tracking : d.stats.seq_drop_detection_enabled ≡ false

  -- The counters as they stand, modulo the width of the drop counter.
  abbrev pub Sums : Delivery Q M L × ℕ → Type 0
  Sums (d, n) =
      (d.stats.rx_drop_count + length (to_list d.csi_queue) + n) % 2 ^ 32
      ≡ d.stats.rx_count % 2 ^ 32

  pub record Balanced (s : Delivery Q M L × ℕ) : Type 0 where
    pub sums : Sums s

  abbrev Books : Delivery Q M L × ℕ → Type 0
  Books (d, n) = Streaming d × Sums (d, n)

  untracked :
      (p : CsiDataPacket) (d : Delivery Q M L)
      → d.stats.seq_drop_detection_enabled ≡ false
      → track_sequence queue peers channel p d ≡ d
  unfolding track_sequence
  untracked p d h = rw h refl

  counted-dropped : (d : Delivery Q M L) (n : ℕ) → Books (d, n) → Books (dropped (counted d), n)
  unfolding record_collector_rx record_collector_rx_drop add_rx_drops
  counted-dropped d n (s, b) = (
    record {
      no_raw = s.no_raw;
      published = s.published;
      async = s.async;
      no_tracking = s.no_tracking;
    },
    omega arith,
  )

  counted_queued :
      (p : CsiDataPacket) (q : Q) (d : Delivery Q M L) (n : ℕ)
      → Books (d, n)
      → to_list q ≡ to_list d.csi_queue ++ (p ∷ [])
      → Books (record (counted d) { csi_queue = q }, n)
  unfolding record_collector_rx
  counted_queued p q d n (s, b) e = (
    record {
      no_raw = s.no_raw;
      published = s.published;
      async = s.async;
      no_tracking = s.no_tracking;
    },
    omega (arith, length-append (to_list d.csi_queue) (p ∷ []), ap length e),
  )

  dispatch-Books :
      (p : CsiDataPacket) (d : Delivery Q M L) (n : ℕ)
      → Books (d, n)
      → Books (let (e, _) = dispatch queue peers channel p (counted d) in e, n)
  dispatch-Books p d n (s, b) = elim (dec_lt (length (to_list d.csi_queue)) capacity) [
    | yes h ↦
        let (q, e, t) = enqueue_room p d.csi_queue h in
        rw (dispatch_async_room queue peers channel p (counted d) q s.async e)
          (counted_queued p q d n (s, b) t)
    | no h ↦
        rw
          (dispatch_async_full queue peers channel p (counted d) s.async
            (enqueue_full p d.csi_queue (omega arith)))
          (counted-dropped d n (s, b))
  ]

  deliver-Books :
      (info : WifiCsiInfo) (d : Delivery Q M L) (n : ℕ)
      → Books (d, n)
      → Books (let (e, _) = deliver queue peers channel info (counted d) in e, n)
  unfolding record_collector_rx
  deliver-Books info d n (s, b) = elim (Bool-cases (csi_passes_filter d.gates info)) [
    | inr f ↦
        rw (deliver_filtered queue peers channel info (counted d) f) (counted-dropped d n (s, b))
    | inl t ↦ elim (Option-cases (from_wifi_csi_info info)) [
      | inl e ↦
          rw (deliver_oversized queue peers channel info (counted d) e) (counted-dropped d n (s, b))
      | inr (p, e) ↦
          rw
            (
              deliver_packet queue peers channel info p (counted d) t e,
              untracked p (counted d) s.no_tracking,
            )
            (dispatch-Books p d n (s, b))
    ]
  ]

  reads-Books :
      (waiting : List CsiDataPacket) (d : Delivery Q M L) (n : ℕ)
      → to_list d.csi_queue ≡ waiting
      → Books (d, n)
      → Books (turn reads (d, n))
  unfolding turn
  reads-Books [] d n e b = rw (turn, dequeue_empty d.csi_queue e) b
  reads-Books (p ∷ rest) d n e (s, b) =
      let (q, taken, left) = dequeue_first p rest d.csi_queue e in
      rw (turn, taken)
        (
          record {
            no_raw = s.no_raw;
            published = s.published;
            async = s.async;
            no_tracking = s.no_tracking;
          },
          omega (arith, ap length e, ap length left),
        )

  turn-Books : (t : Turn) (d : Delivery Q M L) (n : ℕ) → Books (d, n) → Books (turn t (d, n))
  unfolding turn
  turn-Books (arrives info) d n (s, b) =
      rw (capture_open queue peers channel info d s.no_raw s.published)
        (deliver-Books info d n (s, b))
  turn-Books reads d n b = reads-Books (to_list d.csi_queue) d n refl b

  turns-Books : (ts : List Turn) (s : Delivery Q M L × ℕ) → Books s → Books (turns ts s)
  unfolding turns
  turns-Books [] s b = b
  turns-Books (t ∷ ts) (d, n) b = turns-Books ts (turn t (d, n)) (turn-Books t d n b)

  -- While packets go to the queue and sequence numbers are not tracked, any interleaving of frames
  -- and reads keeps the books balanced: modulo the width of the drop counter, the
  -- frames received are those dropped, those waiting and those read.
  pub turns-Balanced :
      (ts : List Turn) (d : Delivery Q M L) (n : ℕ)
      → Streaming d
      → Balanced (d, n)
      → Balanced (turns ts (d, n))
  turns-Balanced ts d n s b = let (_, c) = turns-Books ts (d, n) (s, b.sums) in record { sums = c }
