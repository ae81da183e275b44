-- ===== src/FastEspNow/Collecting.antt =====
-- The collector's queue behind a wake-up.
use esp_csi_rs_core.Common.{
  ℕ, zero, suc, ◌≤◌, ◌≡◌, refl, ap, List, [], ◌∷◌, none, some, arith, length,
}
use esp_csi_rs_core.Containers.{BoundedQueue}
use esp_csi_rs_core.EspNowPool.{PoolFrame, Pool, receive}
use esp_csi_rs_core.FastEspNow.{drain, collect_wake}

module _ {Q : Type 0} (frames : BoundedQueue PoolFrame Q) where
  abbrev waiting : Pool Q → List PoolFrame
  waiting p = let f : BoundedQueue PoolFrame Q = frames in f.to_list p.queue

  receive_empty : (p : Pool Q) → waiting p ≡ [] → receive frames p ≡ none
  unfolding receive
  receive_empty p h = rw (receive, frames.dequeue_empty p.queue h) refl

  receive_first :
      (f : PoolFrame) (fs : List PoolFrame) (p : Pool Q)
      → waiting p ≡ f ∷ fs
      → (q : Pool Q) × (receive frames p ≡ some (f, q)) × (waiting q ≡ fs)
  unfolding receive
  receive_first f fs p h =
      let (q, e, l) = frames.dequeue_first f fs p.queue h in
      (record p { queue = q }, rw (receive, e) refl, l)

  drained :
      (left : ℕ) (fs : List PoolFrame) (p : Pool Q)
      → waiting p ≡ fs
      → length fs ≤ left
      → waiting (drain frames left p) ≡ []
  unfolding drain
  drained zero [] p h l = h
  drained zero (f ∷ fs) p h l = absurd (omega arith)
  drained (suc left) [] p h l = rw (drain, receive_empty p h) h
  drained (suc left) (f ∷ fs) p h l =
      let (q, e, w) = receive_first f fs p h in rw (drain, e) (drained left fs q w (omega arith))

  -- With at most 65 frames waiting, as in a pool of 16 or 32, a wake-up of the collector leaves the
  -- queue empty.
  collect_wake-empty :
      (p : Pool Q)
      → length (frames.to_list p.queue) ≤ 65
      → frames.to_list (collect_wake frames p).queue ≡ []
  unfolding collect_wake
  collect_wake-empty p h = taken (waiting p) refl
    where
      taken : (fs : List PoolFrame) → waiting p ≡ fs → waiting (collect_wake frames p) ≡ []
      taken [] e = rw (collect_wake, receive_empty p e) e
      taken (f ∷ fs) e =
          let (q, r, w) = receive_first f fs p e in
          rw (collect_wake, r) (drained 64 fs q w (omega (arith, ap length e, h)))
