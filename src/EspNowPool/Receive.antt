-- ===== src/EspNowPool/Receive.antt =====
-- What the queue holds after any arrivals.
use esp_csi_rs_core.Common.{
  ℕ, zero, suc, ◌≤◌, ◌≡◌, refl, sym, ap, ◌∙◌, false, List, [], ◌∷◌, ◌++◌, none, some, arith, length,
  take, length-append, take_of_length, append_assoc, append-nil, dec_lt, Option-cases, inl, inr,
}
use esp_csi_rs_core.Containers.{BoundedQueue}
use esp_csi_rs_core.EspNowPool.{PoolFrame, Received, Pool, accept_frame, guarded, pool_rcv_cb}

take-append : {A : Type 0} (n : ℕ) (xs ys : List A) → length xs ≡ n → take n (xs ++ ys) ≡ xs
take-append zero [] ys h = refl
take-append zero (x ∷ xs) ys h = absurd (omega arith)
take-append (suc n) [] ys h = absurd (omega arith)
take-append (suc n) (x ∷ xs) ys h = ap (◌∷◌ x) (take-append n xs ys (omega arith))

take-take-append :
    {A : Type 0} (n : ℕ) (xs ys : List A) → take n (take n xs ++ ys) ≡ take n (xs ++ ys)
take-take-append zero xs ys = refl
take-take-append (suc n) [] ys = refl
take-take-append (suc n) (x ∷ xs) ys = ap (◌∷◌ x) (take-take-append n xs ys)

module _ {Q : Type 0} (frames : BoundedQueue PoolFrame Q) where
  open frames use {capacity, to_list, enqueue_room, enqueue_full}

  -- The frames that the guards let through, in order.
  unfoldable pub arrivals : List Received → List PoolFrame
  arrivals [] = []
  arrivals (r ∷ rs) =
      let rest = arrivals rs in elim (guarded frames r) [ some f ↦ f ∷ rest | none ↦ rest ]

  unfoldable pub receive_all : List Received → Pool Q → Pool Q
  receive_all [] p = p
  receive_all (r ∷ rs) p = let (q, _) = pool_rcv_cb frames r p in receive_all rs q

  abbrev Held : Pool Q → List PoolFrame → Pool Q → Type 0
  Held p fs q =
      (q.raw_drop ≡ p.raw_drop)
      × (to_list q.queue ≡ take capacity (to_list p.queue ++ fs))
      × (length (to_list q.queue) ≤ capacity)

  accepts :
      (f : PoolFrame) (p : Pool Q)
      → length (to_list p.queue) ≤ capacity
      → (let (q, _) = accept_frame frames f p in Held p (f ∷ []) q)
  unfolding accept_frame
  accepts f p h = elim (dec_lt (length (to_list p.queue)) capacity) [
    | yes l ↦
        let (q, e, t) = enqueue_room f p.queue l in
        rw (accept_frame, e)
          (
            refl,
            t
                ∙ sym (
                    take_of_length capacity (to_list p.queue ++ (f ∷ []))
                      (omega (arith, length-append (to_list p.queue) (f ∷ [])))),
            omega (arith, ap length t, length-append (to_list p.queue) (f ∷ [])),
          )
    | no l ↦
        rw (accept_frame, enqueue_full f p.queue (omega arith))
          (refl, sym (take-append capacity (to_list p.queue) (f ∷ []) (omega arith)), h)
  ]

  callback_accepts :
      (r : Received) (f : PoolFrame) (p : Pool Q)
      → p.raw_drop ≡ false
      → guarded frames r ≡ some f
      → pool_rcv_cb frames r p ≡ accept_frame frames f p
  unfolding pool_rcv_cb
  callback_accepts r f p d g = simp (pool_rcv_cb, d, g)

  callback_ignores :
      (r : Received) (p : Pool Q)
      → p.raw_drop ≡ false
      → guarded frames r ≡ none
      → pool_rcv_cb frames r p ≡ (p, [])
  unfolding pool_rcv_cb
  callback_ignores r p d g = simp (pool_rcv_cb, d, g)

  arrivals_ignored :
      (r : Received) (rs : List Received)
      → guarded frames r ≡ none
      → arrivals (r ∷ rs) ≡ arrivals rs
  unfolding arrivals
  arrivals_ignored r rs e = simp (arrivals, e)

  arrivals_taken :
      (r : Received) (f : PoolFrame) (rs : List Received)
      → guarded frames r ≡ some f
      → arrivals (r ∷ rs) ≡ f ∷ arrivals rs
  unfolding arrivals
  arrivals_taken r f rs e = simp (arrivals, e)

  abbrev left_in : Pool Q → List PoolFrame
  left_in q = to_list q.queue

  -- With the raw-drop mode off and no more in the queue than it has room for: in any sequence of
  -- arrivals the queue keeps what it holds and takes the next frames in order until it is full,
  -- so the frames that a burst loses are the newest.
  pub receive_all_lem :
      (rs : List Received) (p : Pool Q)
      → p.raw_drop ≡ false
      → length (to_list p.queue) ≤ capacity
      → (let q = receive_all rs p in
          to_list q.queue ≡ take capacity (to_list p.queue ++ arrivals rs))
  unfolding receive_all arrivals
  receive_all_lem [] p d h = sym (
      ap (take capacity) (append-nil (to_list p.queue))
      ∙ take_of_length capacity (to_list p.queue) h)
  receive_all_lem (r ∷ rs) p d h = elim (Option-cases (guarded frames r)) [
    | inl e ↦
        ap (λ x. let (q, _) = x in left_in (receive_all rs q)) (callback_ignores r p d e)
        ∙ receive_all_lem rs p d h
        ∙ sym (ap (λ fs. take capacity (to_list p.queue ++ fs)) (arrivals_ignored r rs e))
    | inr (f, e) ↦
        let (s, t, l) = accepts f p h in
        ap (λ x. let (q, _) = x in left_in (receive_all rs q)) (callback_accepts r f p d e)
        ∙ receive_all_lem rs _ (s ∙ d) l
        ∙ ap (λ x. take capacity (x ++ arrivals rs)) t
        ∙ take-take-append capacity (to_list p.queue ++ (f ∷ [])) (arrivals rs)
        ∙ ap (take capacity) (append_assoc (to_list p.queue) (f ∷ []) (arrivals rs))
        ∙ sym (ap (λ fs. take capacity (to_list p.queue ++ fs)) (arrivals_taken r f rs e))
  ]
