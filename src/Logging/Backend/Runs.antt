-- ===== src/Logging/Backend/Runs.antt =====
-- Runs of the backend between producers that log, and its run when nothing more is logged.
use esp_csi_rs_core.Common.{
  ℕ, zero, suc, ◌≤◌, ◌≡◌, refl, sym, ap, ◌∙◌, Bool, true, List, [], ◌∷◌, ◌++◌, append-nil, Option,
  some, arith, length, ◌>>=◌, All, replicate,
}
use esp_csi_rs_core.Containers.{BoundedQueue}
use esp_csi_rs_core.Csi.{CsiDataPacket}
use esp_csi_rs_core.Logging.{LogMode, Role, log_csi}
use esp_csi_rs_core.Logging.ArrayList.Pieces.{join_pieces}
use esp_csi_rs_core.Logging.Backend.{
  Backend, Event, log_packet, log_message, set_mode, backend, log_record, happen, run,
}
use esp_csi_rs_core.Logging.Backend.Writes.{printed, spoken}
use esp_csi_rs_core.Logging.Backend.Channels.{
  Kept, none_left, logged, said, logged_by, said_by, Fine, Steady, Delivered, Delivered-append,
  moved, log_packet-Delivered, Steady-channel, log_message-Delivered, waiting, unsaid, texts,
  due_of, pending, ahead,
}
use esp_csi_rs_core.Logging.Backend.Accounting.{logger_backend-Stepped}

Kept-nothing : {A : Type 0} {n : ℕ} {ys : List A} → Kept n [] ys → ys ≡ []
Kept-nothing none_left = refl

empty_of : {A : Type 0} (xs : List A) → length xs ≤ 0 → xs ≡ []
empty_of [] h = refl
empty_of (x ∷ xs) h = absurd (omega arith)

module _ {L T : Type 0} (takes : ℕ → Bool) (packets : BoundedQueue CsiDataPacket L)
    (messages : BoundedQueue (List ℕ) T) (to_slice_cobs : CsiDataPacket → Option (List ℕ))
    (mode : LogMode) (role : Role) (cap : ℕ) (all : (n : ℕ) → takes n ≡ true) where
  happen-Delivered :
      (e : Event) (s : Backend L T)
      → Fine e
      → Steady packets messages to_slice_cobs mode role cap s
      → (t : Backend L T) × (happen takes packets messages to_slice_cobs e s ≡ some t)
        × Steady packets messages to_slice_cobs mode role cap t
        × Delivered packets messages to_slice_cobs mode role cap (logged_by e) (said_by e) s t
  unfolding happen
  happen-Delivered (log_packet p) s h v =
      let (w, d) = log_packet-Delivered packets messages to_slice_cobs mode role cap p s v h in
      (record s { logger = (log_csi packets p s.logger).0 }, refl, w, d)
  happen-Delivered (log_message level args) s h v =
      let t = log_record messages level args s.log_channel in
      (
        record s { log_channel = t },
        refl,
        Steady-channel packets messages to_slice_cobs mode role cap s t v,
        log_message-Delivered packets messages to_slice_cobs mode role cap level args s,
      )
  happen-Delivered (set_mode m) s h v = absurd h
  happen-Delivered (backend scratch) s h v =
      let (t, k) =
        logger_backend-Stepped takes packets messages to_slice_cobs mode role cap all scratch s v
          h in
      let (w, d) = k.quiet in (t, k.runs, w, d)

  -- While the asynchronous path is on and the mode stays, whichever of the four it is, with a
  -- transport that takes every write: in whatever order well-formed packets and messages are logged
  -- between the steps of the backend, no formatter panics; what is written for packets, with what
  -- waits, grows by the texts of the packets accepted, in the order they were logged; each packet
  -- that is not accepted is counted as dropped, modulo 2^32; and what is written for messages, with
  -- what waits, grows by the accepted ones in their order. Where all that is logged fits a channel
  -- with what waits in it, all is accepted. The header line comes once, before the first packet
  -- where it is due.
  pub run-Delivered :
      (es : List Event) (s : Backend L T)
      → All Fine es
      → Steady packets messages to_slice_cobs mode role cap s
      → (t : Backend L T) × (run takes packets messages to_slice_cobs es s ≡ some t)
        × Steady packets messages to_slice_cobs mode role cap t
        × Delivered packets messages to_slice_cobs mode role cap (logged es) (said es) s t
  unfolding run
  run-Delivered [] s fine v = (
    s,
    refl,
    v,
    moved packets messages to_slice_cobs mode role cap s s (omega arith) (omega arith) refl refl
        refl,
  )
  run-Delivered (e ∷ es) s (h, hs) v =
      let (t, f, w, d) = happen-Delivered e s h v in
      let (u, g, x, r) = run-Delivered es t hs w in
      (
        u,
        ap (λ o. o >>= run takes packets messages to_slice_cobs es) f ∙ g,
        x,
        Delivered-append packets messages to_slice_cobs mode role cap (logged_by e) (logged es)
            (said_by e) (said es) s t u d r,
      )

  quiet_out :
      (s t : Backend L T)
      → Delivered packets messages to_slice_cobs mode role cap [] [] s t
      → (printed t.out ++ pending packets messages to_slice_cobs mode role cap t
          ≡ printed s.out ++ pending packets messages to_slice_cobs mode role cap s)
        × (spoken t.out ++ join_pieces (unsaid packets messages to_slice_cobs mode role cap t)
            ≡ spoken s.out ++ join_pieces (unsaid packets messages to_slice_cobs mode role cap s))
  quiet_out s t d =
      let before : List ℕ =
        printed s.out ++ pending packets messages to_slice_cobs mode role cap s in
      let said_before : List ℕ =
        spoken s.out ++ join_pieces (unsaid packets messages to_slice_cobs mode role cap s) in
      (
        d.printed
            ∙ ap (λ ps. before ++ texts packets messages to_slice_cobs mode role cap ps)
                (Kept-nothing d.kept)
            ∙ append-nil before,
        d.spoken
            ∙ ap (λ ms. said_before ++ join_pieces ms) (Kept-nothing d.kept_messages)
            ∙ append-nil said_before,
      )

  -- On the asynchronous path, in one log mode, with well-formed packets, a transport that takes
  -- every write and a scratch of 3328 bytes: when nothing more is logged, twice as many steps as
  -- there are packets and messages waiting, and one more behind a packet or a message, write all
  -- that waits: the texts of the packets in the mode set, behind the header line where it is due,
  -- and the messages, each in their order.
  pub run-ahead :
      (scratch : List ℕ) (n : ℕ) (s : Backend L T)
      → Steady packets messages to_slice_cobs mode role cap s
      → length scratch ≡ 3328
      → ahead packets messages to_slice_cobs mode role cap s ≤ n
      → (t : Backend L T) × (run takes packets messages to_slice_cobs
            (replicate n (backend scratch))
            s
          ≡ some t)
        × (printed t.out ++ due_of packets messages to_slice_cobs mode role cap t
            ≡ printed s.out ++ pending packets messages to_slice_cobs mode role cap s)
        × (spoken t.out
            ≡ spoken s.out ++ join_pieces (unsaid packets messages to_slice_cobs mode role cap s))
  unfolding run happen
  run-ahead scratch zero s v room h =
      let none_waits =
        empty_of (waiting packets messages to_slice_cobs mode role cap s) (omega (arith, h)) in
      let none_said =
        empty_of (unsaid packets messages to_slice_cobs mode role cap s) (omega (arith, h)) in
      (
        s,
        refl,
        sym (
            ap
              (λ ps.
                printed s.out
                ++ (due_of packets messages to_slice_cobs mode role cap s
                    ++ texts packets messages to_slice_cobs mode role cap ps))
              none_waits
            ∙ ap (λ d. printed s.out ++ d)
                (append-nil (due_of packets messages to_slice_cobs mode role cap s))),
        sym (ap (λ ms. spoken s.out ++ join_pieces ms) none_said ∙ append-nil (spoken s.out)),
      )
  run-ahead scratch (suc n) s v room h =
      let (t, k) =
        logger_backend-Stepped takes packets messages to_slice_cobs mode role cap all scratch s v
          room in
      let (w, d) = k.quiet in
      let (p, m) = quiet_out s t d in
      let (u, f, q, r) = run-ahead scratch n t w room (omega (arith, h, k.nearer)) in
      (
        u,
        ap (λ o. o >>= run takes packets messages to_slice_cobs (replicate n (backend scratch)))
              k.runs
            ∙ f,
        q ∙ p,
        r ∙ m,
      )
