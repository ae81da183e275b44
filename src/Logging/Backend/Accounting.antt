-- ===== src/Logging/Backend/Accounting.antt =====
-- Every run of the backend, with what is logged before each of its steps.
use esp_csi_rs_core.Common.{
  ℕ, ◌-◌, ◌≤◌, ◌≡◌, refl, sym, ap, ap₂, ◌∙◌, Bool, true, List, [], ◌∷◌, ◌++◌, append_assoc,
  append-nil, Option, some, arith, length, All, subst,
}
use esp_csi_rs_core.Containers.{BoundedQueue}
use esp_csi_rs_core.Csi.{CsiDataPacket}
use esp_csi_rs_core.Csi.Packet.{IsPacket}
use esp_csi_rs_core.Logging.{
  LogMode, text, serialized, array_list, esp_csi_tool, Role, role_from, log_mode_from, Logger,
}
use esp_csi_rs_core.Logging.ArrayList.Pieces.{join_pieces}
use esp_csi_rs_core.Logging.Backend.{
  flushed, Phase, selecting, draining, flushing, Backend, channel_of, write_all, write_packet,
  select, drain, flush, logger_backend,
}
use esp_csi_rs_core.Logging.Backend.Writes.{
  printed, spoken, printed-append, spoken-append, packet_text, write_all-Adds, write_packet-Adds,
  header_due, marked,
}
use esp_csi_rs_core.Logging.Backend.Channels.{
  Steady, Delivered, moved, waiting, unsaid, texts, ahead, busy,
}

module _ {L : Type 0} where
  same_channel :
      (m : LogMode) (l : Logger L) → (let k = marked m l in k.csi_channel) ≡ l.csi_channel
  same_channel text l = refl
  same_channel serialized l = refl
  same_channel array_list l = refl
  same_channel esp_csi_tool l = refl

  same_drops :
      (m : LogMode) (l : Logger L)
      → (let k = marked m l in k.log_dropped_packets) ≡ l.log_dropped_packets
  same_drops text l = refl
  same_drops serialized l = refl
  same_drops array_list l = refl
  same_drops esp_csi_tool l = refl

  none_due_behind :
      (m : LogMode) (l : Logger L)
      → header_due m (let k = marked m l in k.esp_csi_tool_header_printed) ≡ []
  none_due_behind text l = refl
  none_due_behind serialized l = refl
  none_due_behind array_list l = refl
  none_due_behind esp_csi_tool l = refl

module _ {L T : Type 0} (takes : ℕ → Bool) (packets : BoundedQueue CsiDataPacket L)
    (messages : BoundedQueue (List ℕ) T) (to_slice_cobs : CsiDataPacket → Option (List ℕ))
    (mode : LogMode) (role : Role) (cap : ℕ) (all : (n : ℕ) → takes n ≡ true) where
  abbrev IsSteady : Backend L T → Type 0
  IsSteady b = Steady packets messages to_slice_cobs mode role cap b

  abbrev Quiet : Backend L T → Backend L T → Type 0
  Quiet s t = IsSteady t × Delivered packets messages to_slice_cobs mode role cap [] [] s t

  abbrev still_waiting : Backend L T → List CsiDataPacket
  still_waiting b = waiting packets messages to_slice_cobs mode role cap b

  abbrev still_unsaid : Backend L T → List (List ℕ)
  still_unsaid b = unsaid packets messages to_slice_cobs mode role cap b

  abbrev texts_of : List CsiDataPacket → List ℕ
  texts_of ps = texts packets messages to_slice_cobs mode role cap ps

  abbrev text_of : CsiDataPacket → List ℕ
  text_of p = packet_text to_slice_cobs mode role cap p

  abbrev pending_of : Logger L → List ℕ
  pending_of l =
      header_due mode l.esp_csi_tool_header_printed
      ++ texts_of (BoundedQueue.to_list packets l.csi_channel)

  Steady-logger : (s t : Backend L T) → t.logger ≡ s.logger → IsSteady s → IsSteady t
  Steady-logger s t e v = record {
    active = ap (λ l. let m : Logger L = l in m.async_log_active) e ∙ v.active;
    in_mode = ap (λ l. let m : Logger L = l in log_mode_from m.log_mode) e ∙ v.in_mode;
    in_role = ap (λ l. let m : Logger L = l in role_from m.role) e ∙ v.in_role;
    capped = ap (λ l. let m : Logger L = l in m.csi_tool_emit_cap) e ∙ v.capped;
    well_formed =
        subst
          (λ l. All IsPacket (BoundedQueue.to_list packets (let m : Logger L = l in m.csi_channel)))
          (sym e) v.well_formed;
  }

  -- A message that is taken off the channel is written.
  message_taken :
      (s : Backend L T) (ph : Phase) (m : List ℕ) (rest : List (List ℕ)) (t : T)
      → IsSteady s
      → still_unsaid s ≡ m ∷ rest
      → BoundedQueue.to_list messages t ≡ rest
      → (let c = write_all takes m (record s { log_channel = t; phase = ph }) in
          Quiet s c
          × (c.phase ≡ ph)
          × (still_waiting c ≡ still_waiting s)
          × (still_unsaid c ≡ rest))
  message_taken s ph m rest t v e l =
      let b : Backend L T = record s { log_channel = t; phase = ph } in
      let a = write_all-Adds takes all m b in
      let c : Backend L T = write_all takes m b in
      let queued = ap (BoundedQueue.to_list messages) a.log_channel ∙ l in
      let left =
        ap (λ l. BoundedQueue.to_list packets (let k : Logger L = l in k.csi_channel)) a.logger in
      (
        (
          Steady-logger s c a.logger v,
          moved packets messages to_slice_cobs mode role cap s c (omega (arith, ap length left))
              (omega (arith, ap length queued, ap length e))
              (ap (λ l. let k : Logger L = l in k.log_dropped_packets) a.logger)
              (ap₂ (λ x l. x ++ pending_of l) (a.printed ∙ append-nil (printed s.out)) a.logger)
              (ap₂ (λ x w. x ++ join_pieces w) a.spoken queued
                ∙ append_assoc (spoken s.out) m (join_pieces rest)
                ∙ ap (λ w. spoken s.out ++ join_pieces w) (sym e)),
        ),
        a.phase,
        left,
        queued,
      )

  Steady-marked :
      (b : Backend L T) (m : LogMode)
      → IsSteady b
      → IsSteady (record b { logger = marked m b.logger })
  Steady-marked b text v = v
  Steady-marked b serialized v = v
  Steady-marked b array_list v = v
  Steady-marked b esp_csi_tool v = record {
    active = v.active;
    in_mode = v.in_mode;
    in_role = v.in_role;
    capped = v.capped;
    well_formed = v.well_formed;
  }

  -- A packet that is taken off the channel is written in the mode set.
  packet_taken :
      (s : Backend L T) (p : CsiDataPacket) (rest : List CsiDataPacket) (q : L) (scratch : List ℕ)
      → IsSteady s
      → still_waiting s ≡ p ∷ rest
      → BoundedQueue.to_list packets q ≡ rest
      → length scratch ≡ 3328
      → (t : Backend L T) × (write_packet takes to_slice_cobs
            (let l = s.logger in log_mode_from l.log_mode)
            p
            scratch
            (let l = s.logger in
              record s { logger = record l { csi_channel = q }; phase = draining })
          ≡ some t)
        × Quiet s t
        × (t.phase ≡ draining)
        × (still_waiting t ≡ rest)
        × (t.log_channel ≡ s.log_channel)
  packet_taken s p rest q scratch v e l room =
      let k = s.logger in
      let b : Backend L T = record s { logger = record k { csi_channel = q }; phase = draining } in
      let (w, ws) : All IsPacket (p ∷ rest) = subst (λ x. All IsPacket x) e v.well_formed in
      let (t, f, a) = write_packet-Adds takes all to_slice_cobs mode p scratch b w room in
      let m : Backend L T = record b { logger = marked mode b.logger } in
      let left : still_waiting t ≡ rest =
        ap (λ l. BoundedQueue.to_list packets (let m : Logger L = l in m.csi_channel)) a.logger
        ∙ ap (BoundedQueue.to_list packets) (same_channel mode b.logger)
        ∙ l in
      let steady : IsSteady b = record {
        active = v.active;
        in_mode = v.in_mode;
        in_role = v.in_role;
        capped = v.capped;
        well_formed = subst (λ x. All IsPacket x) (sym l) ws;
      } in
      let same = ap₂ (λ r n. packet_text to_slice_cobs mode r n p) v.in_role v.capped in
      let due : List ℕ = header_due mode k.esp_csi_tool_header_printed in
      let none_due =
        ap (λ l. header_due mode (let m : Logger L = l in m.esp_csi_tool_header_printed)) a.logger
        ∙ none_due_behind mode b.logger in
      (
        t,
        ap (λ m. write_packet takes to_slice_cobs m p scratch b) v.in_mode ∙ f,
        (
          Steady-logger m t a.logger (Steady-marked b mode steady),
          moved packets messages to_slice_cobs mode role cap s t
              (omega (arith, ap length left, ap length e))
              (omega (arith, ap (λ x. length (BoundedQueue.to_list messages x)) a.log_channel))
              (ap (λ l. let m : Logger L = l in m.log_dropped_packets) a.logger
                ∙ same_drops mode b.logger)
              (ap₂ (λ x y. x ++ y) (a.printed ∙ ap (λ x. printed s.out ++ (due ++ x)) same)
                  (ap₂ (λ x y. x ++ texts_of y) none_due left)
                ∙ append_assoc (printed s.out) (due ++ text_of p) (texts_of rest)
                ∙ ap (λ y. printed s.out ++ y) (append_assoc due (text_of p) (texts_of rest))
                ∙ ap (λ y. printed s.out ++ (due ++ texts_of y)) (sym e))
              (ap₂ (λ x y. x ++ join_pieces (BoundedQueue.to_list messages y))
                (a.spoken ∙ append-nil (spoken s.out)) a.log_channel),
        ),
        a.phase,
        left,
        a.log_channel,
      )

  abbrev steps_ahead : Backend L T → ℕ
  steps_ahead b = ahead packets messages to_slice_cobs mode role cap b

  -- One step of the backend.
  pub record Stepped (scratch : List ℕ) (s t : Backend L T) : Type 0 where
    pub runs : logger_backend takes packets messages to_slice_cobs scratch s ≡ some t
    pub quiet : Quiet s t
    pub nearer : steps_ahead t ≤ steps_ahead s - 1

  -- What a step does where the task stands.
  abbrev at_phase : List ℕ → Backend L T → Phase → Option (Backend L T)
  at_phase scratch s selecting = select takes packets messages to_slice_cobs scratch s
  at_phase scratch s draining = some (drain takes packets messages to_slice_cobs s)
  at_phase scratch s flushing = some (flush takes packets messages to_slice_cobs s)

  phase_lem :
      (scratch : List ℕ) (s : Backend L T) (ph : Phase)
      → s.phase ≡ ph
      → logger_backend takes packets messages to_slice_cobs scratch s ≡ at_phase scratch s ph
  unfolding logger_backend
  phase_lem scratch s ph h = by_phase s.phase ∙ ap (at_phase scratch s) h
    where
      by_phase :
          (ph : Phase)
          → elim ph [
            | selecting ↦ select takes packets messages to_slice_cobs scratch s
            | draining ↦ some (drain takes packets messages to_slice_cobs s)
            | flushing ↦ some (flush takes packets messages to_slice_cobs s)
          ]
            ≡ at_phase scratch s ph
      by_phase selecting = refl
      by_phase draining = refl
      by_phase flushing = refl

  same_out :
      (s t : Backend L T)
      → t.logger ≡ s.logger
      → printed t.out ≡ printed s.out
      → t.log_channel ≡ s.log_channel
      → spoken t.out ≡ spoken s.out
      → IsSteady s
      → Quiet s t
  same_out s t e p c m v = (
    Steady-logger s t e v,
    moved packets messages to_slice_cobs mode role cap s t
        (omega (
          arith,
          ap (λ l. length (BoundedQueue.to_list packets (let k : Logger L = l in k.csi_channel))) e,
        ))
        (omega (arith, ap (λ x. length (BoundedQueue.to_list messages x)) c))
        (ap (λ l. let k : Logger L = l in k.log_dropped_packets) e)
        (ap₂ (λ x l. x ++ pending_of l) p e)
        (ap₂ (λ x l. x ++ join_pieces (BoundedQueue.to_list messages l)) m c),
  )

  select-Stepped :
      (scratch : List ℕ) (s : Backend L T) (ws : List CsiDataPacket) (us : List (List ℕ))
      → IsSteady s
      → length scratch ≡ 3328
      → s.phase ≡ selecting
      → still_waiting s ≡ ws
      → still_unsaid s ≡ us
      → (t : Backend L T) × Stepped scratch s t
  unfolding select
  select-Stepped scratch s (p ∷ rest) us v room h e u =
      let (q, d, l) = BoundedQueue.dequeue_first packets p rest (channel_of s) e in
      let (t, f, k, ph, w, c) = packet_taken s p rest q scratch v e l room in
      (
        t,
        record {
          runs = phase_lem scratch s selecting h ∙ rw (select, d) f;
          quiet = k;
          nearer = omega (
            arith,
            ap busy ph,
            ap busy h,
            ap length w,
            ap length e,
            ap (λ x. length (BoundedQueue.to_list messages x)) c,
          );
        },
      )
  select-Stepped scratch s [] (m ∷ rest) v room h e u =
      let none_waits = BoundedQueue.dequeue_empty packets (channel_of s) e in
      let (q, d, l) = BoundedQueue.dequeue_first messages m rest s.log_channel u in
      let (k, ph, w, c) = message_taken s flushing m rest q v u l in
      (
        write_all takes m (record s { log_channel = q; phase = flushing }),
        record {
          runs = phase_lem scratch s selecting h ∙ rw (select, none_waits, d) refl;
          quiet = k;
          nearer = omega (arith, ap busy ph, ap busy h, ap length w, ap length u, ap length c);
        },
      )
  select-Stepped scratch s [] [] v room h e u =
      let none_waits = BoundedQueue.dequeue_empty packets (channel_of s) e in
      let none_said = BoundedQueue.dequeue_empty messages s.log_channel u in
      (
        s,
        record {
          runs = phase_lem scratch s selecting h ∙ rw (select, none_waits, none_said) refl;
          quiet = same_out s s refl refl refl refl v;
          nearer = omega (arith, ap busy h, ap length e, ap length u);
        },
      )

  drain-Stepped :
      (scratch : List ℕ) (s : Backend L T) (us : List (List ℕ))
      → IsSteady s
      → s.phase ≡ draining
      → still_unsaid s ≡ us
      → (t : Backend L T) × Stepped scratch s t
  unfolding drain
  drain-Stepped scratch s [] v h u =
      let none_said = BoundedQueue.dequeue_empty messages s.log_channel u in
      (
        record s { phase = selecting },
        record {
          runs = phase_lem scratch s draining h ∙ rw (drain, none_said) refl;
          quiet = same_out s (record s { phase = selecting }) refl refl refl refl v;
          nearer = omega (arith, ap busy h);
        },
      )
  drain-Stepped scratch s (m ∷ rest) v h u =
      let (q, d, l) = BoundedQueue.dequeue_first messages m rest s.log_channel u in
      let (k, ph, w, c) = message_taken s s.phase m rest q v u l in
      (
        write_all takes m (record s { log_channel = q }),
        record {
          runs = phase_lem scratch s draining h ∙ rw (drain, d) refl;
          quiet = k;
          nearer = omega (arith, ap busy ph, ap length w, ap length u, ap length c);
        },
      )

  flush-Stepped :
      (scratch : List ℕ) (s : Backend L T) (us : List (List ℕ))
      → IsSteady s
      → s.phase ≡ flushing
      → still_unsaid s ≡ us
      → (t : Backend L T) × Stepped scratch s t
  unfolding flush
  flush-Stepped scratch s [] v h u =
      let none_said = BoundedQueue.dequeue_empty messages s.log_channel u in
      let t : Backend L T = record s { phase = selecting; out = s.out ++ (flushed ∷ []) } in
      (
        t,
        record {
          runs = phase_lem scratch s flushing h ∙ rw (flush, none_said) refl;
          quiet =
              same_out s t refl (printed-append s.out (flushed ∷ []) ∙ append-nil (printed s.out))
                refl (spoken-append s.out (flushed ∷ []) ∙ append-nil (spoken s.out)) v;
          nearer = omega (arith, ap busy h);
        },
      )
  flush-Stepped scratch s (m ∷ rest) v h u =
      let (q, d, l) = BoundedQueue.dequeue_first messages m rest s.log_channel u in
      (
        record s { phase = selecting },
        record {
          runs = phase_lem scratch s flushing h ∙ rw (flush, d) refl;
          quiet = same_out s (record s { phase = selecting }) refl refl refl refl v;
          nearer = omega (arith, ap busy h);
        },
      )

  pub logger_backend-Stepped :
      (scratch : List ℕ) (s : Backend L T)
      → IsSteady s
      → length scratch ≡ 3328
      → (t : Backend L T) × Stepped scratch s t
  logger_backend-Stepped scratch s v room = in_phase s.phase refl
    where
      in_phase : (ph : Phase) → s.phase ≡ ph → (t : Backend L T) × Stepped scratch s t
      in_phase selecting h =
          select-Stepped scratch s (still_waiting s) (still_unsaid s) v room h refl refl
      in_phase draining h = drain-Stepped scratch s (still_unsaid s) v h refl
      in_phase flushing h = flush-Stepped scratch s (still_unsaid s) v h refl
