-- ===== src/Logging/Backend/Channels.antt =====
-- The two channels of the backend: what is logged comes out in order, or is counted or refused at
-- a full channel.
use esp_csi_rs_core.Common.{
  ◌≤◌, ℕ, suc, ◌*◌, ◌+◌, ◌%◌, ◌^◌, ◌≡◌, refl, sym, ap, ◌∙◌, Bool, true, false, ◌&&◌, List, [], ◌∷◌,
  ◌++◌, append_assoc, append-nil, map, Option, arith, leb, length, length-append, All, All-append,
  dec_lt, Bool-cases, inl, inr, subst,
}
use esp_csi_rs_core.Containers.{BoundedQueue}
use esp_csi_rs_core.Csi.{CsiDataPacket}
use esp_csi_rs_core.Csi.Packet.{IsPacket}
use esp_csi_rs_core.Logging.{LogMode, Role, log_mode_from, role_from, record_log_drop, log_csi}
use esp_csi_rs_core.Logging.ArrayList.Pieces.{join_pieces, join_pieces-append}
use esp_csi_rs_core.Logging.Backend.{
  Phase, selecting, draining, flushing, Backend, channel_of, Event, log_packet, log_message,
  set_mode, backend, info, log_record,
}
use esp_csi_rs_core.Logging.Backend.Writes.{printed, spoken, packet_text, header_due}

-- The second list is the first in order, with some items left out: the number says how many.
pub data Kept {A : Type 0} : ℕ → List A → List A → Type 0 where
  none_left : Kept 0 [] []
  keep : {n : ℕ} {x : A} {xs ys : List A} → Kept n xs ys → Kept n (x ∷ xs) (x ∷ ys)
  lose : {n : ℕ} {x : A} {xs ys : List A} → Kept n xs ys → Kept (suc n) (x ∷ xs) ys

Kept-append :
    {A : Type 0} {m n : ℕ} {xs ys us vs : List A}
    → Kept m xs ys
    → Kept n us vs
    → Kept (m + n) (xs ++ us) (ys ++ vs)
Kept-append {n} {us} {vs} none_left k = subst (λ i. Kept i us vs) (omega arith) k
Kept-append (keep h) k = keep (Kept-append h k)
Kept-append {n} {us} {vs} (lose {n = m} {x} {xs} {ys} h) k =
    subst (λ i. Kept i (x ∷ (xs ++ us)) (ys ++ vs)) (omega arith) (lose (Kept-append h k))

-- The packets that an event logs, and the messages that it offers to the text channel.
abbrev pub logged_by : Event → List CsiDataPacket
logged_by (log_packet p) = p ∷ []
logged_by (log_message level args) = []
logged_by (set_mode mode) = []
logged_by (backend scratch) = []

abbrev offered : Bool → List ℕ → List (List ℕ)
offered true args = (args ++ (13 ∷ 10 ∷ [])) ∷ []
offered false args = []

abbrev pub said_by : Event → List (List ℕ)
said_by (log_packet p) = []
said_by (log_message level args) = offered (leb level info && leb (length args + 2) 256) args
said_by (set_mode mode) = []
said_by (backend scratch) = []

abbrev pub logged : List Event → List CsiDataPacket
logged [] = []
logged (e ∷ es) = logged_by e ++ logged es

abbrev pub said : List Event → List (List ℕ)
said [] = []
said (e ∷ es) = said_by e ++ said es

-- Packets are well-formed, the scratch has its size, and the mode is not changed.
abbrev pub Fine : Event → Type 0
Fine (log_packet p) = IsPacket p
Fine (log_message level args) = Unit
Fine (set_mode mode) = ⊥
Fine (backend scratch) = length scratch ≡ 3328

abbrev pub busy : Phase → ℕ
busy selecting = 0
busy draining = 1
busy flushing = 1

-- A channel of some capacity, with its items before and behind, the items offered to it, and those
-- that it left out: none where there was room for all.
pub record Fits (capacity before behind offered left_out : ℕ) : Type 0 where
  pub room : offered + before ≤ capacity → left_out ≡ 0
  pub grown : behind ≤ before + offered

Fits-append : (c i j k m n a b : ℕ) → Fits c i j m a → Fits c j k n b → Fits c i k (m + n) (a + b)
Fits-append c i j k m n a b f g = record {
  room = λ h. omega (arith, f.room (omega (arith, h)), g.room (omega (arith, h, f.grown)));
  grown = omega (arith, f.grown, g.grown);
}

module _ {L T : Type 0} (packets : BoundedQueue CsiDataPacket L)
    (messages : BoundedQueue (List ℕ) T) (to_slice_cobs : CsiDataPacket → Option (List ℕ))
    (mode : LogMode) (role : Role) (cap : ℕ) where
  abbrev pub waiting : Backend L T → List CsiDataPacket
  waiting b = BoundedQueue.to_list packets (channel_of b)

  abbrev pub unsaid : Backend L T → List (List ℕ)
  unsaid b = BoundedQueue.to_list messages b.log_channel

  abbrev pub texts : List CsiDataPacket → List ℕ
  texts ps = join_pieces (map (packet_text to_slice_cobs mode role cap) ps)

  -- The header line where it is due.
  abbrev pub due_of : Backend L T → List ℕ
  due_of b = header_due mode (let l = b.logger in l.esp_csi_tool_header_printed)

  -- What the waiting packets are still to add.
  abbrev pub pending : Backend L T → List ℕ
  pending b = due_of b ++ texts (waiting b)

  -- The steps that are enough to empty both channels.
  abbrev pub ahead : Backend L T → ℕ
  ahead b = 2 * (length (waiting b) + length (unsaid b)) + busy b.phase

  abbrev pub drops : Backend L T → ℕ
  drops b = let l = b.logger in l.log_dropped_packets

  -- The asynchronous path is on, in one mode, on well-formed packets.
  pub record Steady (b : Backend L T) : Type 0 where
    pub active : (let l = b.logger in l.async_log_active) ≡ true
    pub in_mode : (let l = b.logger in log_mode_from l.log_mode) ≡ mode
    pub in_role : (let l = b.logger in role_from l.role) ≡ role
    pub capped : (let l = b.logger in l.csi_tool_emit_cap) ≡ cap
    pub well_formed : All IsPacket (waiting b)

  pub record Delivered (ps : List CsiDataPacket) (ms : List (List ℕ)) (s t : Backend L T)
      : Type 0 where
    pub accepted : List CsiDataPacket
    pub dropped : ℕ
    pub heard : List (List ℕ)
    pub unheard : ℕ
    pub kept : Kept dropped ps accepted
    pub kept_messages : Kept unheard ms heard
    pub fits :
        Fits
          (BoundedQueue.capacity packets)
          (length (waiting s))
          (length (waiting t))
          (length ps)
          dropped
    pub fits_messages :
        Fits
          (BoundedQueue.capacity messages)
          (length (unsaid s))
          (length (unsaid t))
          (length ms)
          unheard
    pub drops : drops t % 2 ^ 32 ≡ (drops s + dropped) % 2 ^ 32
    pub printed : printed t.out ++ pending t ≡ (printed s.out ++ pending s) ++ texts accepted
    pub spoken :
        spoken t.out ++ join_pieces (unsaid t)
        ≡ (spoken s.out ++ join_pieces (unsaid s)) ++ join_pieces heard

  texts-append : (xs ys : List CsiDataPacket) → texts (xs ++ ys) ≡ texts xs ++ texts ys
  texts-append [] ys = refl
  texts-append (x ∷ xs) ys =
      let t : List ℕ = packet_text to_slice_cobs mode role cap x in
      ap (λ r. t ++ r) (texts-append xs ys) ∙ sym (append_assoc t (texts xs) (texts ys))

  pub Delivered-append :
      (ps qs : List CsiDataPacket) (ms ns : List (List ℕ)) (s t u : Backend L T)
      → Delivered ps ms s t
      → Delivered qs ns t u
      → Delivered (ps ++ qs) (ms ++ ns) s u
  Delivered-append ps qs ms ns s t u d e = record {
    accepted = d.accepted ++ e.accepted;
    dropped = d.dropped + e.dropped;
    heard = d.heard ++ e.heard;
    unheard = d.unheard + e.unheard;
    kept = Kept-append d.kept e.kept;
    kept_messages = Kept-append d.kept_messages e.kept_messages;
    fits =
        subst
          (λ n.
            Fits (BoundedQueue.capacity packets) (length (waiting s)) (length (waiting u)) n
              (d.dropped + e.dropped))
          (sym (length-append ps qs))
          (Fits-append (BoundedQueue.capacity packets) (length (waiting s)) (length (waiting t))
            (length (waiting u)) (length ps) (length qs) d.dropped e.dropped d.fits e.fits);
    fits_messages =
        subst
          (λ n.
            Fits (BoundedQueue.capacity messages) (length (unsaid s)) (length (unsaid u)) n
              (d.unheard + e.unheard))
          (sym (length-append ms ns))
          (Fits-append (BoundedQueue.capacity messages) (length (unsaid s)) (length (unsaid t))
            (length (unsaid u)) (length ms) (length ns) d.unheard e.unheard d.fits_messages
            e.fits_messages);
    drops = omega (arith, d.drops, e.drops);
    printed =
        e.printed
        ∙ ap (λ r. r ++ texts e.accepted) d.printed
        ∙ append_assoc (printed s.out ++ pending s) (texts d.accepted) (texts e.accepted)
        ∙ ap (λ r. (printed s.out ++ pending s) ++ r) (sym (texts-append d.accepted e.accepted));
    spoken =
        e.spoken
        ∙ ap (λ r. r ++ join_pieces e.heard) d.spoken
        ∙ append_assoc (spoken s.out ++ join_pieces (unsaid s)) (join_pieces d.heard)
            (join_pieces e.heard)
        ∙ ap (λ r. (spoken s.out ++ join_pieces (unsaid s)) ++ r)
            (sym (join_pieces-append d.heard e.heard));
  }

  -- A step that logs nothing.
  pub moved :
      (s t : Backend L T)
      → length (waiting t) ≤ length (waiting s)
      → length (unsaid t) ≤ length (unsaid s)
      → drops t ≡ drops s
      → printed t.out ++ pending t ≡ printed s.out ++ pending s
      → spoken t.out ++ join_pieces (unsaid t) ≡ spoken s.out ++ join_pieces (unsaid s)
      → Delivered [] [] s t
  moved s t fewer less same p m = record {
    accepted = [];
    dropped = 0;
    heard = [];
    unheard = 0;
    kept = none_left;
    kept_messages = none_left;
    fits = record { room = λ h. refl; grown = omega (arith, fewer) };
    fits_messages = record { room = λ h. refl; grown = omega (arith, less) };
    drops = omega (arith, same);
    printed = p ∙ sym (append-nil (printed s.out ++ pending s));
    spoken = m ∙ sym (append-nil (spoken s.out ++ join_pieces (unsaid s)));
  }

  -- A packet is accepted, or counted where the channel is full.
  pub log_packet-Delivered :
      (p : CsiDataPacket) (s : Backend L T)
      → Steady s
      → IsPacket p
      → (let t = record s { logger = (log_csi packets p s.logger).0 } in
          Steady t × Delivered (p ∷ []) [] s t)
  unfolding log_csi record_log_drop
  log_packet-Delivered p s v w =
      elim (dec_lt (length (waiting s)) (BoundedQueue.capacity packets)) [
        | yes h ↦
            let (q, e, l) = BoundedQueue.enqueue_room packets p (channel_of s) h in
            rw (log_csi, v.active, e)
              (
                record {
                  active = v.active;
                  in_mode = v.in_mode;
                  in_role = v.in_role;
                  capped = v.capped;
                  well_formed =
                      rw l (All-append IsPacket (waiting s) (p ∷ []) v.well_formed (w, tt));
                },
                record {
                  accepted = p ∷ [];
                  dropped = 0;
                  heard = [];
                  unheard = 0;
                  kept = keep none_left;
                  kept_messages = none_left;
                  fits = record {
                    room = λ k. refl;
                    grown = omega (arith, ap length l, length-append (waiting s) (p ∷ []));
                  };
                  fits_messages = record { room = λ k. refl; grown = omega arith };
                  drops = omega arith;
                  printed =
                      ap (λ r. printed s.out ++ (due_of s ++ r))
                        (ap texts l ∙ texts-append (waiting s) (p ∷ []))
                      ∙ ap (λ r. printed s.out ++ r)
                          (sym (append_assoc (due_of s) (texts (waiting s)) (texts (p ∷ []))))
                      ∙ sym (append_assoc (printed s.out) (pending s) (texts (p ∷ [])));
                  spoken = sym (append-nil (spoken s.out ++ join_pieces (unsaid s)));
                },
              )
        | no h ↦
            let e = BoundedQueue.enqueue_full packets p (channel_of s) (omega arith) in
            rw (log_csi, v.active, e, record_log_drop)
              (
                record {
                  active = v.active;
                  in_mode = v.in_mode;
                  in_role = v.in_role;
                  capped = v.capped;
                  well_formed = v.well_formed;
                },
                record {
                  accepted = [];
                  dropped = 1;
                  heard = [];
                  unheard = 0;
                  kept = lose none_left;
                  kept_messages = none_left;
                  fits = record { room = λ k. absurd (omega arith); grown = omega arith };
                  fits_messages = record { room = λ k. refl; grown = omega arith };
                  drops = omega arith;
                  printed = sym (append-nil (printed s.out ++ pending s));
                  spoken = sym (append-nil (spoken s.out ++ join_pieces (unsaid s)));
                },
              )
      ]

  pub Steady-channel : (s : Backend L T) (t : T) → Steady s → Steady (record s { log_channel = t })
  Steady-channel s t v = record {
    active = v.active;
    in_mode = v.in_mode;
    in_role = v.in_role;
    capped = v.capped;
    well_formed = v.well_formed;
  }

  unheard_message :
      (s : Backend L T) (m : List ℕ)
      → BoundedQueue.capacity messages ≤ length (unsaid s)
      → Delivered [] (m ∷ []) s s
  unheard_message s m full = record {
    accepted = [];
    dropped = 0;
    heard = [];
    unheard = 1;
    kept = none_left;
    kept_messages = lose none_left;
    fits = record { room = λ k. refl; grown = omega arith };
    fits_messages = record { room = λ k. absurd (omega (arith, k, full)); grown = omega arith };
    drops = omega arith;
    printed = sym (append-nil (printed s.out ++ pending s));
    spoken = sym (append-nil (spoken s.out ++ join_pieces (unsaid s)));
  }

  heard_message :
      (s : Backend L T) (m : List ℕ) (t : T)
      → BoundedQueue.to_list messages t ≡ unsaid s ++ (m ∷ [])
      → Delivered [] (m ∷ []) s (record s { log_channel = t })
  heard_message s m t l = record {
    accepted = [];
    dropped = 0;
    heard = m ∷ [];
    unheard = 0;
    kept = none_left;
    kept_messages = keep none_left;
    fits = record { room = λ k. refl; grown = omega arith };
    fits_messages = record {
      room = λ k. refl;
      grown = omega (arith, ap length l, length-append (unsaid s) (m ∷ []));
    };
    drops = omega arith;
    printed = sym (append-nil (printed s.out ++ pending s));
    spoken =
        ap (λ r. spoken s.out ++ r) (ap join_pieces l ∙ join_pieces-append (unsaid s) (m ∷ []))
        ∙ sym (append_assoc (spoken s.out) (join_pieces (unsaid s)) (join_pieces (m ∷ [])));
  }

  -- A message is accepted, refused by a full channel, or not offered.
  pub log_message-Delivered :
      (level : ℕ) (args : List ℕ) (s : Backend L T)
      → Delivered []
          (offered (leb level info && leb (length args + 2) 256) args)
          s
          (record s { log_channel = log_record messages level args s.log_channel })
  unfolding log_record
  log_message-Delivered level args s =
      elim (Bool-cases (leb level info && leb (length args + 2) 256)) [
        | inr f ↦ rw (log_record, f) (moved s s (omega arith) (omega arith) refl refl refl)
        | inl f ↦
            let m : List ℕ = args ++ (13 ∷ 10 ∷ []) in
            elim (dec_lt (length (unsaid s)) (BoundedQueue.capacity messages)) [
              | yes h ↦
                  let (t, e, l) = BoundedQueue.enqueue_room messages m s.log_channel h in
                  rw (log_record, f, e) (heard_message s m t l)
              | no h ↦
                  let e = BoundedQueue.enqueue_full messages m s.log_channel (omega arith) in
                  rw (log_record, f, e) (unheard_message s m (omega arith))
            ]
      ]
