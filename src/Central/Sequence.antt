-- ===== src/Central/Sequence.antt =====
-- The control packets that a run of rounds sends, and their numbers.
use esp_csi_rs_core.Common.{
  ℕ, zero, suc, ◌+◌, ◌%◌, ◌^◌, ◌≡◌, refl, ap, sym, ◌∙◌, Bool, false, List, [], ◌∷◌, ◌++◌, Option,
  some, map, ltb, append-nil, arith,
}
use esp_csi_rs_core.Protocol.{
  ControlPacket, Postcard, frame, serialize_with_magic, parse_with_magic, central_magic_number,
}
use esp_csi_rs_core.Protocol.Framing.{parse_with_magic-serialize_with_magic}
use esp_csi_rs_core.Stats.{record_tx}
use esp_csi_rs_core.Central.{Sent, ok, pressure, error, CentralTx, after_send, count_sent, transmit}

-- A run's rounds are given by how late each one finds the deadline of its packet, and the outcome
-- of its send.
abbrev pub successes : List (ℕ × Sent) → ℕ
successes [] = 0
successes ((late, ok) ∷ ss) = suc (successes ss)
successes ((late, pressure) ∷ ss) = successes ss
successes ((late, error) ∷ ss) = successes ss

abbrev pub failures : List (ℕ × Sent) → ℕ
failures [] = 0
failures ((late, ok) ∷ ss) = failures ss
failures ((late, pressure) ∷ ss) = suc (failures ss)
failures ((late, error) ∷ ss) = suc (failures ss)

-- `k` consecutive numbers of 32 bits from `n` on.
abbrev pub consecutive : ℕ → ℕ → List ℕ
consecutive n zero = []
consecutive n (suc k) = n ∷ consecutive ((n + 1) % 2 ^ 32) k

sent_number :
    (adaptive : Bool) (t : CentralTx)
    → (let u = after_send adaptive ok t in
        (u.control_sequence ≡ (t.control_sequence + 1) % 2 ^ 32)
        × (u.stats.tx_count ≡ (t.stats.tx_count + 1) % 2 ^ 64)
        × (u.diagnostics.failed_count ≡ t.diagnostics.failed_count))
unfolding after_send record_tx
sent_number adaptive t = (refl, refl, refl)

abbrev Fails : Sent → Type 0
Fails ok = ⊥
Fails pressure = Unit {0}
Fails error = Unit {0}

unsent_number :
    (adaptive : Bool) (s : Sent) (t : CentralTx)
    → Fails s
    → (let u = after_send adaptive s t in
        (u.control_sequence ≡ t.control_sequence)
        × (u.stats.tx_count ≡ t.stats.tx_count)
        × (u.diagnostics.failed_count ≡ (t.diagnostics.failed_count + 1) % 2 ^ 64))
unfolding after_send count_sent
unsent_number adaptive pressure t h = (refl, refl, refl)
unsent_number adaptive error t h = (refl, refl, refl)
unsent_number adaptive ok t h = absurd h

module _ (postcard : Postcard ControlPacket) (is_collector send_magic adaptive : Bool) where
  abbrev pub packet : ℕ → ControlPacket
  packet n = record { is_collector = is_collector; sequence_number = n }

  -- What a round of a given outcome has put on the air.
  abbrev on_air : Sent → List (List ℕ) → List (List ℕ)
  on_air ok frames = frames
  on_air pressure frames = []
  on_air error frames = []

  -- The frames that are acknowledged in a run of rounds, and the state after it.
  unfoldable pub send_all : List (ℕ × Sent) → CentralTx → List (List ℕ) × CentralTx
  send_all [] t = ([], t)
  send_all ((late, outcome) ∷ ss) t =
      let (frames, u) =
        transmit postcard is_collector send_magic adaptive (t.next_tx_us + late) outcome t in
      let (later, v) = send_all ss u in (on_air outcome frames ++ later, v)

  abbrev parsed : List ℕ → Option ControlPacket
  parsed bytes = parse_with_magic postcard bytes central_magic_number send_magic

  abbrev numbered : List (ℕ × Sent) → ℕ → List (Option ControlPacket)
  numbered ss m = map (λ n. some (packet n)) (consecutive m (successes ss))

  module _
      (fits : (n : ℕ)
        → (bytes : List ℕ) × (serialize_with_magic postcard
              (packet n)
              central_magic_number
              send_magic
              16
            ≡ frame bytes)) where
    -- A round that is due sends the packet with the number of its state.
    transmitted :
        (late : ℕ) (outcome : Sent) (t : CentralTx)
        → (bytes : List ℕ) × (transmit postcard is_collector send_magic adaptive
              (t.next_tx_us + late)
              outcome
              t
            ≡ (bytes ∷ [], after_send adaptive outcome t))
          × (parsed bytes ≡ some (packet t.control_sequence))
    unfolding transmit
    transmitted late outcome t =
        let (bytes, e) = fits t.control_sequence in
        let due : ltb (t.next_tx_us + late) t.next_tx_us ≡ false = ground arith in
        let (_, back) =
          parse_with_magic-serialize_with_magic postcard (packet t.control_sequence)
            central_magic_number send_magic 16 bytes [] (omega arith) e in
        (bytes, rw (transmit, due, e) refl, ap parsed (sym (append-nil bytes)) ∙ back)

    -- The acknowledged frames in any run of rounds parse, at the receiver, to control packets with
    -- the central's mode and consecutive numbers, across the wrap-around: a packet that is not sent
    -- leaves its number to the next one. The packets sent and the failures are counted exactly,
    -- modulo the width of the counters. Every control packet is assumed to fit the 16 bytes of the
    -- buffer, and each round to find its packet due.
    pub send_all-consecutive :
        (ss : List (ℕ × Sent)) (t : CentralTx)
        → (let (acknowledged, u) = send_all ss t in
            (map (λ b. parse_with_magic postcard b central_magic_number send_magic) acknowledged
              ≡ map (λ n. some (packet n)) (consecutive t.control_sequence (successes ss)))
            × (u.stats.tx_count % 2 ^ 64 ≡ (t.stats.tx_count + successes ss) % 2 ^ 64)
            × (u.diagnostics.failed_count % 2 ^ 64
                ≡ (t.diagnostics.failed_count + failures ss) % 2 ^ 64))
    unfolding send_all
    send_all-consecutive [] t = (refl, omega arith, omega arith)
    send_all-consecutive ((late, ok) ∷ ss) t =
        let (n, c, f) = sent_number adaptive t in
        let (bytes, e, back) = transmitted late ok t in
        let (a, d, g) = send_all-consecutive ss (after_send adaptive ok t) in
        rw e (
          ap (λ o. o ∷ map parsed (let (l, _) = send_all ss (after_send adaptive ok t) in l)) back
              ∙ ap (λ l. some (packet t.control_sequence) ∷ l) (a ∙ ap (numbered ss) n),
          omega (arith, c, d),
          omega (arith, f, g),
        )
    send_all-consecutive ((late, pressure) ∷ ss) t =
        let (n, c, f) = unsent_number adaptive pressure t tt in
        let (_, e, _) = transmitted late pressure t in
        let (a, d, g) = send_all-consecutive ss (after_send adaptive pressure t) in
        rw e (a ∙ ap (numbered ss) n, omega (arith, c, d), omega (arith, f, g))
    send_all-consecutive ((late, error) ∷ ss) t =
        let (n, c, f) = unsent_number adaptive error t tt in
        let (_, e, _) = transmitted late error t in
        let (a, d, g) = send_all-consecutive ss (after_send adaptive error t) in
        rw e (a ∙ ap (numbered ss) n, omega (arith, c, d), omega (arith, f, g))
