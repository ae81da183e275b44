-- ===== src/Peripheral/Responder/Rounds.antt =====
-- How many replies a responder sends: no more than it received frames, and no more than its fastest
-- rate allows.
use native.Mathlib.Nat.{div-le_self, le-div_iff_mul-le}
use esp_csi_rs_core.Common.{
  ℕ, suc, ◌+◌, ◌-◌, ◌*◌, ◌^◌, ◌≤◌, ◌<◌, ◌≡◌, refl, ap, max, Bool, true, false, ◌&&◌, List, [], ◌∷◌,
  ◌++◌, Option, none, some, arith, leb, if◌then◌else◌, length, length-append, All, Bool-cases, inl,
  inr, subst, leb→le,
}
use esp_csi_rs_core.Common.Mac.{Mac}
use esp_csi_rs_core.Config.{EspNowConfig}
use esp_csi_rs_core.Peripheral.{
  PeerTable, PoolFrame, Pacing, ingest_control_packet, hz_to_interval_us, Diagnostics, pacing_start,
}
use esp_csi_rs_core.Peripheral.Pace.{
  Send, ok, pressure, error, Bounded, ok-Bounded, pressure-Bounded, error-Bounded, start-Bounded,
}
use esp_csi_rs_core.Protocol.{ControlPacket, PeripheralPacket, Postcard}
use esp_csi_rs_core.Peripheral.Responder.Silent.{start-pending_flag}
use esp_csi_rs_core.Peripheral.Responder.{
  Responder, Round, reply_pending, pace_reply, after_reply, rx_burst, message, reply_destination,
  send_reply, tx_burst, last_wait, round, rounds, responder_start,
}

-- Frames that came in.
abbrev pub arrivals : List Round → ℕ
arrivals [] = 0
arrivals (r ∷ rs) = length r.arrived + arrivals rs

abbrev owed : Bool → ℕ
owed true = 1
owed false = 0

owed_le : (b : Bool) → owed b ≤ 1
owed_le true = omega arith
owed_le false = omega arith

interval_bounds : (c : Pacing) → Bounded c → (125 ≤ c.tx_interval_us) × (c.tx_interval_us ≤ 1000000)
unfolding hz_to_interval_us
interval_bounds c b =
    let hz = c.adaptive_reply_hz in
    let (_, up) = le-div_iff_mul-le {k = max hz 1} {x = 125} {y = 1000000} (omega arith) in
    let fast = up (omega (arith, b.below, b.ceiling)) in
    omega (arith, b.interval, fast, div-le_self 1000000 (max hz 1))

pace_reply-Bounded : (s : Send) (c : Pacing) → Bounded c → Bounded (pace_reply true s c)
unfolding pace_reply
pace_reply-Bounded ok c b = ok-Bounded true c b
pace_reply-Bounded pressure c b = pressure-Bounded true c b
pace_reply-Bounded error c b = error-Bounded c b

module _ {E : Type 0} (start end : ℕ) where
  -- With at most `frames` frames in, and no reply due later than `end`.
  record Within (frames : ℕ) (t : Responder E) : Type 0 where
    pub bounded : Bounded t.pacing
    pub next : start + 125 * suc (length t.sent) ≤ t.next_tx_us
    pub past : 125 * length t.sent ≤ end - start
    pub credit : length t.sent + owed t.shared.pending_flag + length t.waiting ≤ frames

both_of : (a b : Bool) → (a && b) ≡ true → (a ≡ true) × (b ≡ true)
both_of true b h = (refl, h)
both_of false b h = cc

pending_owed :
    {E : Type 0} (t : Responder E) → reply_pending t ≡ true → owed t.shared.pending_flag ≡ 1
unfolding reply_pending
pending_owed t h = let (_, p) = both_of t.shared.is_connected t.shared.pending_flag h in ap owed p

module _ {E R : Type 0} (peers : PeerTable E) (controls : Postcard ControlPacket)
    (hellos : Postcard PeripheralPacket) (config : EspNowConfig R) (start end : ℕ) where
  rx_burst-Within :
      (frames now : ℕ) (t : Responder E)
      → Within start end frames t
      → Within start end frames (rx_burst peers controls hellos config 1 0 now t)
  unfolding rx_burst
  rx_burst-Within frames now t v = taken t.waiting refl
    where
      taken :
          (ws : List PoolFrame)
          → t.waiting ≡ ws
          → Within start end frames (elim ws [
            | [] ↦ t
            | r ∷ rs ↦ record t {
              waiting = rs;
              shared = ingest_control_packet peers controls r true config.peer_mac t.shared;
            }
          ])
      taken [] e = v
      taken (r ∷ rs) e = record {
        bounded = v.bounded;
        next = v.next;
        past = v.past;
        credit = omega (
          arith,
          v.credit,
          ap length e,
          owed_le
              (ingest_control_packet peers controls r true config.peer_mac t.shared).pending_flag,
        );
      }

  after_reply-Within :
      (frames : ℕ) (s : Send) (t : Responder E)
      → Bounded t.pacing
      → start + 125 * length t.sent ≤ t.next_tx_us
      → t.next_tx_us ≤ end
      → end < 2 ^ 63
      → length t.sent + owed t.shared.pending_flag + length t.waiting ≤ frames
      → Within start end frames (after_reply true s t)
  unfolding after_reply
  after_reply-Within frames s t b next due small credit =
      let c = pace_reply-Bounded s t.pacing b in
      let (slow, fast) = interval_bounds (pace_reply true s t.pacing) c in
      record {
        bounded = c;
        next = omega (arith, slow, fast, next, due, small);
        past = omega (arith, next, due);
        credit = credit;
      }

  send_reply-Within :
      (frames : ℕ) (r : Round) (t : Responder E)
      → Within start end frames t
      → t.next_tx_us ≤ end
      → end < 2 ^ 63
      → owed t.shared.pending_flag ≡ 1
      → Within start end frames (send_reply peers controls hellos config true r t).0
  unfolding send_reply
  send_reply-Within frames r t v due small owes = written (message peers controls hellos config)
    where
      cleared : Responder E
      cleared = (let s = t.shared in record t { shared = record s { pending_flag = false } })

      destination : Mac
      destination = reply_destination config cleared.shared

      written :
          (o : Option (List ℕ))
          → Within start end frames (
              let p : Responder E × Bool = elim o [
                | none ↦ (cleared, false)
                | some bytes ↦ (
                  after_reply true r.outcome (record cleared {
                    sent = cleared.sent ++ ((destination, bytes, r.now) ∷ []);
                  }),
                  elim r.outcome [ ok ↦ true | pressure ↦ false | error ↦ false ],
                )
              ] in
              p.0)
      written none = record {
        bounded = v.bounded;
        next = v.next;
        past = v.past;
        credit = omega (arith, v.credit);
      }
      written (some bytes) =
          let n = length-append t.sent ((destination, bytes, r.now) ∷ []) in
          after_reply-Within frames r.outcome
            (record cleared { sent = cleared.sent ++ ((destination, bytes, r.now) ∷ []) }) v.bounded
            (omega (arith, v.next, n)) due small (omega (arith, v.credit, n, owes))

  if_same : {A : Type 0} (b : Bool) (x : A) → (if b then x else x) ≡ x
  if_same true x = refl
  if_same false x = refl

  tx_burst-Within :
      (frames : ℕ) (r : Round) (t : Responder E)
      → Within start end frames t
      → r.now ≤ end
      → end < 2 ^ 63
      → Within start end frames (tx_burst peers controls hellos config 1 true r.now r t)
  unfolding tx_burst
  tx_burst-Within frames r t v early small =
      elim (Bool-cases (leb t.next_tx_us r.now && reply_pending t)) [
        | inr f ↦ rw (tx_burst, f) v
        | inl h ↦
            let (due, owes) = both_of (leb t.next_tx_us r.now) (reply_pending t) h in
            let u = send_reply peers controls hellos config true r t in
            rw (tx_burst, h, if_same u.1 u.0)
              (send_reply-Within frames r t v (omega (arith, leb→le t.next_tx_us r.now due, early))
                small (pending_owed t owes))
      ]

  round-Within :
      (frames : ℕ) (r : Round) (t : Responder E)
      → Within start end frames t
      → r.now ≤ end
      → end < 2 ^ 63
      → Within start end
          (frames + length r.arrived)
          (round peers controls hellos config true true r t).0
  unfolding round last_wait
  round-Within frames r t v early small =
      let heard : Responder E = record t { waiting = t.waiting ++ r.arrived } in
      let h : Within start end (frames + length r.arrived) heard = record {
        bounded = v.bounded;
        next = v.next;
        past = v.past;
        credit = omega (arith, v.credit, length-append t.waiting r.arrived);
      } in
      let taken = rx_burst peers controls hellos config 1 0 r.rx_now heard in
      let w =
        tx_burst-Within (frames + length r.arrived) r taken
          (rx_burst-Within (frames + length r.arrived) r.rx_now heard h) early small in
      elim (Bool-cases r.stopped) [
        | inl s ↦
            rw s (record { bounded = w.bounded; next = w.next; past = w.past; credit = w.credit })
        | inr g ↦ rw g w
      ]

  rounds-Within :
      (frames : ℕ) (rs : List Round) (t : Responder E)
      → Within start end frames t
      → All (λ r. r.now ≤ end) rs
      → end < 2 ^ 63
      → Within start end (frames + arrivals rs) (rounds peers controls hellos config true true rs t)
  unfolding rounds
  rounds-Within frames [] t v early small = subst (λ n. Within start end n t) (omega arith) v
  rounds-Within frames (r ∷ rs) t v (early, later) small =
      let u = round peers controls hellos config true true r t in
      let w = round-Within frames r t v early small in
      elim (Bool-cases u.1) [
        | inl g ↦ rw g (
            subst (λ n. Within start end n (rounds peers controls hellos config true true rs u.0))
              (omega arith) (rounds-Within (frames + length r.arrived) rs u.0 w later small))
        | inr g ↦ rw g (record {
          bounded = w.bounded;
          next = w.next;
          past = w.past;
          credit = omega (arith, w.credit);
        })
      ]

  abbrev begun : ℕ → Bool → Bool → Diagnostics → E → ℕ → Responder E
  begun frequency_hz is_collector raw_listen diagnostics esp_now tx_count =
      responder_start peers controls hellos config frequency_hz true true is_collector raw_listen
        diagnostics start esp_now tx_count

  -- A responder that receives and sends, whatever comes in, whatever the outcomes of its sends, and in
  -- either pairing mode, sends no more replies than frames came in, and no more than one for every
  -- 125 microseconds between its start and a time below 2^63 that none of its rounds reads past.
  pub rounds-replies :
      (frequency_hz : ℕ) (is_collector raw_listen : Bool) (d : Diagnostics) (e : E) (tx_count : ℕ)
      (rs : List Round)
      → start ≤ end
      → end < 2 ^ 63
      → All (λ r. r.now ≤ end) rs
      → (let t = rounds peers controls hellos config true true rs (
            responder_start peers controls hellos config frequency_hz true true is_collector
              raw_listen d start e tx_count) in
          (length t.sent ≤ arrivals rs) × (125 * length t.sent ≤ end - start))
  unfolding responder_start
  rounds-replies frequency_hz is_collector raw_listen d e tx_count rs le small early =
      let c = pacing_start frequency_hz true in
      let b = start-Bounded frequency_hz in
      let (slow, fast) = interval_bounds c b in
      let t = begun frequency_hz is_collector raw_listen d e tx_count in
      let v : Within start end 0 t = record {
        bounded = b;
        next = omega (arith, slow, fast, le, small);
        past = omega arith;
        credit = omega (
          arith,
          ap owed (
              start-pending_flag peers controls hellos config frequency_hz true true is_collector
                raw_listen d start e tx_count),
        );
      } in
      let w = rounds-Within 0 rs t v early small in (omega (arith, w.credit), w.past)
