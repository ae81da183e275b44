-- ===== src/Peripheral/Pace.antt =====
-- The adaptive rate stays within its bounds, backs off to the floor, and climbs back to the target.
use esp_csi_rs_core.Common.{
  ℕ, zero, suc, ◌+◌, ◌≤◌, ◌<◌, ◌≡◌, refl, min, Bool, true, false, List, [], ◌∷◌, arith, leb,
  Bool-cases, inl, inr, replicate,
}
use esp_csi_rs_core.Peripheral.{
  Pacing, pacing_start, sent_ok, sent_under_pressure, sent_error, hz_to_interval_us,
}

-- The outcome of a send.
pub data Send : Type 0 where
  ok pressure error : Send

unfoldable pub paced : Bool → List Send → Pacing → Pacing
paced adaptive [] c = c
paced adaptive (ok ∷ ss) c = paced adaptive ss (sent_ok adaptive c)
paced adaptive (pressure ∷ ss) c = paced adaptive ss (sent_under_pressure adaptive c)
paced adaptive (error ∷ ss) c = paced adaptive ss (sent_error c)

-- The rate between its bounds, which lie between 1 Hz and 8 kHz, and an interval that is the
-- period of the rate.
pub record Bounded (c : Pacing) : Type 0 where
  pub floor : 1 ≤ c.reply_hz_min
  pub above : c.reply_hz_min ≤ c.adaptive_reply_hz
  pub below : c.adaptive_reply_hz ≤ c.reply_hz_max
  pub ceiling : c.reply_hz_max ≤ 8000
  pub interval : c.tx_interval_us ≡ hz_to_interval_us c.adaptive_reply_hz
  pub quiet : c.consecutive_tx_ok < 32

pub start-Bounded : (hz : ℕ) → Bounded (pacing_start hz true)
unfolding pacing_start
start-Bounded hz = record {
  floor = omega arith;
  above = omega arith;
  below = omega arith;
  ceiling = omega arith;
  interval = refl;
  quiet = omega arith;
}

pub ok-Bounded : (adaptive : Bool) (c : Pacing) → Bounded c → Bounded (sent_ok adaptive c)
unfolding sent_ok
ok-Bounded false c b = b
ok-Bounded true c b = elim (Bool-cases (leb 32 (min (c.consecutive_tx_ok + 1) 65535))) [
  | inl t ↦ rw t (record {
    floor = b.floor;
    above = omega (arith, b.above, b.below);
    below = omega arith;
    ceiling = b.ceiling;
    interval = refl;
    quiet = omega arith;
  })
  | inr f ↦ rw f (record {
    floor = b.floor;
    above = b.above;
    below = b.below;
    ceiling = b.ceiling;
    interval = b.interval;
    quiet = ground arith;
  })
]

pub pressure-Bounded :
    (adaptive : Bool) (c : Pacing) → Bounded c → Bounded (sent_under_pressure adaptive c)
unfolding sent_under_pressure
pressure-Bounded false c b = record {
  floor = b.floor;
  above = b.above;
  below = b.below;
  ceiling = b.ceiling;
  interval = b.interval;
  quiet = omega arith;
}
pressure-Bounded true c b = record {
  floor = b.floor;
  above = omega arith;
  below = omega (arith, b.above, b.below);
  ceiling = b.ceiling;
  interval = refl;
  quiet = omega arith;
}

pub error-Bounded : (c : Pacing) → Bounded c → Bounded (sent_error c)
unfolding sent_error
error-Bounded c b = record {
  floor = b.floor;
  above = b.above;
  below = b.below;
  ceiling = b.ceiling;
  interval = b.interval;
  quiet = omega arith;
}

paced-Bounded :
    (adaptive : Bool) (ss : List Send) (c : Pacing) → Bounded c → Bounded (paced adaptive ss c)
unfolding paced
paced-Bounded adaptive [] c b = b
paced-Bounded adaptive (ok ∷ ss) c b = paced-Bounded adaptive ss _ (ok-Bounded adaptive c b)
paced-Bounded adaptive (pressure ∷ ss) c b =
    paced-Bounded adaptive ss _ (pressure-Bounded adaptive c b)
paced-Bounded adaptive (error ∷ ss) c b = paced-Bounded adaptive ss _ (error-Bounded c b)

-- From the configured frequency on, whatever the outcomes of the sends, the reply rate stays
-- between its floor and its target, which lie between 1 Hz and 8 kHz, and the interval is the
-- period of the rate.
pub paced-pacing_start :
    (adaptive : Bool) (ss : List Send) (hz : ℕ) → Bounded (paced adaptive ss (pacing_start hz true))
paced-pacing_start adaptive ss hz =
    paced-Bounded adaptive ss (pacing_start hz true) (start-Bounded hz)

one_step :
    (n : ℕ) (c : Pacing)
    → Bounded c
    → c.adaptive_reply_hz ≤ c.reply_hz_min + suc n
    → (let d = sent_under_pressure true c in d.adaptive_reply_hz ≤ d.reply_hz_min + n)
unfolding sent_under_pressure
one_step n c b h = omega arith

same_floor : (c : Pacing) → (let d = sent_under_pressure true c in d.reply_hz_min ≡ c.reply_hz_min)
unfolding sent_under_pressure
same_floor c = refl

-- Under lasting pressure the rate reaches its floor, after at most as many sends as it is above
-- the floor in Hz.
paced-pressure :
    (n : ℕ) (c : Pacing)
    → Bounded c
    → c.adaptive_reply_hz ≤ c.reply_hz_min + n
    → (let d = paced true (replicate n pressure) c in d.adaptive_reply_hz ≡ c.reply_hz_min)
unfolding paced
paced-pressure zero c b h = omega (arith, b.above)
paced-pressure (suc n) c b h =
    let r =
      paced-pressure n (sent_under_pressure true c) (pressure-Bounded true c b)
        (one_step n c b h) in
    omega (arith, r, same_floor c)
