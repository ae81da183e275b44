-- ===== src/Central/Pace.antt =====
-- The central paces its control packets as the peripheral paces its replies.
use esp_csi_rs_core.Common.{
  ℕ, ◌+◌, ◌≡◌, refl, ap, ◌∙◌, subst, sym, min, max, Bool, true, false, List, [], ◌∷◌, Option, none,
  some, leb, Bool-cases, inl, inr,
}
use esp_csi_rs_core.Peripheral.{
  Pacing, pacing_start, sent_ok, sent_under_pressure, sent_error,
  hz_to_interval_us as reply_interval_us,
}
use esp_csi_rs_core.Peripheral.Pace.{Send, paced, Bounded, paced-pacing_start}
use esp_csi_rs_core.Central.{
  TxPacing, Sent, ok, pressure, error, hz_to_interval_us, pace, tx_pacing_start,
}

-- The same values under the peripheral's names.
abbrev pub as_reply : TxPacing → Pacing
as_reply c = record {
  reply_hz_max = c.tx_hz_max;
  reply_hz_min = c.tx_hz_min;
  adaptive_reply_hz = c.adaptive_tx_hz;
  tx_interval_us = c.tx_interval_us;
  consecutive_tx_ok = c.consecutive_tx_ok;
}

abbrev as_send : Sent → Send
as_send ok = Send.ok
as_send pressure = Send.pressure
as_send error = Send.error

abbrev pub as_sends : List Sent → List Send
as_sends [] = []
as_sends (s ∷ ss) = as_send s ∷ as_sends ss

unfoldable pub pace_all : Bool → List Sent → TxPacing → TxPacing
pace_all adaptive [] c = c
pace_all adaptive (s ∷ ss) c = pace_all adaptive ss (pace adaptive s c)

ok_as_reply :
    (adaptive : Bool) (c : TxPacing) → as_reply (pace adaptive ok c) ≡ sent_ok adaptive (as_reply c)
unfolding pace sent_ok hz_to_interval_us reply_interval_us
ok_as_reply false c = refl
ok_as_reply true c = elim (Bool-cases (leb 32 (min (c.consecutive_tx_ok + 1) 65535))) [
  | inl t ↦ rw t refl
  | inr f ↦ rw f refl
]

pressure_as_reply :
    (adaptive : Bool) (c : TxPacing)
    → as_reply (pace adaptive pressure c) ≡ sent_under_pressure adaptive (as_reply c)
unfolding pace sent_under_pressure hz_to_interval_us reply_interval_us
pressure_as_reply false c = refl
pressure_as_reply true c = refl

error_as_reply :
    (adaptive : Bool) (c : TxPacing) → as_reply (pace adaptive error c) ≡ sent_error (as_reply c)
unfolding pace sent_error
error_as_reply adaptive c = refl

all_as_reply :
    (adaptive : Bool) (ss : List Sent) (c : TxPacing)
    → as_reply (pace_all adaptive ss c) ≡ paced adaptive (as_sends ss) (as_reply c)
unfolding pace_all paced
all_as_reply adaptive [] c = refl
all_as_reply adaptive (ok ∷ ss) c =
    all_as_reply adaptive ss (pace adaptive ok c)
    ∙ ap (paced adaptive (as_sends ss)) (ok_as_reply adaptive c)
all_as_reply adaptive (pressure ∷ ss) c =
    all_as_reply adaptive ss (pace adaptive pressure c)
    ∙ ap (paced adaptive (as_sends ss)) (pressure_as_reply adaptive c)
all_as_reply adaptive (error ∷ ss) c =
    all_as_reply adaptive ss (pace adaptive error c)
    ∙ ap (paced adaptive (as_sends ss)) (error_as_reply adaptive c)

-- The frequency that a peripheral is to be given for the same start.
abbrev pub reply_hz : Option ℕ → ℕ
reply_hz (some hz) = max hz 1
reply_hz none = 65535

start_as_reply :
    (frequency_hz : Option ℕ) (rx : Bool)
    → as_reply (tx_pacing_start frequency_hz rx) ≡ pacing_start (reply_hz frequency_hz) rx
unfolding tx_pacing_start pacing_start hz_to_interval_us reply_interval_us
start_as_reply none rx = refl
start_as_reply (some hz) rx = refl

both_start :
    (adaptive rx : Bool) (ss : List Sent) (frequency_hz : Option ℕ)
    → as_reply (pace_all adaptive ss (tx_pacing_start frequency_hz rx))
      ≡ paced adaptive (as_sends ss) (pacing_start (reply_hz frequency_hz) rx)
both_start adaptive rx ss frequency_hz =
    all_as_reply adaptive ss (tx_pacing_start frequency_hz rx)
    ∙ ap (paced adaptive (as_sends ss)) (start_as_reply frequency_hz rx)

-- From its start on and over any outcomes of the sends, the central's pacing is the one of a
-- peripheral that is given the same frequency, or 65535 Hz for none, whether the two receive or
-- not; and a central that also receives keeps its rate between its floor and its target.
pub pace_all-tx_pacing_start :
    (adaptive rx : Bool) (ss : List Sent) (frequency_hz : Option ℕ)
    → (as_reply (pace_all adaptive ss (tx_pacing_start frequency_hz rx))
        ≡ paced adaptive (as_sends ss) (pacing_start (reply_hz frequency_hz) rx))
      × Bounded (as_reply (pace_all adaptive ss (tx_pacing_start frequency_hz true)))
pace_all-tx_pacing_start adaptive rx ss frequency_hz = (
  both_start adaptive rx ss frequency_hz,
  subst Bounded (sym (both_start adaptive true ss frequency_hz))
      (paced-pacing_start adaptive (as_sends ss) (reply_hz frequency_hz)),
)
