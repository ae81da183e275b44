-- ===== src/Emitter/Emission.antt =====
-- The emission loop counts what the driver takes, and reports a refusal once.
use esp_csi_rs_core.Common.{
  ℕ, suc, ◌+◌, ◌%◌, ◌^◌, ◌≡◌, refl, ap₂, ◌∙◌, Bool, true, false, List, [], ◌∷◌, arith, ◌==◌,
  if◌then◌else◌,
}
use esp_csi_rs_core.Stats.{Stats, record_tx}
use esp_csi_rs_core.Emitter.{
  Polled, pending, ready_ok, ready_err, EmitterLoop, emission_start, emit_round, emit_rounds,
  send_once,
}

-- The frames that the driver takes, and those that it refuses.
abbrev pub taken : List Polled → ℕ
taken [] = 0
taken (ready_err ∷ ps) = taken ps
taken (pending ∷ ps) = suc (taken ps)
taken (ready_ok ∷ ps) = suc (taken ps)

abbrev pub refused : List Polled → ℕ
refused [] = 0
refused (ready_err ∷ ps) = suc (refused ps)
refused (pending ∷ ps) = refused ps
refused (ready_ok ∷ ps) = refused ps

abbrev lines : Bool → ℕ → ℕ
lines true n = 0
lines false n = if n == 0 then 0 else 1

-- What a round adds to the count and to the lines.
accepted :
    (p : Polled) (e : EmitterLoop)
    → send_once p ≡ true
    → (let d = emit_round p e in
        (d.stats.tx_count ≡ (e.stats.tx_count + 1) % 2 ^ 64)
        × (d.failure_lines ≡ e.failure_lines)
        × (d.reported_failure ≡ e.reported_failure))
unfolding emit_round record_tx
accepted p e h = rw (emit_round, h) (refl, refl, refl)

failed :
    (e : EmitterLoop)
    → (let d = emit_round ready_err e in
        (d.stats.tx_count ≡ e.stats.tx_count)
        × (d.failure_lines ≡ e.failure_lines + lines e.reported_failure 1)
        × (d.reported_failure ≡ true))
unfolding emit_round send_once
failed e = ground arith

rounds :
    (ps : List Polled) (e : EmitterLoop)
    → (let d = emit_rounds ps e in
        (d.stats.tx_count % 2 ^ 64 ≡ (e.stats.tx_count + taken ps) % 2 ^ 64)
        × (d.failure_lines ≡ e.failure_lines + lines e.reported_failure (refused ps)))
unfolding emit_rounds send_once
rounds [] e = ground arith
rounds (pending ∷ ps) e =
    let (t, l, f) = accepted pending e refl in
    let (u, m) = rounds ps (emit_round pending e) in
    (omega (arith, t, u), m ∙ ap₂ (λ n b. n + lines b (refused ps)) l f)
rounds (ready_ok ∷ ps) e =
    let (t, l, f) = accepted ready_ok e refl in
    let (u, m) = rounds ps (emit_round ready_ok e) in
    (omega (arith, t, u), m ∙ ap₂ (λ n b. n + lines b (refused ps)) l f)
rounds (ready_err ∷ ps) e =
    let (t, l, f) = failed e in
    let (u, m) = rounds ps (emit_round ready_err e) in
    (omega (arith, t, u), m ∙ ap₂ (λ n b. n + lines b (refused ps)) l f ∙ ground arith)

-- Over any outcomes of the sends, the emitter counts exactly the frames that the driver takes,
-- modulo the width of the counter, and writes one line of failure if it refuses any, else none.
pub emit_rounds-emission_start :
    (ps : List Polled) (s : Stats)
    → (let d = emit_rounds ps (emission_start s) in
        (d.stats.tx_count % 2 ^ 64 ≡ (s.tx_count + taken ps) % 2 ^ 64)
        × (d.failure_lines ≡ (if refused ps == 0 then 0 else 1)))
unfolding emission_start
emit_rounds-emission_start ps s = ground (arith, rounds ps (emission_start s))
