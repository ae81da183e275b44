-- ===== src/Logging/Encode/Digits.antt =====
-- Decimal notation, as the writers of `logging.rs` are to produce it.
use native.Mathlib.Nat.{pow-suc}
use esp_csi_rs_core.Common.{
  ℕ, zero, suc, ◌+◌, ◌-◌, ◌*◌, ◌/◌, ◌%◌, ◌^◌, ◌≤◌, ◌<◌, ◌≡◌, refl, sym, ap, ◌∙◌, false, List, [],
  ◌∷◌, ◌++◌, some, arith, ltb, ◌==◌, if◌then◌else◌, length, length-append, append_assoc, dec_lt,
  All, All-append,
}
use esp_csi_rs_core.Logging.Encode.{fill_tmp}

-- The number in at most `k + 1` digits, the first one not zero but for zero itself.
abbrev pub decimal : ℕ → ℕ → List ℕ
decimal zero n = (48 + n % 10) ∷ []
decimal (suc k) n = if ltb n 10 then (48 + n) ∷ [] else decimal k (n / 10) ++ ((48 + n % 10) ∷ [])

-- The number that decimal digits denote, behind the value `v` of the digits before.
abbrev pub value : List ℕ → ℕ → ℕ
value [] v = v
value (b ∷ bs) v = value bs (v * 10 + (b - 48))

pub value-append : (xs ys : List ℕ) (v : ℕ) → value (xs ++ ys) v ≡ value ys (value xs v)
value-append [] ys v = refl
value-append (x ∷ xs) ys v = value-append xs ys (v * 10 + (x - 48))

abbrev pub IsDigit : ℕ → Type 0
IsDigit b = (48 ≤ b) × (b < 58)

pub decimal_small : (k n : ℕ) → n < 10 → decimal (suc k) n ≡ (48 + n) ∷ []
decimal_small k n h = ground arith

pub decimal_large :
    (k n : ℕ) → 10 ≤ n → decimal (suc k) n ≡ decimal k (n / 10) ++ ((48 + n % 10) ∷ [])
decimal_large k n h = ground arith

shorter : (k n : ℕ) → n < 10 ^ suc (suc k) → n / 10 < 10 ^ suc k
shorter k n h = omega (arith, pow-suc 10 (suc k))

pub value-decimal : (k n : ℕ) → n < 10 ^ suc k → value (decimal k n) 0 ≡ n
value-decimal zero n h = omega arith
value-decimal (suc k) n h = elim (dec_lt n 10) [
  | yes l ↦ rw (decimal_small k n l) (omega arith)
  | no l ↦
      rw (decimal_large k n (omega arith), value-append (decimal k (n / 10)) _ 0)
        (omega (arith, value-decimal k (n / 10) (shorter k n h)))
]

pub length-decimal : (k n : ℕ) → (0 < length (decimal k n)) × (length (decimal k n) ≤ suc k)
length-decimal zero n = omega arith
length-decimal (suc k) n = elim (dec_lt n 10) [
  | yes l ↦ rw (decimal_small k n l) (omega arith)
  | no l ↦
      rw (decimal_large k n (omega arith), length-append (decimal k (n / 10)) ((48 + n % 10) ∷ []))
        (omega (arith, length-decimal k (n / 10)))
]

pub decimal-IsDigit : (k n : ℕ) → All IsDigit (decimal k n)
decimal-IsDigit zero n = (omega arith, tt)
decimal-IsDigit (suc k) n = elim (dec_lt n 10) [
  | yes l ↦ rw (decimal_small k n l) (omega arith, tt)
  | no l ↦
      rw (decimal_large k n (omega arith))
        (All-append IsDigit (decimal k (n / 10)) _ (decimal-IsDigit k (n / 10)) (omega arith, tt))
]

fill_tmp-zero : (k : ℕ) (tmp : List ℕ) → fill_tmp k 0 tmp ≡ some tmp
unfolding fill_tmp
fill_tmp-zero zero tmp = refl
fill_tmp-zero (suc k) tmp = refl

fill_tmp-suc :
    (k n : ℕ) (tmp : List ℕ)
    → 0 < n
    → fill_tmp (suc k) n tmp ≡ fill_tmp k (n / 10) ((48 + n % 10) ∷ tmp)
unfolding fill_tmp
fill_tmp-suc k n tmp h = let e : (n == 0) ≡ false = ground arith in rw (fill_tmp, e) refl

last_digit :
    (k n : ℕ) (tmp : List ℕ) → 0 < n → n < 10 → fill_tmp (suc k) n tmp ≡ some ((48 + n) ∷ tmp)
last_digit k n tmp h l =
    let e : n / 10 ≡ 0 = omega arith in
    let f : n % 10 ≡ n = omega arith in
    rw (fill_tmp-suc k n tmp h, e, f) (fill_tmp-zero k ((48 + n) ∷ tmp))

-- A buffer of `k + 1` bytes takes the digits of a number below `10 ^ (k + 1)`.
pub fill_tmp_lem :
    (k n : ℕ) (tmp : List ℕ)
    → 0 < n
    → n < 10 ^ suc k
    → fill_tmp (suc k) n tmp ≡ some (decimal k n ++ tmp)
fill_tmp_lem zero n tmp h l =
    let e : n % 10 ≡ n = omega arith in rw e (last_digit 0 n tmp h (omega arith))
fill_tmp_lem (suc k) n tmp h l = elim (dec_lt n 10) [
  | yes s ↦ rw (decimal_small k n s) (last_digit (suc k) n tmp h s)
  | no s ↦
      rw (decimal_large k n (omega arith), fill_tmp-suc (suc k) n tmp h)
        (fill_tmp_lem k (n / 10) ((48 + n % 10) ∷ tmp) (omega arith) (shorter k n l)
          ∙ ap some (sym (append_assoc (decimal k (n / 10)) ((48 + n % 10) ∷ []) tmp)))
]

-- A number of few digits takes few bytes, whatever the room for it.
pub length-decimal_below : (k j n : ℕ) → n < 10 ^ suc j → length (decimal k n) ≤ suc j
length-decimal_below zero j n h = omega arith
length-decimal_below (suc k) zero n h = rw (decimal_small k n (omega arith)) (omega arith)
length-decimal_below (suc k) (suc j) n h = elim (dec_lt n 10) [
  | yes l ↦ rw (decimal_small k n l) (omega arith)
  | no l ↦
      rw (decimal_large k n (omega arith), length-append (decimal k (n / 10)) ((48 + n % 10) ∷ []))
        (omega (arith, length-decimal_below k j (n / 10) (shorter j n h)))
]
