-- ===== src/Logging/Encode/Writes.antt =====
-- Each writer appends a text: the decimal notation of its number, and the marks around it.
use esp_csi_rs_core.Common.{
  ℕ, zero, suc, ◌+◌, ◌/◌, ◌%◌, ◌^◌, ◌≤◌, ◌<◌, ◌≡◌, refl, sym, ap, ◌∙◌, true, false, List, [], ◌∷◌,
  ◌++◌, Option, some, arith, leb, ◌==◌, if◌then◌else◌, length, set, take, length-set, take-suc-set,
  append_assoc, append-nil, dec_lt, ◌>>=◌, lt→ltb, bind_assoc, bind_cong, bind_some, All,
}
use esp_csi_rs_core.Common.Int.{ℤ, pos, negsuc, IsI8, IsI32}
use esp_csi_rs_core.Logging.Encode.{
  Cursor, put, write_slice, fill_tmp, write_u32, write_i32, pad6_tmp, hex, write_hex_u8,
  write_i8_digits, write_i8_sep,
}
use esp_csi_rs_core.Logging.Encode.Digits.{
  decimal, value, IsDigit, decimal-IsDigit, value-decimal, length-decimal, fill_tmp_lem,
  decimal_small, decimal_large,
}

abbrev pub u32_text : ℕ → List ℕ
u32_text n = decimal 9 n

abbrev pub i32_text : ℤ → List ℕ
i32_text (pos n) = u32_text n
i32_text (negsuc n) = 45 ∷ u32_text (n + 1)

abbrev pub hex_text : ℕ → List ℕ
hex_text n = hex (n / 16) ∷ hex (n % 16) ∷ []

abbrev pub pad6_text : ℕ → List ℕ
pad6_text n = pad6_tmp 6 n []

-- A sample and its separator.
abbrev pub i8_text : ℤ → ℕ → List ℕ
i8_text z sep = i32_text z ++ (sep ∷ [])

pub write_slice-append :
    (xs ys : List ℕ) (c : Cursor) → (write_slice xs c >>= write_slice ys) ≡ write_slice (xs ++ ys) c
unfolding write_slice
write_slice-append [] ys c = refl
write_slice-append (x ∷ xs) ys c =
    bind_assoc (put x c) (write_slice xs) (write_slice ys)
    ∙ bind_cong (put x c) _ _ (λ d. write_slice-append xs ys d)

pub put_lem : (b : ℕ) (c : Cursor) → put b c ≡ write_slice (b ∷ []) c
unfolding write_slice
put_lem b c = sym (bind_some (put b c))

-- A text behind a byte, and a byte behind a text.
pub put-write_slice :
    (b : ℕ) (xs : List ℕ) (f : Cursor → Option Cursor) (c : Cursor)
    → ((d : Cursor) → f d ≡ write_slice xs d)
    → (put b c >>= f) ≡ write_slice (b ∷ xs) c
unfolding write_slice
put-write_slice b xs f c h = bind_cong (put b c) f (write_slice xs) h

pub write_slice-bind :
    (xs ys : List ℕ) (o : Option Cursor) (f : Cursor → Option Cursor) (c : Cursor)
    → o ≡ write_slice xs c
    → ((d : Cursor) → f d ≡ write_slice ys d)
    → (o >>= f) ≡ write_slice (xs ++ ys) c
write_slice-bind xs ys o f c e h =
    ap (λ p. p >>= f) e
    ∙ bind_cong (write_slice xs c) f (write_slice ys) h
    ∙ write_slice-append xs ys c

pub write_u32_lem : (n : ℕ) (c : Cursor) → n < 2 ^ 32 → write_u32 n c ≡ write_slice (u32_text n) c
unfolding write_u32
write_u32_lem zero c h = put_lem 48 c
write_u32_lem (suc n) c h =
    let e : (suc n == 0) ≡ false = ground arith in
    let f : fill_tmp 10 (suc n) [] ≡ some (u32_text (suc n)) =
      fill_tmp_lem 9 (suc n) [] (omega arith) (omega arith)
      ∙ ap some (append-nil (u32_text (suc n))) in
    ap (λ b. if b then put 48 c else (fill_tmp 10 (suc n) [] >>= λ tmp. write_slice tmp c)) e
    ∙ ap (λ o. o >>= λ tmp. write_slice tmp c) f

pub write_i32_lem : (z : ℤ) (c : Cursor) → IsI32 z → write_i32 z c ≡ write_slice (i32_text z) c
unfolding write_i32
write_i32_lem (pos n) c h = write_u32_lem n c (omega arith)
write_i32_lem (negsuc n) c h =
    put-write_slice 45 (u32_text (n + 1)) (write_u32 (n + 1)) c
      (λ d. write_u32_lem (n + 1) d (omega arith))

two_puts : (a b : ℕ) (c : Cursor) → (put a c >>= put b) ≡ write_slice (a ∷ b ∷ []) c
two_puts a b c = put-write_slice a (b ∷ []) (put b) c (put_lem b)

three_puts :
    (a b d : ℕ) (c : Cursor) → (put a c >>= put b >>= put d) ≡ write_slice (a ∷ b ∷ d ∷ []) c
three_puts a b d c =
    write_slice-bind (a ∷ b ∷ []) (d ∷ []) (put a c >>= put b) (put d) c (two_puts a b c)
      (put_lem d)

pub write_hex_u8_lem : (n : ℕ) (c : Cursor) → write_hex_u8 n c ≡ write_slice (hex_text n) c
unfolding write_hex_u8
write_hex_u8_lem n c = two_puts (hex (n / 16)) (hex (n % 16)) c

two_digits : (n : ℕ) → 10 ≤ n → n < 100 → u32_text n ≡ (48 + n / 10) ∷ (48 + n % 10) ∷ []
two_digits n h k = rw (decimal_large 8 n h, decimal_small 7 (n / 10) (omega arith)) refl

three_digits :
    (n : ℕ)
    → 100 ≤ n
    → n < 1000
    → u32_text n ≡ (48 + n / 100) ∷ (48 + n / 10 % 10) ∷ (48 + n % 10) ∷ []
three_digits n h k =
    let e : n / 10 / 10 ≡ n / 100 = omega arith in
    rw
      (
        decimal_large 8 n (omega arith),
        decimal_large 7 (n / 10) (omega arith),
        e,
        decimal_small 6 (n / 100) (omega arith),
      )
      refl

write_i8_digits_lem :
    (n : ℕ) (c : Cursor) → n ≤ 128 → write_i8_digits n c ≡ write_slice (u32_text n) c
unfolding write_i8_digits
write_i8_digits_lem n c h = elim (dec_lt n 10) [
  | yes a ↦
      let e : leb 100 n ≡ false = ground arith in
      let f : leb 10 n ≡ false = ground arith in
      rw (write_i8_digits, e, f, decimal_small 8 n a) (put_lem (48 + n) c)
  | no a ↦ elim (dec_lt n 100) [
    | yes b ↦
        let e : leb 100 n ≡ false = ground arith in
        let f : leb 10 n ≡ true = ground arith in
        rw (write_i8_digits, e, f, two_digits n (omega arith) b)
          (two_puts (48 + n / 10) (48 + n % 10) c)
    | no b ↦
        let e : leb 100 n ≡ true = ground arith in
        rw (write_i8_digits, e, three_digits n (omega arith) (omega arith))
          (three_puts (48 + n / 100) (48 + n / 10 % 10) (48 + n % 10) c)
  ]
]

pub write_i8_sep_lem :
    (z : ℤ) (sep : ℕ) (c : Cursor) → IsI8 z → write_i8_sep z sep c ≡ write_slice (i8_text z sep) c
unfolding write_i8_sep
write_i8_sep_lem (pos n) sep c h =
    write_slice-bind (u32_text n) (sep ∷ []) (write_i8_digits n c) (put sep) c
      (write_i8_digits_lem n c (omega arith)) (put_lem sep)
write_i8_sep_lem (negsuc n) sep c h =
    write_slice-bind (45 ∷ u32_text (n + 1)) (sep ∷ []) (put 45 c >>= write_i8_digits (n + 1))
      (put sep) c
      (put-write_slice 45 (u32_text (n + 1)) (write_i8_digits (n + 1)) c
        (λ d. write_i8_digits_lem (n + 1) d (omega arith)))
      (put_lem sep)

-- What a write of `xs` does to the buffer when there is room.
pub record Written (xs : List ℕ) (c e : Cursor) : Type 0 where
  pub at : e.at ≡ c.at + length xs
  pub size : length e.buf ≡ length c.buf
  pub text : take e.at e.buf ≡ take c.at c.buf ++ xs

put-Written :
    (b : ℕ) (c : Cursor)
    → c.at < length c.buf
    → (e : Cursor) × (put b c ≡ some e) × Written (b ∷ []) c e
unfolding put
put-Written b c h = (
  record { buf = set c.buf c.at b; at = c.at + 1 },
  rw (put, lt→ltb c.at (length c.buf) h) refl,
  record {
    at = refl;
    size = length-set c.buf c.at b;
    text = let e : c.at + 1 ≡ suc c.at = omega arith in rw e (take-suc-set c.at c.buf b h);
  },
)

pub write_slice-Written :
    (xs : List ℕ) (c : Cursor)
    → c.at + length xs ≤ length c.buf
    → (e : Cursor) × (write_slice xs c ≡ some e) × Written xs c e
unfolding write_slice
write_slice-Written [] c h =
    (c, refl, record { at = omega arith; size = refl; text = sym (append-nil (take c.at c.buf)) })
write_slice-Written (x ∷ xs) c h =
    let (d, e, w) = put-Written x c (omega arith) in
    let (r, f, v) = write_slice-Written xs d (omega (arith, w.at, w.size)) in
    (
      r,
      ap (λ o. o >>= write_slice xs) e ∙ f,
      record {
        at = omega (arith, w.at, v.at);
        size = v.size ∙ w.size;
        text = v.text ∙ ap (λ l. l ++ xs) w.text ∙ append_assoc (take c.at c.buf) (x ∷ []) xs;
      },
    )

abbrev pub sign_text : ℤ → List ℕ
sign_text (pos n) = []
sign_text (negsuc n) = 45 ∷ []

abbrev pub magnitude : ℤ → ℕ
magnitude (pos n) = n
magnitude (negsuc n) = n + 1

-- `write_i32` writes decimal digits that denote the magnitude, at most ten of them, behind a minus
-- sign exactly below zero.
pub write_i32-value :
    (z : ℤ) (c : Cursor)
    → IsI32 z
    → (digits : List ℕ) × (write_i32 z c ≡ write_slice (sign_text z ++ digits) c)
      × All IsDigit digits
      × (value digits 0 ≡ magnitude z)
      × (length digits ≤ 10)
write_i32-value (pos n) c h =
    let (_, short) = length-decimal 9 n in
    (
      u32_text n,
      write_i32_lem (pos n) c h,
      decimal-IsDigit 9 n,
      value-decimal 9 n (omega arith),
      omega (arith, short),
    )
write_i32-value (negsuc n) c h =
    let (_, short) = length-decimal 9 (n + 1) in
    (
      u32_text (n + 1),
      write_i32_lem (negsuc n) c h,
      decimal-IsDigit 9 (n + 1),
      value-decimal 9 (n + 1) (omega arith),
      omega (arith, short),
    )
