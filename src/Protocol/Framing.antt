-- ===== src/Protocol/Framing.antt =====
-- A frame that is sent is parsed back, also behind padding, and a foreign prefix is refused.
use esp_csi_rs_core.Common.{
  ℕ, ◌-◌, ◌/◌, ◌%◌, ◌^◌, ◌≤◌, ◌<◌, ◌≡◌, ◌≢◌, refl, sym, ap, ◌∙◌, Bool, true, false, List, [], ◌∷◌,
  ◌++◌, Option, none, some, arith, ltb, ◌==◌, if◌then◌else◌, length, Bool-cases, All, inl, inr,
}
use esp_csi_rs_core.Protocol.{
  Postcard, to_le_bytes, from_le_bytes, Serialized, frame, failed, panicked, serialize_with_magic,
  parse_with_magic,
}

from_le_bytes-to_le_bytes :
    (n : ℕ)
    → n < 2 ^ 32
    → from_le_bytes (n % 256) (n / 256 % 256) (n / 65536 % 256) (n / 16777216 % 256) ≡ n
from_le_bytes-to_le_bytes n h = omega arith

abbrev frame_bytes : Serialized → List ℕ
frame_bytes (frame bs) = bs
frame_bytes _ = []

abbrev is_frame : Serialized → ℕ
is_frame (frame bs) = 1
is_frame _ = 0

framed :
    (o : Option (List ℕ)) (before bytes : List ℕ)
    → elim o [ some body ↦ frame (before ++ body) | none ↦ failed ] ≡ frame bytes
    → (body : List ℕ) × (o ≡ some body) × (bytes ≡ before ++ body)
framed none before bytes h = absurd (omega (arith, ap is_frame h))
framed (some body) before bytes h = (body, refl, sym (ap frame_bytes h))

not_panicked : (bytes : List ℕ) → panicked ≢ frame bytes
not_panicked bytes h = omega (arith, ap is_frame h)

prefix_bytes :
    (a b c d : ℕ) (rest : List ℕ) (magic : ℕ)
    → a < 256
    → b < 256
    → c < 256
    → d < 256
    → from_le_bytes a b c d ≡ magic
    → a ∷ b ∷ c ∷ d ∷ rest ≡ to_le_bytes magic ++ rest
prefix_bytes a b c d rest magic va vb vc vd e =
    let e0 : a ≡ magic % 256 = omega arith in
    let e1 : b ≡ magic / 256 % 256 = omega arith in
    let e2 : c ≡ magic / 65536 % 256 = omega arith in
    let e3 : d ≡ magic / 16777216 % 256 = omega arith in λ i. e0 i ∷ e1 i ∷ e2 i ∷ e3 i ∷ rest

module _ {T : Type 0} (postcard : Postcard T) where
  open postcard use {to_slice, take_from_bytes, to_slice-fits, take_from_bytes-to_slice}

  prefixed :
      (magic : ℕ) (bs : List ℕ)
      → magic < 2 ^ 32
      → parse_with_magic postcard (to_le_bytes magic ++ bs) magic true ≡ take_from_bytes bs
  unfolding parse_with_magic
  prefixed magic bs h =
      let e : (from_le_bytes (magic % 256) (magic / 256 % 256) (magic / 65536 % 256)
              (magic / 16777216 % 256)
            == magic)
          ≡ true =
        ground (arith, from_le_bytes-to_le_bytes magic h) in
      ap (λ b. if b then take_from_bytes bs else none) e

  with_prefix :
      (packet : T) (magic buf_len : ℕ) (bytes padding : List ℕ) (short : Bool)
      → ltb buf_len 4 ≡ short
      → magic < 2 ^ 32
      → (if short then panicked else elim (to_slice packet (buf_len - 4)) [
        | some body ↦ frame (to_le_bytes magic ++ body)
        | none ↦ failed
      ])
        ≡ frame bytes
      → (length bytes ≤ buf_len)
        × (parse_with_magic postcard (bytes ++ padding) magic true ≡ some packet)
  with_prefix packet magic buf_len bytes padding true l h s = absurd (not_panicked bytes s)
  with_prefix packet magic buf_len bytes padding false l h s =
      let (body, e, f) = framed (to_slice packet (buf_len - 4)) (to_le_bytes magic) bytes s in
      let fits = to_slice-fits packet (buf_len - 4) body e in
      let room : 4 ≤ buf_len = ground arith in
      (
        omega (arith, ap length f, fits),
        ap (λ l. parse_with_magic postcard (l ++ padding) magic true) f
            ∙ prefixed magic (body ++ padding) h
            ∙ take_from_bytes-to_slice packet (buf_len - 4) body padding e,
      )

  -- What `serialize_with_magic` returns fits the buffer, and `parse_with_magic` in the same
  -- pairing mode and with the same magic reads the packet back, whatever bytes follow the frame.
  pub parse_with_magic-serialize_with_magic :
      (packet : T) (magic : ℕ) (send_magic : Bool) (buf_len : ℕ) (bytes padding : List ℕ)
      → magic < 2 ^ 32
      → serialize_with_magic postcard packet magic send_magic buf_len ≡ frame bytes
      → (length bytes ≤ buf_len)
        × (parse_with_magic postcard (bytes ++ padding) magic send_magic ≡ some packet)
  unfolding serialize_with_magic parse_with_magic
  parse_with_magic-serialize_with_magic packet magic true buf_len bytes padding h s =
      with_prefix packet magic buf_len bytes padding (ltb buf_len 4) refl h s
  parse_with_magic-serialize_with_magic packet magic false buf_len bytes padding h s =
      let (body, e, f) = framed (to_slice packet buf_len) [] bytes s in
      let fits = to_slice-fits packet buf_len body e in
      (
        omega (arith, ap length f, fits),
        ap (λ l. take_from_bytes (l ++ padding)) f
            ∙ take_from_bytes-to_slice packet buf_len body padding e,
      )

  -- A frame with a magic begins with it.
  pub serialize_with_magic-frame :
      (packet : T) (magic buf_len : ℕ) (bytes : List ℕ)
      → serialize_with_magic postcard packet magic true buf_len ≡ frame bytes
      → (body : List ℕ) × (bytes ≡ to_le_bytes magic ++ body)
  unfolding serialize_with_magic
  serialize_with_magic-frame packet magic buf_len bytes h =
      long_enough (ltb buf_len 4) (to_slice packet (buf_len - 4)) h
    where
      long_enough :
          (short : Bool) (o : Option (List ℕ))
          → (if short
              then panicked
              else elim o [ some body ↦ frame (to_le_bytes magic ++ body) | none ↦ failed ])
            ≡ frame bytes
          → (body : List ℕ) × (bytes ≡ to_le_bytes magic ++ body)
      long_enough true o e = absurd (not_panicked bytes e)
      long_enough false o e = let (body, _, f) = framed o (to_le_bytes magic) bytes e in (body, f)

  -- With a magic expected, a frame that is shorter than the prefix or begins with another one is
  -- refused, whatever postcard would make of it.
  pub parse_with_magic-refused :
      (bytes : List ℕ) (magic : ℕ)
      → magic < 2 ^ 32
      → ((rest : List ℕ) → bytes ≢ to_le_bytes magic ++ rest)
      → All (λ b. b < 256) bytes
      → parse_with_magic postcard bytes magic true ≡ none
  unfolding parse_with_magic
  parse_with_magic-refused [] magic h n v = refl
  parse_with_magic-refused (a ∷ []) magic h n v = refl
  parse_with_magic-refused (a ∷ b ∷ []) magic h n v = refl
  parse_with_magic-refused (a ∷ b ∷ c ∷ []) magic h n v = refl
  parse_with_magic-refused (a ∷ b ∷ c ∷ d ∷ rest) magic h n (va, (vb, (vc, (vd, _)))) =
      elim (Bool-cases (from_le_bytes a b c d == magic)) [
        | inr f ↦ ap (λ t. if t then take_from_bytes rest else none) f
        | inl t ↦ absurd (n rest (prefix_bytes a b c d rest magic va vb vc vd (ground arith)))
      ]
