-- ===== src/Logging/ArrayList/Pieces.antt =====
-- What the writers of the array list do at a cursor within the buffer: they write their whole text,
-- or there is no room for it, and then they end near the end of the buffer, since the pieces are
-- short.
use esp_csi_rs_core.Common.{
  ℕ, ◌+◌, ◌≤◌, ◌<◌, ◌≡◌, refl, sym, ap, ◌∙◌, true, false, List, [], ◌∷◌, ◌++◌, Option, some, arith,
  ltb, length, take, length-append, append_assoc, append-nil, dec_lt, ◌>>=◌, lt→ltb, All,
}
use esp_csi_rs_core.Common.Int.{ℤ, pos, negsuc}
use esp_csi_rs_core.Logging.Encode.{Cursor}
use esp_csi_rs_core.Logging.Encode.Digits.{length-decimal}
use esp_csi_rs_core.Logging.Encode.Writes.{Written, write_slice-Written, i32_text, u32_text}
use esp_csi_rs_core.Logging.Encode.Emits.{Writer, ◌⨾◌}
use esp_csi_rs_core.Logging.ArrayList.{
  write_str, write_once, go_on, write_fmt, display, write_field, write_fields,
}

pub Written-nil : (c : Cursor) → Written [] c c
Written-nil c = record { at = omega arith; size = refl; text = sym (append-nil (take c.at c.buf)) }

pub Written-append :
    (xs ys : List ℕ) (c d e : Cursor) → Written xs c d → Written ys d e → Written (xs ++ ys) c e
Written-append xs ys c d e v w = record {
  at = omega (arith, length-append xs ys, v.at, w.at);
  size = w.size ∙ v.size;
  text = w.text ∙ ap (λ l. l ++ ys) v.text ∙ append_assoc (take c.at c.buf) xs ys;
}

-- A whole text, or one for which there is no room, of which a part may stand.
pub data Wrote (f : Writer) (text : List ℕ) (c : Cursor) : Type 0 where
  whole : (e : Cursor) → f c ≡ some e → Written text c e → e.at ≤ length e.buf → Wrote f text c
  short :
      (e : Cursor)
      → f c ≡ some e
      → length e.buf ≡ length c.buf
      → e.at ≤ length e.buf
      → length c.buf < c.at + length text
      → c.at ≤ e.at
      → length c.buf < e.at + 22
      → Wrote f text c

abbrev pub Writes : Writer → List ℕ → Type 0
Writes f text = (c : Cursor) → c.at ≤ length c.buf → Wrote f text c

-- With room for the text it is written whole.
pub whole_of_room :
    (f : Writer) (text : List ℕ) (c : Cursor)
    → Wrote f text c
    → c.at + length text ≤ length c.buf
    → (e : Cursor) × (f c ≡ some e) × Written text c e
whole_of_room f text c (whole e p w l) room = (e, p, w)
whole_of_room f text c (short e p s l tight up end) room = absurd (omega (arith, tight))

step : (o : Option Cursor) (d : Cursor) (g : Writer) → o ≡ some d → (o >>= g) ≡ g d
step o d g p = ap (λ q. q >>= g) p

-- If the first writer wrote its whole text, what the second one does decides.
join_whole :
    (f g : Writer) (xs ys : List ℕ) (c d : Cursor)
    → f c ≡ some d
    → Written xs c d
    → Wrote g ys d
    → Wrote (f ⨾ g) (xs ++ ys) c
unfolding ◌⨾◌
join_whole f g xs ys c d p w (whole e q v l) =
    whole e (step (f c) d g p ∙ q) (Written-append xs ys c d e w v) l
join_whole f g xs ys c d p w (short e q s l tight up end) =
    short e (step (f c) d g p ∙ q) (s ∙ w.size) l
      (omega (arith, tight, w.at, w.size, length-append xs ys)) (omega (arith, w.at, up))
      (omega (arith, w.size, end))

-- If it did not, there is no room for both.
join_short :
    (f g : Writer) (xs ys : List ℕ) (c d : Cursor)
    → f c ≡ some d
    → length d.buf ≡ length c.buf
    → length c.buf < c.at + length xs
    → c.at ≤ d.at
    → length c.buf < d.at + 22
    → Wrote g ys d
    → Wrote (f ⨾ g) (xs ++ ys) c
unfolding ◌⨾◌
join_short f g xs ys c d p s tight up end (whole e q v l) =
    short e (step (f c) d g p ∙ q) (v.size ∙ s) l (omega (arith, tight, length-append xs ys))
      (omega (arith, v.at, up)) (omega (arith, v.at, end))
join_short f g xs ys c d p s tight up end (short e q t l t2 up2 end2) =
    short e (step (f c) d g p ∙ q) (t ∙ s) l (omega (arith, tight, length-append xs ys))
      (omega (arith, up, up2)) (omega (arith, up2, end))

join :
    (f g : Writer) (xs ys : List ℕ) (c : Cursor)
    → Wrote f xs c
    → Writes g ys
    → Wrote (f ⨾ g) (xs ++ ys) c
join f g xs ys c (whole d p w l) h = join_whole f g xs ys c d p w (h d l)
join f g xs ys c (short d p s l tight up end) h = join_short f g xs ys c d p s tight up end (h d l)

module _ {f g : Writer} {xs ys : List ℕ} where
  infixr 4 ◌⨠◌
  pub ◌⨠◌ : Writes f xs → Writes g ys → Writes (f ⨾ g) (xs ++ ys)
  a ⨠ b = λ c h. join f g xs ys c (a c h) b

-- `write_str` either writes the piece, or refuses it for want of room and writes nothing.
data Str (s : List ℕ) (c : Cursor) : Type 0 where
  done :
      (d : Cursor) → write_str s c ≡ some (d, true) → Written s c d → d.at ≤ length d.buf → Str s c
  refused : write_str s c ≡ some (c, false) → length c.buf < c.at + length s → Str s c

write_str-cases : (s : List ℕ) (c : Cursor) → Str s c
unfolding write_str
write_str-cases s c = elim (dec_lt (length c.buf) (c.at + length s)) [
  | yes l ↦ refused (rw (write_str, lt→ltb (length c.buf) (c.at + length s) l) refl) l
  | no l ↦
      let e : ltb (length c.buf) (c.at + length s) ≡ false = ground arith in
      let (d, p, w) = write_slice-Written s c (omega arith) in
      done d (rw (write_str, e, p) refl) w (omega (arith, w.at, w.size))
]

abbrev pub IsPiece : List ℕ → Type 0
IsPiece s = length s ≤ 22

pub write_once-Writes : (s : List ℕ) → IsPiece s → Writes (write_once s) s
unfolding write_once
write_once-Writes s few c h = after (write_str-cases s c)
  where
    after : Str s c → Wrote (write_once s) s c
    after (done d p w l) = whole d (ap (λ o. o >>= λ r. some r.0) p) w l
    after (refused p l) =
        short c (ap (λ o. o >>= λ r. some r.0) p) refl h l (omega arith) (omega (arith, few, l))

abbrev pub join_pieces : List (List ℕ) → List ℕ
join_pieces [] = []
join_pieces (s ∷ ss) = s ++ join_pieces ss

pub join_pieces-append :
    (xs ys : List (List ℕ)) → join_pieces (xs ++ ys) ≡ join_pieces xs ++ join_pieces ys
join_pieces-append [] ys = refl
join_pieces-append (x ∷ xs) ys =
    ap (λ t. x ++ t) (join_pieces-append xs ys)
    ∙ sym (append_assoc x (join_pieces xs) (join_pieces ys))

module _ (s : List ℕ) (ss : List (List ℕ)) (rest : Writes (write_fmt ss) (join_pieces ss)) where
  fmt_done :
      (c d : Cursor)
      → write_fmt (s ∷ ss) c ≡ write_fmt ss d
      → Written s c d
      → Wrote (write_fmt ss) (join_pieces ss) d
      → Wrote (write_fmt (s ∷ ss)) (s ++ join_pieces ss) c
  fmt_done c d p w (whole e q v l) = whole e (p ∙ q) (Written-append s (join_pieces ss) c d e w v) l
  fmt_done c d p w (short e q t l tight up end) =
      short e (p ∙ q) (t ∙ w.size) l
        (omega (arith, tight, w.at, w.size, length-append s (join_pieces ss)))
        (omega (arith, w.at, up)) (omega (arith, w.size, end))

  fmt_after :
      (c : Cursor)
      → c.at ≤ length c.buf
      → IsPiece s
      → Str s c
      → Wrote (write_fmt (s ∷ ss)) (s ++ join_pieces ss) c
  unfolding write_fmt
  fmt_after c h few (done d p w l) =
      fmt_done c d (ap (λ o. o >>= go_on (write_fmt ss)) p) w (rest d l)
  fmt_after c h few (refused p l) =
      short c (ap (λ o. o >>= go_on (write_fmt ss)) p) refl h
        (omega (arith, l, length-append s (join_pieces ss))) (omega arith) (omega (arith, few, l))

pub write_fmt-Writes :
    (ss : List (List ℕ)) → All IsPiece ss → Writes (write_fmt ss) (join_pieces ss)
unfolding write_fmt
write_fmt-Writes [] few c h = whole c refl (Written-nil c) h
write_fmt-Writes (s ∷ ss) (few, rest) c h =
    fmt_after s ss (write_fmt-Writes ss rest) c h few (write_str-cases s c)

-- A field is its number and a comma.
abbrev pub field_text : ℤ → List ℕ
field_text z = i32_text z ++ (44 ∷ [])

abbrev pub fields_text : List ℤ → List ℕ
fields_text [] = []
fields_text (z ∷ zs) = field_text z ++ fields_text zs

pub digits_few : (n : ℕ) → IsPiece (u32_text n)
digits_few n = let (_, few) = length-decimal 9 n in omega (arith, few)

write_field-Writes : (z : ℤ) → Writes (write_field z) (field_text z)
unfolding write_field
write_field-Writes (pos n) =
    write_fmt-Writes (display (pos n) ++ ((44 ∷ []) ∷ [])) (digits_few n, (omega arith, tt))
write_field-Writes (negsuc n) =
    write_fmt-Writes (display (negsuc n) ++ ((44 ∷ []) ∷ []))
      (omega arith, (digits_few (n + 1), (omega arith, tt)))

pub write_fields-Writes : (zs : List ℤ) → Writes (write_fields zs) (fields_text zs)
unfolding write_fields
write_fields-Writes [] = λ c h. whole c refl (Written-nil c) h
write_fields-Writes (z ∷ zs) = write_field-Writes z ⨠ write_fields-Writes zs
