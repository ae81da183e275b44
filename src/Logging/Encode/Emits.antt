-- ===== src/Logging/Encode/Emits.antt =====
-- Sequences of writers: what they append, and how many bytes at most.
use esp_csi_rs_core.Common.{
  ℕ, suc, ◌+◌, ◌^◌, ◌≤◌, ◌<◌, ◌≡◌, refl, ap, ◌∙◌, List, [], ◌∷◌, ◌++◌, Option, arith, length,
  length-append, ◌>>=◌, bind_cong,
}
use esp_csi_rs_core.Common.Int.{ℤ, pos, negsuc, IsI8, IsI32}
use esp_csi_rs_core.Logging.Encode.{
  Cursor, put, write_slice, write_u32, write_i32, write_u32_pad6, write_hex_u8, write_i8_sep,
  pad6_tmp,
}
use esp_csi_rs_core.Logging.Encode.Digits.{length-decimal_below}
use esp_csi_rs_core.Logging.Encode.Writes.{
  u32_text, i32_text, hex_text, pad6_text, i8_text, write_slice-append, put_lem, write_u32_lem,
  write_i32_lem, write_hex_u8_lem, write_i8_sep_lem,
}

abbrev pub Writer : Type 0
Writer = Cursor → Option Cursor

-- One writer behind the other, on the same buffer and cursor.
infixr 4 ◌⨾◌
unfoldable pub ◌⨾◌ : Writer → Writer → Writer
(f ⨾ g) c = f c >>= g

pub record Emits (most : ℕ) (f : Writer) (text : List ℕ) : Type 0 where
  pub writes : (c : Cursor) → f c ≡ write_slice text c
  pub bound : length text ≤ most

module _ {m n : ℕ} {f g : Writer} {xs ys : List ℕ} where
  infixr 4 ◌⨟◌
  pub ◌⨟◌ : Emits m f xs → Emits n g ys → Emits (m + n) (f ⨾ g) (xs ++ ys)
  unfolding ◌⨾◌
  a ⨟ b = record {
    writes = λ c.
        ap (λ o. o >>= g) (a.writes c)
        ∙ bind_cong (write_slice xs c) g (write_slice ys) b.writes
        ∙ write_slice-append xs ys c;
    bound = omega (arith, length-append xs ys, a.bound, b.bound);
  }

pub put-Emits : (b : ℕ) → Emits 1 (put b) (b ∷ [])
put-Emits b = record { writes = put_lem b; bound = omega arith }

pub write_slice-Emits : (xs : List ℕ) (n : ℕ) → length xs ≤ n → Emits n (write_slice xs) xs
write_slice-Emits xs n h = record { writes = λ c. refl; bound = h }

pub digits-Emits :
    (j n : ℕ) → n < 10 ^ suc j → n < 2 ^ 32 → Emits (suc j) (write_u32 n) (u32_text n)
digits-Emits j n h k = record {
  writes = λ c. write_u32_lem n c k;
  bound = length-decimal_below 9 j n h;
}

pub write_u32-Emits : (n : ℕ) → n < 4294967296 → Emits 10 (write_u32 n) (u32_text n)
write_u32-Emits n h = digits-Emits 9 n (omega arith) (omega arith)

pub write_i32-Emits : (z : ℤ) → IsI32 z → Emits 11 (write_i32 z) (i32_text z)
write_i32-Emits (pos n) h = record {
  writes = λ c. write_i32_lem (pos n) c h;
  bound = omega (arith, length-decimal_below 9 9 n (omega arith));
}
write_i32-Emits (negsuc n) h = record {
  writes = λ c. write_i32_lem (negsuc n) c h;
  bound = omega (arith, length-decimal_below 9 9 (n + 1) (omega arith));
}

pub write_hex_u8-Emits : (n : ℕ) → Emits 2 (write_hex_u8 n) (hex_text n)
write_hex_u8-Emits n = record { writes = write_hex_u8_lem n; bound = omega arith }

pub write_u32_pad6-Emits : (n : ℕ) → Emits 6 (write_u32_pad6 n) (pad6_text n)
unfolding write_u32_pad6 pad6_tmp
write_u32_pad6-Emits n = record { writes = λ c. refl; bound = omega arith }

pub write_i8_sep-Emits : (z : ℤ) (sep : ℕ) → IsI8 z → Emits 5 (write_i8_sep z sep) (i8_text z sep)
write_i8_sep-Emits (pos n) sep h = record {
  writes = λ c. write_i8_sep_lem (pos n) sep c h;
  bound =
      omega
        (arith, length-append (u32_text n) (sep ∷ []), length-decimal_below 9 2 n (omega arith));
}
write_i8_sep-Emits (negsuc n) sep h = record {
  writes = λ c. write_i8_sep_lem (negsuc n) sep c h;
  bound = omega (
    arith,
    length-append (u32_text (n + 1)) (sep ∷ []),
    length-decimal_below 9 2 (n + 1) (omega arith),
  );
}
