-- ===== src/Logging/Encode.antt =====
-- The byte writers of lib/logging/logging.rs, which append to a buffer at a cursor. An index out of
-- bounds is a panic, which is `none`.
pub mod Digits
pub mod Writes
pub mod Emits
use esp_csi_rs_core.Common.{
  ℕ, zero, suc, ◌+◌, ◌-◌, ◌*◌, ◌/◌, ◌%◌, Bool, List, [], ◌∷◌, Option, none, some, ltb, leb, ◌==◌,
  if◌then◌else◌, length, set, ◌>>=◌,
}
use esp_csi_rs_core.Common.Int.{ℤ, pos, negsuc}

-- `buf` and `pos` (`offset`), which the writers take by mutable reference.
pub record Cursor : Type 0 where
  pub buf : List ℕ
  pub at : ℕ

-- `buf[p] = b; p += 1`
unfoldable pub put : ℕ → Cursor → Option Cursor
put b c =
    if ltb c.at (length c.buf)
    then some (record { buf = set c.buf c.at b; at = c.at + 1 })
    else none

-- Bytes one after the other; `write_slice` and the loops that copy a `tmp` out.
unfoldable pub write_slice : List ℕ → Cursor → Option Cursor
write_slice [] c = some c
write_slice (b ∷ bs) c = put b c >>= write_slice bs

-- The loop that fills `tmp`, of `room` bytes yet, from the lowest digit: what it has filled stands
-- in the list from the highest index down, as the loop behind it copies it out.
unfoldable pub fill_tmp : ℕ → ℕ → List ℕ → Option (List ℕ)
fill_tmp zero n tmp = if n == 0 then some tmp else none
fill_tmp (suc room) n tmp =
    let rest = fill_tmp room (n / 10) ((48 + n % 10) ∷ tmp) in if n == 0 then some tmp else rest

unfoldable pub write_u32 : ℕ → Cursor → Option Cursor
unfolding fill_tmp put write_slice
write_u32 n c = if n == 0 then put 48 c else (fill_tmp 10 n [] >>= λ tmp. write_slice tmp c)

-- `(-(n as i64)) as u32` at `n` below zero is the magnitude.
unfoldable pub write_i32 : ℤ → Cursor → Option Cursor
unfolding write_u32 put
write_i32 (pos n) c = write_u32 n c
write_i32 (negsuc n) c = put 45 c >>= write_u32 (n + 1)

-- `tmp` has six bytes of '0': the loop fills at most six of them, and all are copied out.
unfoldable pub pad6_tmp : ℕ → ℕ → List ℕ → List ℕ
pad6_tmp zero n tmp = tmp
pad6_tmp (suc left) n tmp =
    let digit = if n == 0 then 48 else 48 + n % 10 in pad6_tmp left (n / 10) (digit ∷ tmp)

unfoldable pub write_u32_pad6 : ℕ → Cursor → Option Cursor
unfolding pad6_tmp write_slice
write_u32_pad6 n c = write_slice (pad6_tmp 6 n []) c

-- `HEX[d]`
unfoldable pub hex : ℕ → ℕ
hex d = if ltb d 10 then 48 + d else 55 + d

unfoldable pub write_hex_u8 : ℕ → Cursor → Option Cursor
unfolding hex put
write_hex_u8 n c = put (hex (n / 16)) c >>= put (hex (n % 16))

-- The digits of `write_i8_sep`, of an absolute value.
unfoldable pub write_i8_digits : ℕ → Cursor → Option Cursor
unfolding put
write_i8_digits n c =
    if leb 100 n
    then (put (48 + n / 100) c >>= put (48 + n / 10 % 10) >>= put (48 + n % 10))
    else if leb 10 n
    then (put (48 + n / 10) c >>= put (48 + n % 10))
    else put (48 + n) c

unfoldable pub write_i8_sep : ℤ → ℕ → Cursor → Option Cursor
unfolding write_i8_digits put
write_i8_sep (pos n) sep c = write_i8_digits n c >>= put sep
write_i8_sep (negsuc n) sep c = put 45 c >>= write_i8_digits (n + 1) >>= put sep
