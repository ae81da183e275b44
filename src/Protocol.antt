-- ===== src/Protocol.antt =====
-- lib/protocol.rs: the framing of ESP-NOW packets, with the `statistics` feature. The body's
-- encoding is postcard's, which is a parameter.
pub mod Framing
pub mod Samples
mod Tests
use esp_csi_rs_core.Common.{
  ℕ, ◌+◌, ◌-◌, ◌*◌, ◌/◌, ◌%◌, ◌^◌, ◌≤◌, ◌≡◌, Bool, true, false, List, [], ◌∷◌, ◌++◌, Option, none,
  some, ltb, ◌==◌, if◌then◌else◌, length, drop, map,
}

abbrev pub central_magic_number : ℕ
central_magic_number = 2828086256

-- `!CENTRAL_MAGIC_NUMBER`
abbrev pub peripheral_magic_number : ℕ
peripheral_magic_number = 4294967295 - central_magic_number

pub record ControlPacket : Type 0 where
  pub is_collector : Bool
  pub sequence_number : ℕ

pub data PeripheralPacket : Type 0 where
  peripheral_packet : PeripheralPacket

-- postcard for a type `T`: `to_slice` into `room` bytes, and `take_from_bytes` with the rest of
-- the bytes dropped. An encoding that fits is read back from in front of any bytes.
pub record Postcard (T : Type 0) : Type 0 where
  pub to_slice : T → ℕ → Option (List ℕ)
  pub take_from_bytes : List ℕ → Option T
  pub to_slice-fits :
      (t : T) (room : ℕ) (bs : List ℕ) → to_slice t room ≡ some bs → length bs ≤ room
  pub take_from_bytes-to_slice :
      (t : T) (room : ℕ) (bs rest : List ℕ)
      → to_slice t room ≡ some bs
      → take_from_bytes (bs ++ rest) ≡ some t

-- `u32::to_le_bytes` and `from_le_bytes`
abbrev pub to_le_bytes : ℕ → List ℕ
to_le_bytes n = n % 256 ∷ n / 256 % 256 ∷ n / 65536 % 256 ∷ n / 16777216 % 256 ∷ []

abbrev pub from_le_bytes : ℕ → ℕ → ℕ → ℕ → ℕ
from_le_bytes a b c d = a + 256 * b + 65536 * c + 16777216 * d

-- A call that returns a frame, returns an error, or panics on a buffer below the prefix's length.
pub data Serialized : Type 0 where
  frame : List ℕ → Serialized
  failed panicked : Serialized

module _ {T : Type 0} (postcard : Postcard T) where
  open postcard use {to_slice, take_from_bytes}

  unfoldable pub serialize_with_magic : T → ℕ → Bool → ℕ → Serialized
  serialize_with_magic packet magic send_magic buf_len =
      if send_magic
      then (if ltb buf_len 4 then panicked else elim (to_slice packet (buf_len - 4)) [
        | some body ↦ frame (to_le_bytes magic ++ body)
        | none ↦ failed
      ])
      else elim (to_slice packet buf_len) [ some body ↦ frame body | none ↦ failed ]

  unfoldable pub parse_with_magic : List ℕ → ℕ → Bool → Option T
  parse_with_magic (a ∷ b ∷ c ∷ d ∷ body) magic true =
      if from_le_bytes a b c d == magic then take_from_bytes body else none
  parse_with_magic data_bytes magic true = none
  parse_with_magic data_bytes magic false = take_from_bytes data_bytes
