-- ===== src/Common/Mac.antt =====
-- `[u8; 6]`, a MAC address, with the comparison of arrays.
use esp_csi_rs_core.Common.Tests.{◌==◌}
use Prim.Native.Nat.{ℕ, ◌<◌}
use mathlib.Core.Path.{◌≡◌, refl}
use mathlib.Core.Logic.{◌↔◌}
use mathlib.Core.Bool.{Bool, true, ◌&&◌}
use mathlib.Core.List.{List, [], ◌∷◌}
use native.Mathlib.Omega.{arith}

pub record Mac : Type 0 where
  pub m0 : ℕ
  pub m1 : ℕ
  pub m2 : ℕ
  pub m3 : ℕ
  pub m4 : ℕ
  pub m5 : ℕ

pub record IsMac (m : Mac) : Type 0 where
  pub byte0 : m.m0 < 256
  pub byte1 : m.m1 < 256
  pub byte2 : m.m2 < 256
  pub byte3 : m.m3 < 256
  pub byte4 : m.m4 < 256
  pub byte5 : m.m5 < 256

abbrev pub octets : Mac → List ℕ
octets m = m.m0 ∷ m.m1 ∷ m.m2 ∷ m.m3 ∷ m.m4 ∷ m.m5 ∷ []

abbrev pub mac : ℕ → ℕ → ℕ → ℕ → ℕ → ℕ → Mac
mac a b c d e f = record { m0 = a; m1 = b; m2 = c; m3 = d; m4 = e; m5 = f }

unfoldable pub mac_eq : Mac → Mac → Bool
mac_eq a b =
    (a.m0 == b.m0)
    && (a.m1 == b.m1)
    && (a.m2 == b.m2)
    && (a.m3 == b.m3)
    && (a.m4 == b.m4)
    && (a.m5 == b.m5)

mac_eq_to : (a b : Mac) → mac_eq a b ≡ true → a ≡ b
unfolding mac_eq
mac_eq_to a b h = ground arith

mac_eq_from : (a b : Mac) → a ≡ b → mac_eq a b ≡ true
unfolding mac_eq
mac_eq_from a b h = ground arith

pub mac_eq_iff : (a b : Mac) → (mac_eq a b ≡ true) ↔ (a ≡ b)
mac_eq_iff a b = (mac_eq_to a b, mac_eq_from a b)

pub mac_eq_refl : (a : Mac) → mac_eq a a ≡ true
mac_eq_refl a = mac_eq_from a a refl
