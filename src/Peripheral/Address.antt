-- ===== src/Peripheral/Address.antt =====
-- The central's address in a `u64`.
use esp_csi_rs_core.Common.{ℕ, ◌+◌, ◌*◌, ◌/◌, ◌%◌, ◌^◌, ◌<◌, ◌≡◌, refl, ap, ◌∙◌, arith}
use esp_csi_rs_core.Common.Bits.{bit_or-low_high}
use esp_csi_rs_core.Common.Mac.{Mac, IsMac}
use esp_csi_rs_core.Peripheral.{mac_to_u64, u64_to_mac}

-- The bytes as the digits of a number in base 256, the first byte lowest.
abbrev word : Mac → ℕ
word m = m.m5 * 2 ^ 40 + (m.m4 * 2 ^ 32 + (m.m3 * 2 ^ 24 + (m.m2 * 2 ^ 16 + (m.m1 * 2 ^ 8 + m.m0))))

mac_to_u64-word : (m : Mac) → IsMac m → mac_to_u64 m ≡ word m
unfolding mac_to_u64
mac_to_u64-word m v =
    rw
      (
        bit_or-low_high 8 m.m1 m.m0 v.byte0,
        bit_or-low_high 16 m.m2 (m.m1 * 2 ^ 8 + m.m0) (omega (arith, v.byte0, v.byte1)),
        bit_or-low_high 24 m.m3 (m.m2 * 2 ^ 16 + (m.m1 * 2 ^ 8 + m.m0))
            (omega (arith, v.byte0, v.byte1, v.byte2)),
        bit_or-low_high 32 m.m4 (m.m3 * 2 ^ 24 + (m.m2 * 2 ^ 16 + (m.m1 * 2 ^ 8 + m.m0)))
            (omega (arith, v.byte0, v.byte1, v.byte2, v.byte3)),
        bit_or-low_high 40 m.m5
            (m.m4 * 2 ^ 32 + (m.m3 * 2 ^ 24 + (m.m2 * 2 ^ 16 + (m.m1 * 2 ^ 8 + m.m0))))
            (omega (arith, v.byte0, v.byte1, v.byte2, v.byte3, v.byte4)),
      )
      refl

-- An address of bytes survives its storage in a `u64`, and takes 48 bits.
pub u64_to_mac-mac_to_u64 :
    (m : Mac) → IsMac m → (u64_to_mac (mac_to_u64 m) ≡ m) × (mac_to_u64 m < 2 ^ 48)
unfolding u64_to_mac
u64_to_mac-mac_to_u64 m v =
    let e = mac_to_u64-word m v in
    let b0 : word m % 256 ≡ m.m0 = omega (arith, v.byte0) in
    let b1 : word m / 2 ^ 8 % 256 ≡ m.m1 = omega (arith, v.byte0, v.byte1) in
    let b2 : word m / 2 ^ 16 % 256 ≡ m.m2 = omega (arith, v.byte0, v.byte1, v.byte2) in
    let b3 : word m / 2 ^ 24 % 256 ≡ m.m3 = omega (arith, v.byte0, v.byte1, v.byte2, v.byte3) in
    let b4 : word m / 2 ^ 32 % 256 ≡ m.m4 =
      omega (arith, v.byte0, v.byte1, v.byte2, v.byte3, v.byte4) in
    let b5 : word m / 2 ^ 40 % 256 ≡ m.m5 =
      omega (arith, v.byte0, v.byte1, v.byte2, v.byte3, v.byte4, v.byte5) in
    (
      ap u64_to_mac e
          ∙ (λ i. record { m0 = b0 i; m1 = b1 i; m2 = b2 i; m3 = b3 i; m4 = b4 i; m5 = b5 i }),
      omega (arith, e, v.byte0, v.byte1, v.byte2, v.byte3, v.byte4, v.byte5),
    )
