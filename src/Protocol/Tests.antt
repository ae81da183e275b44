-- ===== src/Protocol/Tests.antt =====
-- The framing with a small encoding: a control packet is a flag and its number.
use esp_csi_rs_core.Common.{
  ℕ, ◌≤◌, ◌<◌, ◌≡◌, ◌≢◌, refl, ap, true, List, [], ◌∷◌, ◌++◌, some, arith, length, All,
}
use esp_csi_rs_core.Protocol.{
  ControlPacket, to_le_bytes, frame, serialize_with_magic, parse_with_magic, central_magic_number,
}
use esp_csi_rs_core.Protocol.Samples.{flat, encode}
use esp_csi_rs_core.Protocol.Framing.{parse_with_magic-serialize_with_magic}

abbrev control : ControlPacket
control = record { is_collector = true; sequence_number = 7 }

abbrev wire : List ℕ
wire = 240 ∷ 43 ∷ 145 ∷ 168 ∷ 1 ∷ 7 ∷ []

sent : serialize_with_magic flat control central_magic_number true 8 ≡ frame wire
unfolding serialize_with_magic encode
sent = refl

parse_with_magic-serialize_with_magic_example :
    (length wire ≤ 8)
    × (parse_with_magic flat (wire ++ (0 ∷ 0 ∷ [])) central_magic_number true ≡ some control)
parse_with_magic-serialize_with_magic_example =
    parse_with_magic-serialize_with_magic flat control central_magic_number true 8 wire (0 ∷ 0 ∷ [])
      (omega arith) sent

abbrev foreign : List ℕ
foreign = 1 ∷ 2 ∷ 3 ∷ 4 ∷ 1 ∷ 7 ∷ []

abbrev first_byte : List ℕ → ℕ
first_byte [] = 0
first_byte (b ∷ bs) = b

foreign_prefix : (rest : List ℕ) → foreign ≢ to_le_bytes central_magic_number ++ rest
foreign_prefix rest h = omega (arith, ap first_byte h)

foreign_bytes : All (λ b. b < 256) foreign
foreign_bytes =
    (omega arith, (omega arith, (omega arith, (omega arith, (omega arith, (omega arith, tt))))))
