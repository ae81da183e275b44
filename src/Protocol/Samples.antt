-- ===== src/Protocol/Samples.antt =====
-- An instance of the encoding's interface: a control packet as a flag and its number.
use mathlib.Core.Option.{some-injective, some-ne-none}
use esp_csi_rs_core.Common.{
  ℕ, ◌≤◌, ◌≡◌, refl, sym, ap, ◌∙◌, Bool, true, false, List, [], ◌∷◌, ◌++◌, Option, none, some,
  arith, ltb, ◌==◌, if◌then◌else◌, length, Bool-cases, inl, inr,
}
use esp_csi_rs_core.Protocol.{ControlPacket, PeripheralPacket, peripheral_packet, Postcard}

abbrev pub flag : Bool → ℕ
flag true = 1
flag false = 0

unfoldable pub encode : ControlPacket → ℕ → Option (List ℕ)
encode p room = if ltb room 2 then none else some (flag p.is_collector ∷ p.sequence_number ∷ [])

unfoldable pub decode : List ℕ → Option ControlPacket
decode (f ∷ n ∷ rest) = some (record { is_collector = f == 1; sequence_number = n })
decode bytes = none

decode_flag : (b : Bool) → (flag b == 1) ≡ b
decode_flag true = refl
decode_flag false = refl

encoded :
    (p : ControlPacket) (room : ℕ) (bs : List ℕ)
    → encode p room ≡ some bs
    → (2 ≤ room) × (flag p.is_collector ∷ p.sequence_number ∷ [] ≡ bs)
unfolding encode
encoded p room bs h = elim (Bool-cases (ltb room 2)) [
  | inl t ↦ absurd (
      some-ne-none bs (
        sym h
        ∙ ap (λ b. if b then none else some (flag p.is_collector ∷ p.sequence_number ∷ [])) t))
  | inr f ↦ (
    ground arith,
    some-injective (flag p.is_collector ∷ p.sequence_number ∷ []) bs (
        sym (ap (λ b. if b then none else some (flag p.is_collector ∷ p.sequence_number ∷ [])) f)
        ∙ h),
  )
]

pub encode_fits :
    (p : ControlPacket) (room : ℕ) (bs : List ℕ) → encode p room ≡ some bs → length bs ≤ room
encode_fits p room bs h = let (l, e) = encoded p room bs h in omega (arith, ap length e)

pub decode-encode :
    (p : ControlPacket) (room : ℕ) (bs rest : List ℕ)
    → encode p room ≡ some bs
    → decode (bs ++ rest) ≡ some p
unfolding decode
decode-encode p room bs rest h =
    let (_, e) = encoded p room bs h in
    sym (ap (λ l. decode (l ++ rest)) e)
    ∙ ap (λ b. some (record p { is_collector = b })) (decode_flag p.is_collector)

abbrev pub flat : Postcard ControlPacket
flat = record {
  to_slice = encode;
  take_from_bytes = decode;
  to_slice-fits = encode_fits;
  take_from_bytes-to_slice = decode-encode;
}

-- A hello whose body is empty.
abbrev pub no_body : Option (List ℕ)
no_body = some []

pub hello_fits_room :
    (p : PeripheralPacket) (room : ℕ) (bs : List ℕ) → no_body ≡ some bs → length bs ≤ room
hello_fits_room p room bs h = omega (arith, ap length (some-injective [] bs h))

pub hello_back :
    (p : PeripheralPacket) (room : ℕ) (bs rest : List ℕ)
    → no_body ≡ some bs
    → some peripheral_packet ≡ some p
hello_back peripheral_packet room bs rest h = refl

abbrev pub empty_hello : Postcard PeripheralPacket
empty_hello = record {
  to_slice = λ p room. some [];
  take_from_bytes = λ bs. some peripheral_packet;
  to_slice-fits = hello_fits_room;
  take_from_bytes-to_slice = hello_back;
}
