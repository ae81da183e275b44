-- ===== src/Ap/Slots.antt =====
-- Filling a slot of the client table: who is bound afterwards, and whose address is taken.
use mathlib.Core.Option.{some-ne-none, some-injective}
use esp_csi_rs_core.Common.{
  ◌≡◌, ◌≢◌, refl, sym, ap, ◌∙◌, Bool, true, false, [], ◌∷◌, Option, none, some, arith,
  if◌then◌else◌, Bool-cases, inl, inr,
}
use esp_csi_rs_core.Common.Mac.{Mac, mac_eq, mac_eq_refl}
use esp_csi_rs_core.Ap.{Ipv4Addr, ip_eq, DhcpBinding, Clients, bound_ip, taken, fill_slot}

ip_eq_refl : (a : Ipv4Addr) → ip_eq a a ≡ true
unfolding ip_eq
ip_eq_refl a = ground arith

pub true-ne-false : true ≢ false
true-ne-false h = cc

if_false-true : (b r : Bool) → (if b then true else r) ≡ false → r ≡ false
if_false-true true r h = absurd (true-ne-false h)
if_false-true false r h = h

pub not_taken :
    (cs : Clients) (m : Mac) (ip : Ipv4Addr) → taken ip cs ≡ false → bound_ip m cs ≢ some ip
unfolding taken bound_ip
not_taken [] m ip t h = some-ne-none ip (sym h)
not_taken (none ∷ cs) m ip t h = not_taken cs m ip t h
not_taken (some c ∷ cs) m ip t h = elim (Bool-cases (mac_eq c.mac m)) [
  | inl e ↦
      let same : c.ip ≡ ip =
        some-injective c.ip ip (sym (ap (λ b. if b then some c.ip else bound_ip m cs) e) ∙ h) in
      true-ne-false (
        sym (
          ap (λ b. if b then true else taken ip cs)
            (ap (λ x. ip_eq c.ip x) (sym same) ∙ ip_eq_refl c.ip))
        ∙ t)
  | inr f ↦
      not_taken cs m ip (if_false-true (ip_eq c.ip ip) (taken ip cs) t)
        (sym (ap (λ b. if b then some c.ip else bound_ip m cs) f) ∙ h)
]

filled_tail :
    (o : Option Clients) (c : DhcpBinding) (ds : Clients)
    → elim o [ some es ↦ some (some c ∷ es) | none ↦ none ] ≡ some ds
    → (es : Clients) × (o ≡ some es) × (some c ∷ es ≡ ds)
filled_tail none c ds h = absurd (some-ne-none ds (sym h))
filled_tail (some es) c ds h = (es, refl, some-injective (some c ∷ es) ds h)

pub fills :
    (b : DhcpBinding) (cs ds : Clients)
    → fill_slot b cs ≡ some ds
    → bound_ip b.mac cs ≡ none
    → bound_ip b.mac ds ≡ some b.ip
unfolding fill_slot bound_ip
fills b [] ds h n = absurd (some-ne-none ds (sym h))
fills b (none ∷ cs) ds h n =
    ap (bound_ip b.mac) (sym (some-injective (some b ∷ cs) ds h))
    ∙ ap (λ t. if t then some b.ip else bound_ip b.mac cs) (mac_eq_refl b.mac)
fills b (some c ∷ cs) ds h n =
    let (es, e, f) = filled_tail (fill_slot b cs) c ds h in
    elim (Bool-cases (mac_eq c.mac b.mac)) [
      | inl t ↦
          absurd
            (some-ne-none c.ip (sym (ap (λ x. if x then some c.ip else bound_ip b.mac cs) t) ∙ n))
      | inr u ↦
          ap (bound_ip b.mac) (sym f)
          ∙ ap (λ x. if x then some c.ip else bound_ip b.mac es) u
          ∙ fills b cs es e (sym (ap (λ x. if x then some c.ip else bound_ip b.mac cs) u) ∙ n)
    ]

pub keeps :
    (b : DhcpBinding) (cs ds : Clients) (m : Mac)
    → fill_slot b cs ≡ some ds
    → mac_eq b.mac m ≡ false
    → bound_ip m ds ≡ bound_ip m cs
unfolding fill_slot bound_ip
keeps b [] ds m h n = absurd (some-ne-none ds (sym h))
keeps b (none ∷ cs) ds m h n =
    ap (bound_ip m) (sym (some-injective (some b ∷ cs) ds h))
    ∙ ap (λ t. if t then some b.ip else bound_ip m cs) n
keeps b (some c ∷ cs) ds m h n =
    let (es, e, f) = filled_tail (fill_slot b cs) c ds h in
    ap (bound_ip m) (sym f)
    ∙ ap (λ o. if mac_eq c.mac m then some c.ip else o) (keeps b cs es m e n)
