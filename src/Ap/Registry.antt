-- ===== src/Ap/Registry.antt =====
-- The registry of active leases, of at most eight addresses.
use esp_csi_rs_core.Common.{
  suc, ◌+◌, ◌≤◌, ◌<◌, ◌≡◌, sym, ap, subst, ◌∙◌, true, false, [], ◌∷◌, ◌++◌, arith, length, take,
  set, take-suc-set, length-set, length-take, ltb, Bool-cases, inl, inr, dec_lt,
}
use esp_csi_rs_core.Ap.{Ipv4Addr, ActiveLeaseRegistry, holds, register, snapshot}

pub record IsRegistry (r : ActiveLeaseRegistry) : Type 0 where
  pub slots : length r.ips ≡ 8
  pub filled : r.count ≤ 8

-- What `register` is to leave.
pub record Registered (ip : Ipv4Addr) (r s : ActiveLeaseRegistry) : Type 0 where
  pub valid : IsRegistry s
  pub known : holds ip (snapshot r) ≡ true → s ≡ r
  pub full : length (snapshot r) ≡ 8 → s ≡ r
  pub added :
      holds ip (snapshot r) ≡ false → length (snapshot r) < 8 → snapshot s ≡ snapshot r ++ (ip ∷ [])

length-snapshot : (r : ActiveLeaseRegistry) → IsRegistry r → length (snapshot r) ≡ r.count
unfolding snapshot
length-snapshot r v = omega (arith, length-take r.count r.ips, v.slots, v.filled)

register_known :
    (ip : Ipv4Addr) (r : ActiveLeaseRegistry) → holds ip (snapshot r) ≡ true → register ip r ≡ r
unfolding register snapshot
register_known ip r h = simp (register, h)

register_full : (ip : Ipv4Addr) (r : ActiveLeaseRegistry) → r.count ≡ 8 → register ip r ≡ r
unfolding register
register_full ip r e =
    let f : ltb r.count 8 ≡ false = ground arith in
    elim (Bool-cases (holds ip (take r.count r.ips))) [
      | inl t ↦ simp (register, t)
      | inr u ↦ simp (register, u, f)
    ]

register_new :
    (ip : Ipv4Addr) (r : ActiveLeaseRegistry)
    → holds ip (snapshot r) ≡ false
    → r.count < 8
    → register ip r ≡ record r { ips = set r.ips r.count ip; count = r.count + 1 }
unfolding register snapshot
register_new ip r h l = let f : ltb r.count 8 ≡ true = ground arith in simp (register, h, f)

appended :
    (ip : Ipv4Addr) (r : ActiveLeaseRegistry)
    → IsRegistry r
    → holds ip (snapshot r) ≡ false
    → r.count < 8
    → snapshot (register ip r) ≡ snapshot r ++ (ip ∷ [])
unfolding snapshot
appended ip r v h l =
    let e : r.count + 1 ≡ suc r.count = omega arith in
    ap snapshot (register_new ip r h l)
    ∙ ap (λ n. take n (set r.ips r.count ip)) e
    ∙ take-suc-set r.count r.ips ip (omega (arith, v.slots))

-- `register` keeps the registry valid; it appends the address where it is new and there is room,
-- and changes nothing where it is known or the registry is full.
pub register-Registered :
    (ip : Ipv4Addr) (r : ActiveLeaseRegistry) → IsRegistry r → Registered ip r (register ip r)
register-Registered ip r v = record {
  valid = elim (Bool-cases (holds ip (snapshot r))) [
    | inl t ↦ subst IsRegistry (sym (register_known ip r t)) v
    | inr f ↦ elim (dec_lt r.count 8) [
      | yes l ↦
          subst IsRegistry (sym (register_new ip r f l))
            (record { slots = length-set r.ips r.count ip ∙ v.slots; filled = omega arith })
      | no l ↦ subst IsRegistry (sym (register_full ip r (omega (arith, v.filled)))) v
    ]
  ];
  known = register_known ip r;
  full = λ e. register_full ip r (omega (arith, e, length-snapshot r v));
  added = λ h l. appended ip r v h (omega (arith, l, length-snapshot r v));
}
