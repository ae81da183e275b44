-- ===== src/Delivery/Filter.antt =====
-- The attribution filter of the CSI callback: `pack_mac`, its reverse, and which frames pass.
use Prim.Native.Nat.{bit_or}
use esp_csi_rs_core.Common.{
  ℕ, ◌+◌, ◌*◌, ◌/◌, ◌%◌, ◌^◌, ◌≤◌, ◌<◌, ◌≡◌, ◌↔◌, ◌⊎◌, inl, inr, sym, ap, ◌∙◌, true, arith, ◌==◌,
  not, ◌||◌,
}
use esp_csi_rs_core.Common.Bits.{bit_or-high_low, zero-bit_or}
use esp_csi_rs_core.Common.Mac.{Mac, IsMac, mac}
use esp_csi_rs_core.Csi.{WifiCsiInfo}
use esp_csi_rs_core.Delivery.{
  Gates, pack_mac, csi_peer_filter, set_csi_peer_filter, csi_passes_filter,
}

push_byte : (b v : ℕ) → b < 256 → v < 2 ^ 56 → bit_or (v * 256 % 2 ^ 64) b ≡ v * 256 + b
push_byte b v h k =
    let e : v * 256 % 2 ^ 64 ≡ v * 256 = omega arith in rw e (bit_or-high_low 8 v b h)

-- The bytes of the address in order, as the digits of a number in base 256.
abbrev pub packed : Mac → ℕ
packed m = ((((m.m0 * 256 + m.m1) * 256 + m.m2) * 256 + m.m3) * 256 + m.m4) * 256 + m.m5

pub pack_mac-packed : (m : Mac) → IsMac m → pack_mac m ≡ packed m
unfolding pack_mac
pack_mac-packed m v = rw (
  zero-bit_or m.m0,
  push_byte m.m1 m.m0 v.byte1 (omega arith),
  push_byte m.m2 (m.m0 * 256 + m.m1) v.byte2 (omega arith),
  push_byte m.m3 ((m.m0 * 256 + m.m1) * 256 + m.m2) v.byte3 (omega arith),
  push_byte m.m4 (((m.m0 * 256 + m.m1) * 256 + m.m2) * 256 + m.m3) v.byte4 (omega arith),
  push_byte m.m5 ((((m.m0 * 256 + m.m1) * 256 + m.m2) * 256 + m.m3) * 256 + m.m4) v.byte5
      (omega arith),
)

-- The bytes of a packed address, from the last to the first.
packed_bytes :
    (m : Mac)
    → IsMac m
    → (packed m % 256 ≡ m.m5)
      × (packed m / 256 % 256 ≡ m.m4)
      × (packed m / 65536 % 256 ≡ m.m3)
      × (packed m / 16777216 % 256 ≡ m.m2)
      × (packed m / 4294967296 % 256 ≡ m.m1)
      × (packed m / 1099511627776 % 256 ≡ m.m0)
packed_bytes m v = omega arith

mac_path :
    (a b : Mac)
    → a.m0 ≡ b.m0
    → a.m1 ≡ b.m1
    → a.m2 ≡ b.m2
    → a.m3 ≡ b.m3
    → a.m4 ≡ b.m4
    → a.m5 ≡ b.m5
    → a ≡ b
mac_path a b e0 e1 e2 e3 e4 e5 =
    λ i. record { m0 = e0 i; m1 = e1 i; m2 = e2 i; m3 = e3 i; m4 = e4 i; m5 = e5 i }

-- What `set_csi_peer_filter` stores is read back by `csi_peer_filter`.
pub csi_peer_filter-set_csi_peer_filter :
    (m : Mac) (g : Gates) → IsMac m → csi_peer_filter (set_csi_peer_filter m g) ≡ m
unfolding csi_peer_filter set_csi_peer_filter
csi_peer_filter-set_csi_peer_filter m g v =
    let (e5, e4, e3, e2, e1, e0) = packed_bytes m v in
    rw (pack_mac-packed m v) (mac_path _ m e0 e1 e2 e3 e4 (omega arith))

pub pack_mac_injective : (a b : Mac) → IsMac a → IsMac b → pack_mac a ≡ pack_mac b → a ≡ b
pack_mac_injective a b va vb h =
    let e : packed a ≡ packed b = sym (pack_mac-packed a va) ∙ h ∙ pack_mac-packed b vb in
    mac_path a b (omega arith) (omega arith) (omega arith) (omega arith) (omega arith) (omega arith)

-- The filters in force: the stored words are those of `m` and `min`, and the single gate in front
-- of them says whether either is set.
pub record Filters (m : Mac) (min : ℕ) (g : Gates) : Type 0 where
  pub valid : IsMac m
  pub peer : g.csi_peer_filter ≡ pack_mac m
  pub sig_mode : g.csi_min_sig_mode ≡ min
  pub active : g.csi_filter_active ≡ (not (pack_mac m == 0) || not (min == 0))

abbrev pub any_source : Mac
any_source = mac 0 0 0 0 0 0

-- What a filter asks of a frame: its source, unless the filter's address is all zero, and a PHY
-- class of at least `min`.
abbrev pub Wanted : Mac → ℕ → WifiCsiInfo → Type 0
Wanted m min info = ((m ≡ any_source) ⊎ (info.mac ≡ m)) × (min ≤ info.packet_mode % 256)

pack_any_source : pack_mac any_source ≡ 0
pack_any_source = pack_mac-packed any_source (omega arith)

passes_to :
    (m : Mac) (min : ℕ) (g : Gates) (info : WifiCsiInfo)
    → Filters m min g
    → IsMac info.mac
    → csi_passes_filter g info ≡ true
    → Wanted m min info
unfolding csi_passes_filter
passes_to m min g info f v h = ground (
  arith,
  pack_mac_injective m any_source f.valid (omega arith),
  pack_any_source,
  pack_mac_injective info.mac m v f.valid,
)

passes_from :
    (m : Mac) (min : ℕ) (g : Gates) (info : WifiCsiInfo)
    → Filters m min g
    → Wanted m min info
    → csi_passes_filter g info ≡ true
unfolding csi_passes_filter
passes_from m min g info f (inl e, h) = ground (arith, pack_any_source, ap pack_mac e)
passes_from m min g info f (inr e, h) = ground (arith, ap pack_mac e)

-- With the filters `m` and `min` in force, exactly the wanted frames pass.
pub csi_passes_filter_iff :
    (m : Mac) (min : ℕ) (g : Gates) (info : WifiCsiInfo)
    → Filters m min g
    → IsMac info.mac
    → (csi_passes_filter g info ≡ true) ↔ Wanted m min info
csi_passes_filter_iff m min g info f v = (passes_to m min g info f v, passes_from m min g info f)
