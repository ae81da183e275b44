-- ===== src/Ap.antt =====
-- The address pool of `WifiApConfig` (lib/node.rs) and the DHCP server's tables of lib/collector/ap.rs
-- and lib/central/ap.rs, which hold the same code.
pub mod Slots
pub mod Leases
pub mod Registry
pub mod Dhcp
pub mod Tasks
mod Tests
use esp_csi_rs_core.Common.{
  ℕ, zero, suc, ◌+◌, ◌-◌, min, max, Bool, true, false, ◌&&◌, List, [], ◌∷◌, Option, none, some, ltb,
  ◌==◌, if◌then◌else◌, length, set, take,
}
use esp_csi_rs_core.Common.Mac.{Mac, mac_eq}
use esp_csi_rs_core.Radio.{SecondaryChannel}

-- `Ipv4Addr`, by its octets.
pub record Ipv4Addr : Type 0 where
  pub o0 : ℕ
  pub o1 : ℕ
  pub o2 : ℕ
  pub o3 : ℕ

abbrev pub ipv4 : ℕ → ℕ → ℕ → ℕ → Ipv4Addr
ipv4 a b c d = record { o0 = a; o1 = b; o2 = c; o3 = d }

unfoldable pub ip_eq : Ipv4Addr → Ipv4Addr → Bool
ip_eq a b = (a.o0 == b.o0) && (a.o1 == b.o1) && (a.o2 == b.o2) && (a.o3 == b.o3)

-- `WifiApConfig`, without the driver's own configuration.
pub record WifiApConfig : Type 0 where
  pub channel : ℕ
  pub secondary_channel : Option SecondaryChannel
  pub ap_ipv4 : Ipv4Addr
  pub lease_ipv4 : Ipv4Addr
  pub lease_count : ℕ
  pub serve_dhcp : Bool
  pub sync_burst : Bool

unfoldable pub new_ap_config : ℕ → Option SecondaryChannel → WifiApConfig
new_ap_config channel secondary = record {
  channel = channel;
  secondary_channel = secondary;
  ap_ipv4 = ipv4 192 168 13 1;
  lease_ipv4 = ipv4 192 168 13 2;
  lease_count = 1;
  serve_dhcp = true;
  sync_burst = false;
}

unfoldable pub with_ipv4 : Ipv4Addr → Ipv4Addr → WifiApConfig → WifiApConfig
with_ipv4 ap lease c = record c { ap_ipv4 = ap; lease_ipv4 = lease }

unfoldable pub with_lease_pool : ℕ → WifiApConfig → WifiApConfig
with_lease_pool count c = record c { lease_count = max count 1 }

unfoldable pub with_dhcp_server : Bool → WifiApConfig → WifiApConfig
with_dhcp_server enabled c = record c { serve_dhcp = enabled }

unfoldable pub with_sync_burst : Bool → WifiApConfig → WifiApConfig
with_sync_burst enabled c = record c { sync_burst = enabled }

unfoldable pub lease_ip_at : ℕ → WifiApConfig → Ipv4Addr
lease_ip_at index c =
    let idx = min index (c.lease_count - 1) in
    let ip = c.lease_ipv4 in record ip { o3 = min (ip.o3 + idx) 255 }

-- The addresses from the index on; the vector has room for the eight that the loop asks for.
unfoldable pub pool_from : ℕ → ℕ → WifiApConfig → List Ipv4Addr
unfolding lease_ip_at
pool_from zero i c = []
pool_from (suc left) i c = lease_ip_at i c ∷ pool_from left (i + 1) c

unfoldable pub lease_pool : WifiApConfig → List Ipv4Addr
unfolding pool_from
lease_pool c = pool_from (min c.lease_count 8) 0 c

pub record DhcpBinding : Type 0 where
  pub mac : Mac
  pub ip : Ipv4Addr

abbrev pub Clients : Type 0
Clients = List (Option DhcpBinding)

abbrev pub no_clients : Clients
no_clients = none ∷ none ∷ none ∷ none ∷ none ∷ none ∷ none ∷ none ∷ []

-- The first loop of `dhcp_assign_ip`: the binding of a client.
unfoldable pub bound_ip : Mac → Clients → Option Ipv4Addr
bound_ip m [] = none
bound_ip m (none ∷ cs) = bound_ip m cs
bound_ip m (some c ∷ cs) = let rest = bound_ip m cs in if mac_eq c.mac m then some c.ip else rest

unfoldable pub taken : Ipv4Addr → Clients → Bool
unfolding ip_eq
taken ip [] = false
taken ip (none ∷ cs) = taken ip cs
taken ip (some c ∷ cs) = let rest = taken ip cs in if ip_eq c.ip ip then true else rest

-- The innermost loop: the first free slot gets the binding.
unfoldable pub fill_slot : DhcpBinding → Clients → Option Clients
fill_slot b [] = none
fill_slot b (none ∷ cs) = some (some b ∷ cs)
fill_slot b (some c ∷ cs) = elim (fill_slot b cs) [ some ds ↦ some (some c ∷ ds) | none ↦ none ]

-- The second loop, over the indices of the pool that are left.
unfoldable pub assign_from : ℕ → ℕ → Mac → WifiApConfig → Clients → Option (Ipv4Addr × Clients)
unfolding taken fill_slot lease_ip_at
assign_from zero i m c clients = none
assign_from (suc left) i m c clients =
    let rest = assign_from left (i + 1) m c clients in
    let candidate = lease_ip_at i c in
    if taken candidate clients
    then rest
    else elim (fill_slot (record { mac = m; ip = candidate }) clients) [
      | some ds ↦ some (candidate, ds)
      | none ↦ rest
    ]

unfoldable pub dhcp_assign_ip : Mac → WifiApConfig → Clients → Option (Ipv4Addr × Clients)
unfolding bound_ip assign_from
dhcp_assign_ip m c clients = elim (bound_ip m clients) [
  | some ip ↦ some (ip, clients)
  | none ↦ assign_from (min c.lease_count 8) 0 m c clients
]

-- `ActiveLeaseRegistry`
pub record ActiveLeaseRegistry : Type 0 where
  pub ips : List Ipv4Addr
  pub count : ℕ

abbrev pub new_registry : ActiveLeaseRegistry
new_registry =
    let u = ipv4 0 0 0 0 in record { ips = u ∷ u ∷ u ∷ u ∷ u ∷ u ∷ u ∷ u ∷ []; count = 0 }

unfoldable pub holds : Ipv4Addr → List Ipv4Addr → Bool
unfolding ip_eq
holds ip [] = false
holds ip (x ∷ xs) = let rest = holds ip xs in if ip_eq x ip then true else rest

unfoldable pub register : Ipv4Addr → ActiveLeaseRegistry → ActiveLeaseRegistry
unfolding holds
register ip r =
    if holds ip (take r.count r.ips)
    then r
    else if ltb r.count 8
    then record r { ips = set r.ips r.count ip; count = r.count + 1 }
    else r

unfoldable pub snapshot : ActiveLeaseRegistry → List Ipv4Addr
snapshot r = take r.count r.ips
