-- ===== src/Ap/Tests.antt =====
-- The DHCP tables at small pools.
use esp_csi_rs_core.Common.{◌≡◌, refl, true, false, [], ◌∷◌, none, some, arith}
use esp_csi_rs_core.Common.Mac.{Mac, mac, mac_eq}
use esp_csi_rs_core.Ap.{
  Ipv4Addr, ipv4, ip_eq, WifiApConfig, lease_ip_at, Clients, no_clients, bound_ip, taken, fill_slot,
  assign_from, dhcp_assign_ip, new_registry,
}
use esp_csi_rs_core.Ap.Registry.{IsRegistry}

abbrev config : WifiApConfig
config = record {
  channel = 6;
  secondary_channel = none;
  ap_ipv4 = ipv4 192 168 13 1;
  lease_ipv4 = ipv4 192 168 13 2;
  lease_count = 1;
  serve_dhcp = true;
  sync_burst = false;
}

abbrev alice : Mac
alice = mac 2 0 0 0 0 1

abbrev bob : Mac
bob = mac 2 0 0 0 0 2

abbrev first_host : Ipv4Addr
first_host = ipv4 192 168 13 2

abbrev with_alice : Clients
with_alice =
    some (record { mac = alice; ip = first_host })
    ∷ none
    ∷ none
    ∷ none
    ∷ none
    ∷ none
    ∷ none
    ∷ none
    ∷ []

alice_asks : dhcp_assign_ip alice config no_clients ≡ some (first_host, with_alice)
unfolding dhcp_assign_ip bound_ip assign_from lease_ip_at taken fill_slot
alice_asks = refl

bob_asks : dhcp_assign_ip bob config with_alice ≡ none
unfolding dhcp_assign_ip bound_ip assign_from lease_ip_at taken fill_slot mac_eq ip_eq
bob_asks = refl

new_registry-IsRegistry : IsRegistry new_registry
new_registry-IsRegistry = record { slots = refl; filled = omega arith }
