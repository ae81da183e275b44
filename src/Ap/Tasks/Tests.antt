-- ===== src/Ap/Tasks/Tests.antt =====
-- The access point's tasks, with one lease that comes at the third attempt.
use esp_csi_rs_core.Common.{
  ℕ, ◌≡◌, refl, true, false, List, [], ◌∷◌, none, arith, ltb, if◌then◌else◌,
}
use esp_csi_rs_core.Common.Mac.{mac}
use esp_csi_rs_core.Ap.{Ipv4Addr, ipv4, WifiApConfig, ActiveLeaseRegistry, new_registry, snapshot}
use esp_csi_rs_core.Ap.Tasks.{
  icmp_flood_burst, icmp_flood_multi, ping_lease, wait_for_lease, active_leases_pending,
  ping_targets, flood_at, snapshot_active_ping_targets, run_ap, ap_tasks, station_monitor,
  connected, disconnected, event_error, stop, set_csi, signal_stop, join, run_net_task,
  ap_station_monitor, run_dhcp_server,
}
use esp_csi_rs_core.Ap.Tasks.Targets.{Targets, ping_lease-Targets}

abbrev bursting : WifiApConfig
bursting = record {
  channel = 6;
  secondary_channel = none;
  ap_ipv4 = ipv4 192 168 13 1;
  lease_ipv4 = ipv4 192 168 13 2;
  lease_count = 4;
  serve_dhcp = true;
  sync_burst = true;
}

abbrev one_lease : ActiveLeaseRegistry
one_lease =
    let u = ipv4 0 0 0 0 in
    record { ips = ipv4 192 168 13 4 ∷ u ∷ u ∷ u ∷ u ∷ u ∷ u ∷ u ∷ []; count = 1 }

abbrev leases : ℕ → ActiveLeaseRegistry
leases i = if ltb i 2 then new_registry else one_lease

ping_lease-Targets_example :
    (i : ℕ) × (addrs : List Ipv4Addr) × Targets leases (λ i. false) (λ i. refl) bursting i addrs
    × (ping_lease leases (λ i. false) bursting none false false
        ≡ (if true then icmp_flood_burst addrs 1000 else icmp_flood_multi addrs 1000))
ping_lease-Targets_example =
    ping_lease-Targets leases (λ i. false) (λ i. refl) bursting none (omega arith) refl

third_attempt :
    ping_lease leases (λ i. false) bursting none false false
    ≡ icmp_flood_burst (ipv4 192 168 13 4 ∷ []) 1000
unfolding ping_lease wait_for_lease active_leases_pending ping_targets flood_at
    snapshot_active_ping_targets snapshot
third_attempt = refl

rearms :
    station_monitor true
      (connected (mac 2 0 0 0 0 1) ∷ event_error ∷ disconnected (mac 2 0 0 0 0 1) ∷ stop ∷ [])
    ≡ set_csi ∷ signal_stop ∷ []
unfolding station_monitor
rearms = refl

receives_only :
    run_ap false bursting true false
    ≡ set_csi ∷ join (run_net_task ∷ run_dhcp_server ∷ ap_station_monitor ∷ []) ∷ []
unfolding run_ap ap_tasks
receives_only = refl
