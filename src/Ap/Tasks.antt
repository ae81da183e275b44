-- ===== src/Ap/Tasks.antt =====
-- The other tasks of lib/collector/ap.rs: `run_ap`, the station monitor, and the task that floods
-- the leased stations. A wait that a stop ends is a Boolean, true for the stop.
pub mod Targets
mod Tests
use esp_csi_rs_core.Common.{
  ℕ, zero, suc, ◌+◌, Bool, true, false, not, ◌&&◌, List, [], ◌∷◌, ◌++◌, Option, none, some, leb,
  if◌then◌else◌,
}
use esp_csi_rs_core.Common.Mac.{Mac}
use esp_csi_rs_core.Ap.{Ipv4Addr, WifiApConfig, ActiveLeaseRegistry, snapshot, lease_pool}

pub data ApTask : Type 0 where
  run_net_task run_dhcp_server ap_station_monitor ap_ping_lease : ApTask

-- What the access point does in order: it arms CSI, and runs tasks side by side.
pub data ApCall : Type 0 where
  set_csi signal_stop : ApCall
  join : List ApTask → ApCall

abbrev pub is_empty : List Ipv4Addr → Bool
is_empty [] = true
is_empty (ip ∷ ips) = false

-- The arms of `serve_dhcp` and `tx_enabled`.
unfoldable pub ap_tasks : Bool → Bool → List ApTask
ap_tasks true true = run_net_task ∷ run_dhcp_server ∷ ap_station_monitor ∷ ap_ping_lease ∷ []
ap_tasks true false = run_net_task ∷ run_dhcp_server ∷ ap_station_monitor ∷ []
ap_tasks false true = run_net_task ∷ ap_station_monitor ∷ ap_ping_lease ∷ []
ap_tasks false false = run_net_task ∷ ap_station_monitor ∷ []

unfoldable pub run_ap : Bool → WifiApConfig → Bool → Bool → List ApCall
unfolding ap_tasks
run_ap stopped config rx_enabled tx_enabled =
    if stopped
    then signal_stop ∷ []
    else (if rx_enabled then set_csi ∷ [] else [])
      ++ (join (ap_tasks config.serve_dhcp tx_enabled) ∷ [])

pub data StationEvent : Type 0 where
  connected disconnected : Mac → StationEvent
  event_error stop : StationEvent

-- `ap_station_monitor` as the list of its calls.
unfoldable pub station_monitor : Bool → List StationEvent → List ApCall
station_monitor rx_enabled [] = []
station_monitor rx_enabled (connected m ∷ es) =
    (if rx_enabled then set_csi ∷ [] else []) ++ station_monitor rx_enabled es
station_monitor rx_enabled (disconnected m ∷ es) = station_monitor rx_enabled es
station_monitor rx_enabled (event_error ∷ es) = station_monitor rx_enabled es
station_monitor rx_enabled (stop ∷ es) = signal_stop ∷ []

unfoldable pub active_leases_pending : ActiveLeaseRegistry → Bool
unfolding snapshot
active_leases_pending r = not (is_empty (snapshot r))

unfoldable pub snapshot_active_ping_targets : ActiveLeaseRegistry → List Ipv4Addr
unfolding snapshot
snapshot_active_ping_targets r = snapshot r

-- What the ping task ends in: a stop, no target, or one of the floods at a rate.
pub data Ping : Type 0 where
  stopped no_targets : Ping
  icmp_flood : Ipv4Addr → ℕ → Ping
  icmp_flood_multi icmp_flood_burst : List Ipv4Addr → ℕ → Ping

abbrev pub lease_wait_attempts : ℕ
lease_wait_attempts = 120

-- `hz` is `frequency_hz.or(Some(1000))`.
abbrev pub ping_hz : Option ℕ → ℕ
ping_hz (some hz) = hz
ping_hz none = 1000

unfoldable pub flood_at : WifiApConfig → Option ℕ → List Ipv4Addr → Ping
flood_at config freq addrs =
    if is_empty addrs
    then no_targets
    else if config.sync_burst
    then icmp_flood_burst addrs (ping_hz freq)
    else icmp_flood_multi addrs (ping_hz freq)

-- What other tasks do meanwhile: the registry at each attempt, and whether the wait behind it is
-- ended by a stop.
module _ (leases : ℕ → ActiveLeaseRegistry) (stop_at : ℕ → Bool) where
  -- The wait for a lease, from the attempt `i` on: the attempt at which it ends, if not by a stop.
  unfoldable pub wait_for_lease : ℕ → ℕ → Option ℕ
  unfolding active_leases_pending
  wait_for_lease zero i = some i
  wait_for_lease (suc left) i =
      let rest = wait_for_lease left (i + 1) in
      if active_leases_pending (leases i) then some i else if stop_at i then none else rest

  -- The addresses that the flood begins with.
  unfoldable pub ping_targets : WifiApConfig → ℕ → List Ipv4Addr
  unfolding snapshot_active_ping_targets lease_pool
  ping_targets config i =
      let addrs = snapshot_active_ping_targets (leases i) in
      if is_empty addrs then lease_pool config else addrs

  unfoldable pub ping_lease : WifiApConfig → Option ℕ → Bool → Bool → Ping
  unfolding wait_for_lease ping_targets flood_at
  ping_lease config freq link_stopped settle_stopped =
      if link_stopped
      then stopped
      else if settle_stopped
      then stopped
      else if not config.sync_burst && leb config.lease_count 1
      then icmp_flood config.lease_ipv4 (ping_hz freq)
      else elim (wait_for_lease lease_wait_attempts 0) [
        | some i ↦ flood_at config freq (ping_targets config i)
        | none ↦ stopped
      ]
