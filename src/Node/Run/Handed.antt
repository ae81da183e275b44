-- ===== src/Node/Run/Handed.antt =====
-- What a run hands to the tasks that it joins.
use esp_csi_rs_core.Common.{
  ℕ, ◌≡◌, refl, sym, subst, Bool, true, false, ◌&&◌, not, List, [], ◌∷◌, ◌++◌, Option, none, some,
  All, All-append,
}
use esp_csi_rs_core.Node.{
  sniffer, station, access_point, CentralOpMode, PeripheralOpMode, NodeRole, emitter,
  collector_role, central, peripheral, CsiNode,
}
use esp_csi_rs_core.Node.Run.{
  MainTask, Task, main_task, run_emitter, run_ap, run_sta_connect, run_esp_now_central,
  run_esp_now_fast_collector, run_esp_now_peripheral, run_esp_now_fast_source, Call, plain, checked,
  expects, Surroundings, begin_run, set_up, arm, run_role, run_inner, run_sniffer, drive_main,
  drive_sniffer, acquisition, rx_of, is_sniffer, is_ap, set_csi, apply_sniffer_radio,
  stop_signal_reset, reset_globals,
}
use esp_csi_rs_core.Node.Run.Calls.{joined, Plain, optional_All, begin-Plain, set_up-Plain}

module _ {R : Type 0} (c : CsiNode R) where
  -- A task that may arm CSI on its own has the run's acquisition and its task switches.
  abbrev Briefed : MainTask R → Type 0
  Briefed (run_ap config csi io traffic) = (csi ≡ acquisition c) × (io ≡ c.io_tasks)
  Briefed (run_sta_connect traffic csi io) = (csi ≡ acquisition c) × (io ≡ c.io_tasks)
  Briefed main = Unit {0}

  abbrev BriefedTask : Task R → Type 0
  BriefedTask (main_task main) = Briefed main
  BriefedTask task = Unit {0}

  abbrev pub Handed : Call R → Type 0
  Handed (plain a) = All BriefedTask (joined a)
  Handed (checked a) = Unit {0}
  Handed (expects b) = Unit {0}

  Plain-Handed : (x : Call R) → Plain x → Handed x
  Plain-Handed (plain a) h = subst (All BriefedTask) (sym h) tt
  Plain-Handed (checked a) h = tt
  Plain-Handed (expects b) h = tt

  All-Plain-Handed : (xs : List (Call R)) → All Plain xs → All Handed xs
  All-Plain-Handed [] h = tt
  All-Plain-Handed (x ∷ xs) (p, h) = (Plain-Handed x p, All-Plain-Handed xs h)

  drive-Handed :
      (main : MainTask R) (rx : Bool) (duration : Option ℕ) (client : Bool)
      → Briefed main
      → All Handed (drive_main main rx duration client)
  unfolding drive_main
  drive-Handed main true (some d) client h = (tt, ((h, (tt, (tt, tt))), tt))
  drive-Handed main false (some d) client h = ((h, (tt, (tt, tt))), tt)
  drive-Handed main true none client h = ((h, (tt, tt)), tt)
  drive-Handed main false none client h = ((h, (tt, tt)), tt)

  sniffer-Handed :
      (rx : Bool) (duration : Option ℕ) (client : Bool)
      → All Handed (drive_sniffer rx duration client)
  unfolding drive_sniffer
  sniffer-Handed true (some d) client = (tt, ((tt, (tt, tt)), ((tt, tt), tt)))
  sniffer-Handed false (some d) client = ((tt, tt), tt)
  sniffer-Handed true none client = ((tt, tt), tt)
  sniffer-Handed false none client = ((tt, tt), tt)

  role-Handed :
      (s : Surroundings) (bringup : Bool) (duration : Option ℕ) (role : NodeRole R)
      → All Handed (run_role c s bringup duration role)
  unfolding run_role run_sniffer
  role-Handed s bringup duration (emitter config) =
      drive-Handed (run_emitter config) false duration s.has_client tt
  role-Handed s bringup duration (collector_role (sniffer config)) =
      let tuned = optional_All Handed bringup (plain apply_sniffer_radio) tt in
      let armed = optional_All Handed (rx_of c) (checked (set_csi (acquisition c))) tt in
      let driven =
        All-append Handed _ _ (sniffer-Handed (rx_of c) duration s.has_client) (tt, tt) in
      (tt, (tt, All-append Handed _ _ tuned (All-append Handed _ _ armed driven)))
  role-Handed s bringup duration (collector_role (access_point config)) =
      All-append Handed _ _
        (drive-Handed (run_ap config (acquisition c) c.io_tasks c.traffic_freq_hz) (rx_of c)
          duration s.has_client (refl, refl))
        (tt, tt)
  role-Handed s bringup duration (collector_role (station config)) =
      All-append Handed _ _
        (drive-Handed (run_sta_connect c.traffic_freq_hz (acquisition c) c.io_tasks) (rx_of c)
          duration s.has_client (refl, refl))
        (tt, tt)
  role-Handed s bringup duration (central (CentralOpMode.esp_now config)) =
      drive-Handed (run_esp_now_central config c.traffic_freq_hz s.is_collector c.io_tasks)
        (rx_of c) duration s.has_client tt
  role-Handed s bringup duration (central (CentralOpMode.esp_now_fast_collector config)) =
      drive-Handed (run_esp_now_fast_collector config c.io_tasks) (rx_of c) duration s.has_client tt
  role-Handed s bringup duration (central (CentralOpMode.wifi_station config)) = (tt, tt)
  role-Handed s bringup duration (central (CentralOpMode.wifi_access_point config)) = (tt, tt)
  role-Handed s bringup duration (peripheral (PeripheralOpMode.esp_now config)) =
      drive-Handed (run_esp_now_peripheral config c.traffic_freq_hz c.io_tasks) (rx_of c) duration
        s.has_client tt
  role-Handed s bringup duration (peripheral (PeripheralOpMode.esp_now_fast_source config)) =
      drive-Handed (run_esp_now_fast_source config c.traffic_freq_hz c.io_tasks) false duration
        s.has_client tt
  role-Handed s bringup duration (peripheral (PeripheralOpMode.wifi_sniffer config)) = (tt, tt)

  -- Every task that a run joins and that may arm CSI on its own, the station's and the access
  -- point's, is handed the run's acquisition and task switches.
  pub run_inner-Handed :
      (duration : Option ℕ) (s : Surroundings) → All Handed (run_inner duration s c)
  unfolding run_inner arm
  run_inner-Handed duration s =
      let bringup = c.profile.wants_bringup c.role c.protocol in
      let armed =
        optional_All Handed (rx_of c && not (is_sniffer c.role) && not (is_ap c.role))
          (checked (set_csi (acquisition c))) tt in
      let closing : List (Call R) = plain stop_signal_reset ∷ plain reset_globals ∷ [] in
      let ends =
        All-append Handed (run_role c s bringup duration c.role) closing
          (role-Handed s bringup duration c.role) (tt, (tt, tt)) in
      All-append Handed (begin_run c) _ (All-Plain-Handed (begin_run c) (begin-Plain c)) (
        All-append Handed (set_up c s.bandwidths_readable bringup)
          (arm c ++ (run_role c s bringup duration c.role ++ closing))
          (All-Plain-Handed (set_up c s.bandwidths_readable bringup)
            (set_up-Plain c s.bandwidths_readable bringup))
          (tt, (tt, All-append Handed _ _ armed ends)))
