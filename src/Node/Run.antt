-- ===== src/Node/Run.antt =====
-- `CSINode::run_inner` and what it is made of, as the calls that a run makes in program order. What a
-- call answers does not change the calls that follow, but where the code unwraps it: an error there
-- is a panic, which ends the sequence. A task that a run joins is one entry of a `join`, with its
-- arguments: the calls that it makes are those of its own part (Station, Ap, Central, ...).
pub mod Calls
pub mod Arming
pub mod Handed
mod Tests
use esp_csi_rs_core.Common.{
  ℕ, Bool, true, false, ◌&&◌, not, List, [], ◌∷◌, ◌++◌, Option, none, some, if◌then◌else◌, map,
}
use esp_csi_rs_core.Radio.{
  SecondaryChannel, no_secondary, RadioCall, install, suppress_espnow_rx, apply_ht40_channel,
}
use esp_csi_rs_core.Config.{
  CsiConfig, default_csi_config, RadioCsiConfig, build_csi_config, CollectionMode, collector,
  listener, EspNowConfig,
}
use esp_csi_rs_core.Ap.{WifiApConfig}
use esp_csi_rs_core.Emitter.{EmitterConfig}
use esp_csi_rs_core.Node.{
  WifiSnifferConfig, WifiStationConfig, CollectorMode, sniffer, station, access_point,
  CentralOpMode, PeripheralOpMode, NodeRole, emitter, collector_role, central, peripheral,
  IoTaskConfig, Protocol, protocol_ladder_2_4, RadioProfile, CsiNode,
}

pub data MainTask (R : Type 0) : Type 0 where
  run_emitter : EmitterConfig → MainTask R
  run_ap : WifiApConfig → RadioCsiConfig → IoTaskConfig → Option ℕ → MainTask R
  run_sta_connect : Option ℕ → RadioCsiConfig → IoTaskConfig → MainTask R
  run_esp_now_central : EspNowConfig R → Option ℕ → Bool → IoTaskConfig → MainTask R
  run_esp_now_fast_collector : EspNowConfig R → IoTaskConfig → MainTask R
  run_esp_now_peripheral : EspNowConfig R → Option ℕ → IoTaskConfig → MainTask R
  run_esp_now_fast_source : EspNowConfig R → Option ℕ → IoTaskConfig → MainTask R

-- What runs concurrently, with durations in seconds.
pub data Task (R : Type 0) : Type 0 where
  main_task : MainTask R → Task R
  run_process_csi_packet : Task R
  csi_data_collection : ℕ → Task R
  wait_for_stop : Task R
  stop_after_duration : ℕ → Task R

pub data Action (R : Type 0) : Type 0 where
  stats_begin_run : Action R
  set_icmp_flood_unsolicited : Bool → Action R
  set_runtime_collection_mode : Bool → Action R
  radio : RadioCall → Action R
  set_protocols : List Protocol → Action R
  apply_bandwidth before_sta_config before_ap_config apply_protocols_post : Action R
  apply_sniffer_radio : Action R
  set_config_station : WifiStationConfig → Action R
  set_config_access_point : WifiApConfig → Action R
  store_csi_output_enabled : Bool → Action R
  set_seq_drop_detection : Bool → Action R
  set_csi : RadioCsiConfig → Action R
  set_promiscuous_mode : Bool → Action R
  set_channel : ℕ → SecondaryChannel → Action R
  -- `join` and `join3`, which end when all their tasks have
  join : List (Task R) → Action R
  log_unsupported : Action R
  stop_signal_reset : Action R
  reset_globals : Action R

-- A call whose result is dropped, one that is unwrapped, and the `unwrap` of an `Option` that is
-- `Some` exactly when the Boolean says so.
pub data Call (R : Type 0) : Type 0 where
  plain checked : Action R → Call R
  expects : Bool → Call R

-- What a run reads beyond the node: the flag `IS_COLLECTOR` when a central starts, whether the
-- bandwidths can be read, and whether a client was passed.
pub record Surroundings : Type 0 where
  pub is_collector : Bool
  pub bandwidths_readable : Bool
  pub has_client : Bool

abbrev pub is_collector_mode : CollectionMode → Bool
is_collector_mode collector = true
is_collector_mode listener = false

module _ {R : Type 0} where
  unfoldable pub sta_init : WifiStationConfig → Bool → List (Call R)
  sta_init config bringup =
      (if bringup then plain before_sta_config ∷ [] else [])
      ++ (plain (set_config_station config) ∷ [])

  unfoldable pub is_emitter : NodeRole R → Bool
  is_emitter (emitter config) = true
  is_emitter role = false

  unfoldable pub is_sniffer : NodeRole R → Bool
  is_sniffer (collector_role (sniffer config)) = true
  is_sniffer role = false

  unfoldable pub is_ap : NodeRole R → Bool
  is_ap (collector_role (access_point config)) = true
  is_ap role = false

  unfoldable pub is_esp_now : NodeRole R → Bool
  is_esp_now (central mode) = true
  is_esp_now (peripheral mode) = true
  is_esp_now role = false

  unfoldable pub drive_main : MainTask R → Bool → Option ℕ → Bool → List (Call R)
  drive_main main true (some d) has_client =
      expects has_client
      ∷ plain (join (main_task main ∷ run_process_csi_packet ∷ csi_data_collection d ∷ []))
      ∷ []
  drive_main main false (some d) has_client =
      plain (join (main_task main ∷ wait_for_stop ∷ stop_after_duration d ∷ [])) ∷ []
  drive_main main true none has_client =
      plain (join (main_task main ∷ run_process_csi_packet ∷ [])) ∷ []
  drive_main main false none has_client = plain (join (main_task main ∷ wait_for_stop ∷ [])) ∷ []

  unfoldable pub ap_init : WifiApConfig → Bool → List (Call R)
  ap_init config bringup =
      (if bringup then plain before_ap_config ∷ [] else [])
      ++ (plain (set_config_access_point config) ∷ [])

  unfoldable pub on_radio : List RadioCall → List (Call R)
  on_radio [] = []
  on_radio (call ∷ calls) = plain (radio call) ∷ on_radio calls

  unfoldable pub receive_dispatch : NodeRole R → List RadioCall
  unfolding is_esp_now suppress_espnow_rx
  receive_dispatch role = if is_esp_now role then install ∷ [] else suppress_espnow_rx

  -- Up to the treatment of the receive dispatcher.
  unfoldable pub begin_run : CsiNode R → List (Call R)
  unfolding receive_dispatch on_radio
  begin_run c =
      plain stats_begin_run
      ∷ plain (set_icmp_flood_unsolicited c.flood_unsolicited_reply)
      ∷ plain (set_runtime_collection_mode (is_collector_mode c.collection_mode))
      ∷ on_radio (receive_dispatch c.role)

  unfoldable pub apply_protocol : CsiNode R → List (Call R)
  unfolding is_emitter protocol_ladder_2_4
  apply_protocol c = elim c.protocol [
    | none ↦ []
    | some protocol ↦
        if is_emitter c.role
        then []
        else checked (
            set_protocols (c.profile.tune_protocols c.role protocol (protocol_ladder_2_4 protocol)))
          ∷ []
  ]

  unfoldable pub start_station : Bool → NodeRole R → List (Call R)
  unfolding sta_init
  start_station bringup (collector_role (station config)) =
      sta_init config bringup ++ (if bringup then plain apply_protocols_post ∷ [] else [])
  start_station bringup role = []

  unfoldable pub ht40 : Bool → WifiApConfig → List (Call R)
  unfolding on_radio
  ht40 readable config = elim config.secondary_channel [
    | none ↦ []
    | some secondary ↦ on_radio (apply_ht40_channel readable config.channel secondary)
  ]

  unfoldable pub start_access_point : Bool → Bool → NodeRole R → List (Call R)
  unfolding ap_init ht40
  start_access_point readable bringup (collector_role (access_point config)) =
      ht40 readable config
      ++ (ap_init config bringup ++ (if bringup then plain apply_protocols_post ∷ [] else []))
  start_access_point readable bringup role = []

  -- The acquisition that the run asks the driver for.
  unfoldable pub acquisition : CsiNode R → RadioCsiConfig
  unfolding build_csi_config default_csi_config
  acquisition c = c.profile.tune_csi_acquisition (elim c.csi_config [
    | some config ↦ build_csi_config config
    | none ↦ build_csi_config default_csi_config
  ])

  unfoldable pub rx_of : CsiNode R → Bool
  unfolding is_emitter
  rx_of c = c.io_tasks.rx_enabled && not (is_emitter c.role)

  unfoldable pub arm : CsiNode R → List (Call R)
  unfolding is_emitter is_sniffer is_ap rx_of
  arm c =
      plain (store_csi_output_enabled c.csi_output_enabled)
      ∷ plain (set_seq_drop_detection (not (is_emitter c.role)))
      ∷ (if rx_of c && not (is_sniffer c.role) && not (is_ap c.role)
          then checked (set_csi (acquisition c)) ∷ []
          else [])

  -- The sniffer's own driver, in place of `drive_main`.
  unfoldable pub drive_sniffer : Bool → Option ℕ → Bool → List (Call R)
  drive_sniffer true (some d) has_client =
      expects has_client
      ∷ plain (join (run_process_csi_packet ∷ csi_data_collection d ∷ []))
      ∷ plain (join (run_process_csi_packet ∷ []))
      ∷ []
  drive_sniffer false (some d) has_client = plain (join (stop_after_duration d ∷ [])) ∷ []
  drive_sniffer true none has_client = plain (join (run_process_csi_packet ∷ [])) ∷ []
  drive_sniffer false none has_client = plain (join (wait_for_stop ∷ [])) ∷ []

  unfoldable pub run_sniffer :
      WifiSnifferConfig → Bool → Bool → Option ℕ → Bool → RadioCsiConfig → List (Call R)
  unfolding drive_sniffer
  run_sniffer config bringup rx duration has_client csi =
      checked (set_promiscuous_mode true)
        ∷ checked (set_channel config.channel no_secondary)
        ∷ (if bringup then plain apply_sniffer_radio ∷ [] else [])
      ++ ((if rx then checked (set_csi csi) ∷ [] else [])
          ++ (drive_sniffer rx duration has_client ++ (checked (set_promiscuous_mode false) ∷ [])))

  -- The arm of the role.
  unfoldable pub run_role : CsiNode R → Surroundings → Bool → Option ℕ → NodeRole R → List (Call R)
  unfolding drive_main run_sniffer
  run_role c s bringup duration (emitter config) =
      drive_main (run_emitter config) false duration s.has_client
  run_role c s bringup duration (collector_role (sniffer config)) =
      run_sniffer config bringup (rx_of c) duration s.has_client (acquisition c)
  run_role c s bringup duration (collector_role (access_point config)) =
      drive_main (run_ap config (acquisition c) c.io_tasks c.traffic_freq_hz) (rx_of c) duration
        s.has_client
      ++ (checked (set_promiscuous_mode false) ∷ [])
  run_role c s bringup duration (collector_role (station config)) =
      drive_main (run_sta_connect c.traffic_freq_hz (acquisition c) c.io_tasks) (rx_of c) duration
        s.has_client
      ++ (checked (set_promiscuous_mode false) ∷ [])
  run_role c s bringup duration (central (CentralOpMode.esp_now config)) =
      drive_main (run_esp_now_central config c.traffic_freq_hz s.is_collector c.io_tasks) (rx_of c)
        duration s.has_client
  run_role c s bringup duration (central (CentralOpMode.esp_now_fast_collector config)) =
      drive_main (run_esp_now_fast_collector config c.io_tasks) (rx_of c) duration s.has_client
  run_role c s bringup duration (central (CentralOpMode.wifi_station config)) =
      plain log_unsupported ∷ []
  run_role c s bringup duration (central (CentralOpMode.wifi_access_point config)) =
      plain log_unsupported ∷ []
  run_role c s bringup duration (peripheral (PeripheralOpMode.esp_now config)) =
      drive_main (run_esp_now_peripheral config c.traffic_freq_hz c.io_tasks) (rx_of c) duration
        s.has_client
  run_role c s bringup duration (peripheral (PeripheralOpMode.esp_now_fast_source config)) =
      drive_main (run_esp_now_fast_source config c.traffic_freq_hz c.io_tasks) false duration
        s.has_client
  run_role c s bringup duration (peripheral (PeripheralOpMode.wifi_sniffer config)) =
      plain log_unsupported ∷ []

  -- What a run sets up before the arm of its role.
  unfoldable pub set_up : CsiNode R → Bool → Bool → List (Call R)
  unfolding apply_protocol start_station start_access_point is_emitter
  set_up c readable bringup =
      apply_protocol c
      ++ ((if bringup && not (is_emitter c.role) then plain apply_bandwidth ∷ [] else [])
          ++ (start_station bringup c.role ++ start_access_point readable bringup c.role))

  unfoldable pub run_inner : Option ℕ → Surroundings → CsiNode R → List (Call R)
  unfolding begin_run set_up arm run_role
  run_inner duration s c =
      let bringup = c.profile.wants_bringup c.role c.protocol in
      begin_run c
      ++ (set_up c s.bandwidths_readable bringup
          ++ (arm c
              ++ (run_role c s bringup duration c.role
                  ++ (plain stop_signal_reset ∷ plain reset_globals ∷ []))))

  unfoldable pub run : Bool → Bool → CsiNode R → List (Call R)
  unfolding run_inner
  run is_collector readable c =
      run_inner none
        (record { is_collector = is_collector; bandwidths_readable = readable; has_client = false })
        c

  unfoldable pub run_duration : ℕ → Bool → Bool → CsiNode R → List (Call R)
  unfolding run_inner
  run_duration duration is_collector readable c =
      run_inner (some duration)
        (record { is_collector = is_collector; bandwidths_readable = readable; has_client = true })
        c

  -- What happens when the driver answers as `succeeds` says: the calls made, and whether the run
  -- came to its end.
  unfoldable pub execute : (Action R → Bool) → List (Call R) → List (Action R) × Bool
  execute succeeds [] = ([], true)
  execute succeeds (plain a ∷ cs) = let (as_, ended) = execute succeeds cs in (a ∷ as_, ended)
  execute succeeds (checked a ∷ cs) =
      let rest = execute succeeds cs in
      if succeeds a then (let (as_, ended) = rest in (a ∷ as_, ended)) else (a ∷ [], false)
  execute succeeds (expects true ∷ cs) = execute succeeds cs
  execute succeeds (expects false ∷ cs) = ([], false)
