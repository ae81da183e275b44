-- ===== src/Node.antt =====
-- lib/node.rs and lib/profile.rs on the classic chips: the roles, the node's configuration, and a run
-- as the sequence of calls that it makes. The configuration of a station or access point that only
-- the driver reads is the number that stands for it.
pub mod Run
use esp_csi_rs_core.Common.{
  ℕ, Bool, true, false, ◌&&◌, not, List, [], ◌∷◌, ◌++◌, Option, none, some, if◌then◌else◌,
}
use esp_csi_rs_core.Common.Mac.{Mac}
use esp_csi_rs_core.Radio.{SecondaryChannel}
use esp_csi_rs_core.Config.{
  CsiConfig, RadioCsiConfig, CollectionMode, collector, listener, EspNowConfig,
}
use esp_csi_rs_core.Ap.{WifiApConfig}
use esp_csi_rs_core.Emitter.{EmitterConfig}

pub record WifiSnifferConfig : Type 0 where
  pub mac_filter : Option Mac
  pub channel : ℕ

unfoldable pub default_sniffer_config : WifiSnifferConfig
default_sniffer_config = record { mac_filter = none; channel = 1 }

unfoldable pub with_channel : ℕ → WifiSnifferConfig → WifiSnifferConfig
with_channel channel c = record c { channel = channel }

pub record WifiStationConfig : Type 0 where
  pub client_config : ℕ
  pub channel_hint : Option ℕ

unfoldable pub new_station_config : ℕ → WifiStationConfig
new_station_config client_config = record { client_config = client_config; channel_hint = none }

unfoldable pub with_channel_hint : ℕ → WifiStationConfig → WifiStationConfig
with_channel_hint channel c = record c { channel_hint = some channel }

pub data CollectorMode : Type 0 where
  sniffer : WifiSnifferConfig → CollectorMode
  station : WifiStationConfig → CollectorMode
  access_point : WifiApConfig → CollectorMode

pub data CentralOpMode (R : Type 0) : Type 0 where
  esp_now : EspNowConfig R → CentralOpMode R
  wifi_station : WifiStationConfig → CentralOpMode R
  wifi_access_point : WifiApConfig → CentralOpMode R
  esp_now_fast_collector : EspNowConfig R → CentralOpMode R

pub data PeripheralOpMode (R : Type 0) : Type 0 where
  esp_now : EspNowConfig R → PeripheralOpMode R
  wifi_sniffer : WifiSnifferConfig → PeripheralOpMode R
  esp_now_fast_source : EspNowConfig R → PeripheralOpMode R

pub data NodeRole (R : Type 0) : Type 0 where
  emitter : EmitterConfig → NodeRole R
  collector_role : CollectorMode → NodeRole R
  central : CentralOpMode R → NodeRole R
  peripheral : PeripheralOpMode R → NodeRole R

pub record IoTaskConfig : Type 0 where
  pub tx_enabled : Bool
  pub rx_enabled : Bool

unfoldable pub default_io_tasks : IoTaskConfig
default_io_tasks = record { tx_enabled = true; rx_enabled = true }

-- `Protocol` of the driver: the rungs that the code names, and the others.
pub data Protocol : Type 0 where
  b g n ax : Protocol
  other : ℕ → Protocol

-- The set of 2.4 GHz protocols, as a list.
unfoldable pub protocol_ladder_2_4 : Protocol → List Protocol
protocol_ladder_2_4 b = b ∷ []
protocol_ladder_2_4 g = b ∷ g ∷ []
protocol_ladder_2_4 n = b ∷ g ∷ n ∷ []
protocol_ladder_2_4 ax = b ∷ g ∷ n ∷ ax ∷ []
protocol_ladder_2_4 (other p) = other p ∷ []

-- `RadioProfile`: what its hooks answer; the hooks that act on the driver are calls of the run.
pub record RadioProfile (R : Type 0) : Type 0 where
  pub wants_bringup : NodeRole R → Option Protocol → Bool
  pub tune_protocols : NodeRole R → Protocol → List Protocol → List Protocol
  pub tune_csi_acquisition : RadioCsiConfig → RadioCsiConfig

-- `StandardProfile`, which keeps the trait's own `wants_bringup` and `tune_csi_acquisition`.
unfoldable pub standard_profile : {R : Type 0} → RadioProfile R
standard_profile = record {
  wants_bringup = λ role protocol. false;
  tune_protocols = λ role protocol base. base;
  tune_csi_acquisition = λ raw. raw;
}

-- `CSINode`, without the handles of the hardware.
pub record CsiNode (R : Type 0) : Type 0 where
  pub role : NodeRole R
  pub csi_output_enabled : Bool
  pub io_tasks : IoTaskConfig
  pub csi_config : Option CsiConfig
  pub traffic_freq_hz : Option ℕ
  pub protocol : Option Protocol
  pub flood_unsolicited_reply : Bool
  pub profile : RadioProfile R
  pub collection_mode : CollectionMode
  pub esp_now_rate : Option R

module _ {R : Type 0} where
  unfoldable pub new : NodeRole R → Option CsiConfig → Option ℕ → CsiNode R
  unfolding default_io_tasks standard_profile
  new role csi_config traffic_freq_hz = record {
    role = role;
    csi_output_enabled = true;
    io_tasks = default_io_tasks;
    csi_config = csi_config;
    traffic_freq_hz = traffic_freq_hz;
    protocol = none;
    flood_unsolicited_reply = false;
    profile = standard_profile;
    collection_mode = collector;
    esp_now_rate = none;
  }

  unfoldable pub new_collector : CollectorMode → Option CsiConfig → Option ℕ → CsiNode R
  unfolding new
  new_collector mode csi_config traffic_freq_hz =
      new (collector_role mode) csi_config traffic_freq_hz

  unfoldable pub new_emitter : EmitterConfig → CsiNode R
  unfolding new
  new_emitter config = new (emitter config) none none

  unfoldable pub collector_mode : NodeRole R → Option CollectorMode
  collector_mode (collector_role mode) = some mode
  collector_mode role = none

  unfoldable pub emitter_config : NodeRole R → Option EmitterConfig
  emitter_config (emitter config) = some config
  emitter_config role = none

  unfoldable pub central_mode : NodeRole R → Option (CentralOpMode R)
  central_mode (central mode) = some mode
  central_mode role = none

  unfoldable pub peripheral_mode : NodeRole R → Option (PeripheralOpMode R)
  peripheral_mode (peripheral mode) = some mode
  peripheral_mode role = none

  unfoldable pub set_csi_config : CsiConfig → CsiNode R → CsiNode R
  set_csi_config config c = record c { csi_config = some config }

  -- Only a station's configuration is replaced.
  unfoldable pub replace_station : WifiStationConfig → NodeRole R → NodeRole R
  replace_station config (collector_role (station old)) = collector_role (station config)
  replace_station config role = role

  unfoldable pub set_station_config : WifiStationConfig → CsiNode R → CsiNode R
  unfolding replace_station
  set_station_config config c = record c { role = replace_station config c.role }

  unfoldable pub set_traffic_frequency : ℕ → CsiNode R → CsiNode R
  set_traffic_frequency freq_hz c = record c { traffic_freq_hz = some freq_hz }

  unfoldable pub set_csi_output_enabled : Bool → CsiNode R → CsiNode R
  set_csi_output_enabled enabled c = record c { csi_output_enabled = enabled }

  unfoldable pub set_collection_mode : CollectionMode → CsiNode R → CsiNode R
  set_collection_mode mode c = record c { collection_mode = mode }

  unfoldable pub set_rate : R → CsiNode R → CsiNode R
  set_rate rate c = record c { esp_now_rate = some rate }

  unfoldable pub set_io_tasks : IoTaskConfig → CsiNode R → CsiNode R
  set_io_tasks io_tasks c = record c { io_tasks = io_tasks }

  unfoldable pub set_tx_enabled : Bool → CsiNode R → CsiNode R
  set_tx_enabled enabled c =
      let io = c.io_tasks in record c { io_tasks = record io { tx_enabled = enabled } }

  unfoldable pub set_rx_enabled : Bool → CsiNode R → CsiNode R
  set_rx_enabled enabled c =
      let io = c.io_tasks in record c { io_tasks = record io { rx_enabled = enabled } }

  unfoldable pub set_role : NodeRole R → CsiNode R → CsiNode R
  set_role role c = record c { role = role }

  unfoldable pub set_protocol : Protocol → CsiNode R → CsiNode R
  set_protocol protocol c = record c { protocol = some protocol }

  unfoldable pub set_radio_profile : RadioProfile R → CsiNode R → CsiNode R
  set_radio_profile profile c = record c { profile = profile }

  unfoldable pub set_flood_unsolicited_reply : Bool → CsiNode R → CsiNode R
  set_flood_unsolicited_reply enabled c = record c { flood_unsolicited_reply = enabled }
