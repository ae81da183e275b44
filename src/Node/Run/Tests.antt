-- ===== src/Node/Run/Tests.antt =====
-- Runs of small nodes.
use esp_csi_rs_core.Common.{All, ℕ, ◌≡◌, refl, true, false, [], ◌∷◌, none, some}
use esp_csi_rs_core.Radio.{esp_now_unregister_recv_cb, no_secondary}
use esp_csi_rs_core.Config.{RadioCsiConfig, collector}
use esp_csi_rs_core.Node.{
  NodeRole, sniffer, collector_role, peripheral, PeripheralOpMode, CsiNode, n, b, g,
}
use esp_csi_rs_core.Node.Run.{
  stats_begin_run, set_icmp_flood_unsolicited, set_runtime_collection_mode, radio, set_protocols,
  store_csi_output_enabled, set_seq_drop_detection, set_csi, set_promiscuous_mode, set_channel,
  join, run_process_csi_packet, csi_data_collection, stop_signal_reset, reset_globals, Surroundings,
  run_inner, execute, acquisition,
}
use esp_csi_rs_core.Node.Run.Arming.{Arms, run_inner-Arms}
use esp_csi_rs_core.Node.Run.Handed.{Handed}

-- A rate of the driver is a number here.
abbrev node : NodeRole ℕ → CsiNode ℕ
node role = record {
  role = role;
  csi_output_enabled = true;
  io_tasks = record { tx_enabled = true; rx_enabled = true };
  csi_config = none;
  traffic_freq_hz = some 100;
  protocol = some n;
  flood_unsolicited_reply = false;
  profile = record {
    wants_bringup = λ role protocol. false;
    tune_protocols = λ role protocol base. base;
    tune_csi_acquisition = λ raw. raw;
  };
  collection_mode = collector;
  esp_now_rate = none;
}

abbrev overhearing : CsiNode ℕ
overhearing = node (collector_role (sniffer (record { mac_filter = none; channel = 6 })))

abbrev source : CsiNode ℕ
source = node (
    peripheral (
      PeripheralOpMode.esp_now_fast_source (record {
        phy_rate = 7;
        channel = 6;
        peer_mac = none;
        secondary_channel = none;
        force_phy = true;
      })))

abbrev alone : Surroundings
alone = record { is_collector = true; bandwidths_readable = true; has_client = true }

abbrev defaults : RadioCsiConfig
defaults = record {
  lltf_en = true;
  htltf_en = true;
  stbc_htltf2_en = true;
  ltf_merge_en = true;
  channel_filter_en = false;
  manu_scale = false;
  shift = 0;
  dump_ack_en = false;
}

overheard : execute (λ a. true) (run_inner (some 5) alone overhearing) ≡ (
  stats_begin_run
      ∷ set_icmp_flood_unsolicited false
      ∷ set_runtime_collection_mode true
      ∷ radio esp_now_unregister_recv_cb
      ∷ set_protocols (b ∷ g ∷ n ∷ [])
      ∷ store_csi_output_enabled true
      ∷ set_seq_drop_detection true
      ∷ set_promiscuous_mode true
      ∷ set_channel 6 no_secondary
      ∷ set_csi defaults
      ∷ join (run_process_csi_packet ∷ csi_data_collection 5 ∷ [])
      ∷ join (run_process_csi_packet ∷ [])
      ∷ set_promiscuous_mode false
      ∷ stop_signal_reset
      ∷ reset_globals
      ∷ [],
  true,
)
unfolding execute run_inner acquisition
overheard = refl

-- A fast source, which is to capture nothing, has CSI armed.
run_inner-Arms_example :
    Arms (acquisition source ∷ []) (run_inner (some 5) alone source)
    × All (Handed source) (run_inner (some 5) alone source)
run_inner-Arms_example = run_inner-Arms (some 5) alone source
