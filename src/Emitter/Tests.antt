-- ===== src/Emitter/Tests.antt =====
-- The emitter at small inputs.
use esp_csi_rs_core.Common.{◌≡◌, refl, true, false, [], ◌∷◌}
use esp_csi_rs_core.Stats.{Stats}
use esp_csi_rs_core.Radio.{above}
use esp_csi_rs_core.Emitter.{
  EmitterConfig, ht40_above, new_emitter_config, with_ap_interface, broadcast, Readings, prepare,
  config_80211_tx, esp_wifi_set_mode, set_config_station, set_config_access_point, set_bandwidths,
  set_protocols, set_channel, esp_now_set_channel, add_peer, set_peer_rate_config,
  set_promiscuous_mode, b, g, n, pending, ready_ok, ready_err, emission_start, emit_round,
  emit_rounds,
}

abbrev fresh : Readings
fresh = record { mode_pre = 1; mode_post = 2; bandwidths_readable = true; dst_exists = false }

abbrev wide : EmitterConfig
wide = record {
  channel = 6;
  bandwidth = ht40_above;
  dst_mac = broadcast;
  period = 20000;
  use_sta_if = false;
}

wide_lem : with_ap_interface (new_emitter_config 6 ht40_above) ≡ wide
unfolding with_ap_interface new_emitter_config
wide_lem = refl

wide_calls :
    prepare fresh wide
    ≡ esp_wifi_set_mode 2
      ∷ config_80211_tx 1 5 16
      ∷ esp_wifi_set_mode 1
      ∷ set_config_access_point
      ∷ set_bandwidths 40
      ∷ set_protocols (b ∷ g ∷ n ∷ [])
      ∷ set_channel 6 above
      ∷ config_80211_tx 1 5 16
      ∷ set_config_station
      ∷ esp_now_set_channel 6
      ∷ add_peer broadcast 6
      ∷ set_peer_rate_config broadcast 5 16
      ∷ set_promiscuous_mode true
      ∷ []
unfolding prepare
wide_calls = refl

abbrev quiet : Stats
quiet = record {
  tx_count = 0;
  rx_count = 0;
  rx_drop_count = 0;
  capture_start_time = 0;
  tx_rate_hz = 0;
  rx_rate_hz = 0;
  reset_seq_tracker = false;
  seq_drop_detection_enabled = false;
}

emitted :
    (let d = emit_rounds (pending ∷ ready_err ∷ ready_ok ∷ ready_err ∷ []) (emission_start quiet) in
      d.failure_lines)
    ≡ 1
unfolding emit_rounds emit_round emission_start
emitted = refl
