-- ===== src/FastEspNow/Tests.antt =====
-- A collector and a source that meet, and a flood of three rounds.
use esp_csi_rs_core.Common.{ℕ, ◌≡◌, refl, true, false, List, [], ◌∷◌, ◌++◌, none, some}
use esp_csi_rs_core.Common.Mac.{Mac, mac}
use esp_csi_rs_core.Config.{EspNowConfig}
use esp_csi_rs_core.Radio.{
  WifiPhyRate, plain, apply_peer_espnow_phy, set_peer_espnow_phy, espnow_phymode,
  wifi_phy_rate_to_c, set_peer_rate_config, with_espnow_recv_suspended,
}
use esp_csi_rs_core.Central.{ok}
use esp_csi_rs_core.Protocol.{
  parse_with_magic, peripheral_packet, frame, serialize_with_magic, to_le_bytes,
  central_magic_number, peripheral_magic_number,
}
use esp_csi_rs_core.Protocol.Samples.{flat, encode, empty_hello}
use esp_csi_rs_core.Peripheral.Responder.{broadcast_address}
use esp_csi_rs_core.FastEspNow.{
  is_source, Wake, deadline, received, Round, Collector, control, send_beacon, discover,
  search_collector, locked, add_peer, radio, send, FloodRound, hello_calls, flood_frame, check_peer,
  peer_calls, add_collector_peer, forced_rate, after_flood_send, hold_cap, flood_round,
  flood_rounds, run_source, cap_interval_us,
}
use esp_csi_rs_core.FastEspNow.Pairing.{from, search_collector-discover, flood_frame-discover}

abbrev rates : WifiPhyRate ℕ
rates = record { kind = λ r. plain; as_u32 = λ r. r; mcs0_lgi = 16; mcs7_lgi = 23 }

abbrev auto : EspNowConfig ℕ
auto = record {
  phy_rate = 16;
  channel = 6;
  peer_mac = none;
  secondary_channel = none;
  force_phy = false;
}

abbrev collector_mac : Mac
collector_mac = mac 2 0 0 0 0 10

abbrev source_mac : Mac
source_mac = mac 2 0 0 0 0 20

abbrev fresh : Collector
fresh = record {
  detected_src = none;
  beacon_at = 0;
  beacon_seq = 0;
  tx_count = 0;
  stop_signal = false;
  sent = [];
}

abbrev first_beacon : List ℕ
first_beacon = to_le_bytes central_magic_number ++ (1 ∷ 0 ∷ [])

abbrev first_hello : List ℕ
first_hello = to_le_bytes peripheral_magic_number

abbrev noise : List Wake
noise = deadline ∷ received (from source_mac (1 ∷ [])) ∷ []

abbrev waits : List Round
waits =
    record { now = 0; later = 3; wake = deadline }
    ∷ record { now = 1000010; later = 1000012; wake = received (from collector_mac first_beacon) }
    ∷ []

beacon_fits :
    serialize_with_magic flat (control true 0) central_magic_number true 16 ≡ frame first_beacon
unfolding serialize_with_magic encode
beacon_fits = refl

hello_fits :
    serialize_with_magic empty_hello peripheral_packet peripheral_magic_number true 8
    ≡ frame first_hello
unfolding serialize_with_magic
hello_fits = refl

search_collector-discover_example :
    ((send_beacon flat empty_hello true fresh).sent
      ≡ [] ++ ((broadcast_address, first_beacon) ∷ []))
    × (search_collector flat empty_hello
          (noise ++ (received (from collector_mac first_beacon) ∷ []))
        ≡ locked collector_mac)
    × (hello_calls rates auto flat empty_hello collector_mac ≡ send collector_mac first_hello ∷ [])
    × ((discover flat empty_hello true none
          (waits
            ++ (record {
              now = 1000100;
              later = 1000101;
              wake = received (from source_mac first_hello);
            }
                ∷ []))
          fresh).detected_src
        ≡ some source_mac)
unfolding is_source parse_with_magic
search_collector-discover_example =
    search_collector-discover flat empty_hello rates auto collector_mac source_mac first_beacon
      first_hello noise [] true waits [] 1000100 1000101 fresh refl beacon_fits hello_fits
      (tt, (refl, tt)) (tt, (refl, tt))

abbrev flood_bytes : List ℕ
flood_bytes = to_le_bytes central_magic_number ++ (0 ∷ 7 ∷ [])

abbrev flooded : List Round
flooded =
    record { now = 0; later = 3; wake = received (from source_mac flood_bytes) }
    ∷ record { now = 10; later = 12; wake = received (from source_mac flood_bytes) }
    ∷ []

flood_fits :
    serialize_with_magic flat (control false 7) central_magic_number true 16 ≡ frame flood_bytes
unfolding serialize_with_magic encode
flood_fits = refl

flood_frame_run : flood_frame rates auto flat empty_hello 7 ≡ some flood_bytes
unfolding flood_frame serialize_with_magic encode
flood_frame_run = refl

flood_frame-discover_example :
    (search_collector flat empty_hello (received (from source_mac flood_bytes) ∷ [])
      ≡ locked source_mac)
    × ((discover flat empty_hello true none flooded fresh).detected_src ≡ none)
flood_frame-discover_example =
    flood_frame-discover flat empty_hello rates auto source_mac 7 flood_bytes [] true flooded fresh
      refl flood_frame_run
      ((7, flood_bytes, flood_fits, refl), ((7, flood_bytes, flood_fits, refl), tt))

abbrev good_round : FloodRound
good_round = record {
  stop_signaled = false;
  peer_exists = true;
  outcome = ok;
  backoff_stopped = false;
  now = 100;
  cap_stopped = false;
}

-- The peer, its PHY, the hello, two frames, and a stop.
flood_run :
    (run_source rates auto flat empty_hello none false 0
      (good_round ∷ good_round ∷ record good_round { stop_signaled = true } ∷ good_round ∷ [])
      collector_mac).calls
    ≡ add_peer collector_mac
      ∷ radio (set_peer_rate_config collector_mac 4 24)
      ∷ send collector_mac first_hello
      ∷ send collector_mac (to_le_bytes central_magic_number ++ (0 ∷ 0 ∷ []))
      ∷ send collector_mac (to_le_bytes central_magic_number ++ (0 ∷ 1 ∷ []))
      ∷ []
unfolding run_source flood_rounds flood_round flood_frame hello_calls serialize_with_magic encode
    check_peer peer_calls add_collector_peer forced_rate after_flood_send hold_cap cap_interval_us
    apply_peer_espnow_phy set_peer_espnow_phy espnow_phymode wifi_phy_rate_to_c
    with_espnow_recv_suspended
flood_run = refl
