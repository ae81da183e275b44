-- ===== src/Radio.antt =====
-- lib/radio.rs and lib/espnow_phy.rs on the classic chips: the driver calls that set up the receive
-- callback of ESP-NOW, the channel and the PHY of a peer, in order.
pub mod Rates
use esp_csi_rs_core.Common.{
  ℕ, ◌+◌, Bool, true, false, ◌&&◌, List, [], ◌∷◌, ◌++◌, Option, none, some, ltb, leb, if◌then◌else◌,
}
use esp_csi_rs_core.Common.Mac.{Mac}

-- `SecondaryChannel` of the driver.
pub data SecondaryChannel : Type 0 where
  no_secondary above below : SecondaryChannel

pub data RadioCall : Type 0 where
  -- `esp_now_pool::install`
  install : RadioCall
  esp_now_unregister_recv_cb : RadioCall
  set_config_station : RadioCall
  set_channel : ℕ → SecondaryChannel → RadioCall
  -- `set_bandwidths` with 40 MHz on 2.4 GHz
  set_bandwidths_40 : RadioCall
  -- `esp_now_set_peer_rate_config`: peer, PHY mode and rate
  set_peer_rate_config : Mac → ℕ → ℕ → RadioCall

unfoldable pub suppress_espnow_rx : List RadioCall
suppress_espnow_rx = esp_now_unregister_recv_cb ∷ []

-- There is one band.
unfoldable pub apply_band_for_channel : ℕ → List RadioCall
apply_band_for_channel primary = []

-- `readable` tells whether `controller.bandwidths()` returns the widths.
unfoldable pub apply_ht40_channel : Bool → ℕ → SecondaryChannel → List RadioCall
unfolding apply_band_for_channel
apply_ht40_channel readable primary secondary =
    apply_band_for_channel primary
    ++ (set_channel primary secondary ∷ (if readable then set_bandwidths_40 ∷ [] else []))

unfoldable pub install_static_espnow_recv : List RadioCall
install_static_espnow_recv = install ∷ []

unfoldable pub suspend_esp_now_recv : List RadioCall
suspend_esp_now_recv = esp_now_unregister_recv_cb ∷ []

unfoldable pub takeover_esp_now_recv : Bool → List RadioCall
unfolding install_static_espnow_recv suspend_esp_now_recv
takeover_esp_now_recv is_sniffer =
    install_static_espnow_recv ++ (if is_sniffer then suspend_esp_now_recv else [])

unfoldable pub with_espnow_recv_suspended : List RadioCall → List RadioCall
with_espnow_recv_suspended f = f

unfoldable pub bring_up_espnow_sta : Bool → List RadioCall
unfolding install_static_espnow_recv
bring_up_espnow_sta resume_recv =
    set_config_station ∷ (if resume_recv then install_static_espnow_recv else [])

unfoldable pub apply_espnow_band_for_channel : ℕ → List RadioCall
apply_espnow_band_for_channel primary = []

unfoldable pub apply_espnow_ht40 : Bool → ℕ → SecondaryChannel → List RadioCall
unfolding apply_espnow_band_for_channel
apply_espnow_ht40 readable primary secondary =
    apply_espnow_band_for_channel primary
    ++ (set_channel primary secondary ∷ (if readable then set_bandwidths_40 ∷ [] else []))

unfoldable pub apply_espnow_ht40_mode : Bool → ℕ → SecondaryChannel → List RadioCall
unfolding apply_espnow_ht40
apply_espnow_ht40_mode readable primary secondary = apply_espnow_ht40 readable primary secondary

-- The kinds of rate that the code tells apart.
pub data RateKind : Type 0 where
  lora_250k lora_500k rate_max plain : RateKind

-- `WifiPhyRate` of the driver, as far as the code looks into it: the kind of a rate, and its
-- discriminant.
pub record WifiPhyRate (R : Type 0) : Type 0 where
  pub kind : R → RateKind
  pub as_u32 : R → ℕ
  pub mcs0_lgi : R
  pub mcs7_lgi : R

module _ {R : Type 0} (rates : WifiPhyRate R) where
  open rates use {kind, as_u32}

  unfoldable pub wifi_phy_rate_to_c : R → ℕ
  wifi_phy_rate_to_c rate = elim (kind rate) [
    | lora_250k ↦ 41
    | lora_500k ↦ 42
    | rate_max ↦ 43
    | plain ↦ if ltb (as_u32 rate) 4 then as_u32 rate else as_u32 rate + 1
  ]

  unfoldable pub espnow_phymode : R → Option SecondaryChannel → ℕ
  unfolding wifi_phy_rate_to_c
  espnow_phymode rate secondary =
      let c = wifi_phy_rate_to_c rate in
      if leb 16 c && leb c 31
      then elim secondary [ some _ ↦ 5 | none ↦ 4 ]
      else if leb c 7
      then 1
      else 2

  unfoldable pub set_peer_espnow_phy : Mac → R → Option SecondaryChannel → List RadioCall
  unfolding espnow_phymode wifi_phy_rate_to_c
  set_peer_espnow_phy peer rate secondary =
      set_peer_rate_config peer (espnow_phymode rate secondary) (wifi_phy_rate_to_c rate) ∷ []

  unfoldable pub apply_peer_espnow_phy : Mac → R → Option SecondaryChannel → List RadioCall
  unfolding with_espnow_recv_suspended set_peer_espnow_phy
  apply_peer_espnow_phy peer rate secondary =
      with_espnow_recv_suspended (set_peer_espnow_phy peer rate secondary)
