-- ===== src/Config.antt =====
-- lib/config/csi.rs and lib/central_peripheral.rs on the classic chips: the configuration that a user
-- builds, and `build_csi_config` of lib/csi/delivery.rs, which hands it to the driver.
use esp_csi_rs_core.Common.{ℕ, Bool, true, false, Option, none, some}
use esp_csi_rs_core.Common.Mac.{Mac}
use esp_csi_rs_core.Radio.{SecondaryChannel, WifiPhyRate}

pub record CsiConfig : Type 0 where
  pub lltf_en : Bool
  pub htltf_en : Bool
  pub stbc_htltf2_en : Bool
  pub ltf_merge_en : Bool
  pub channel_filter_en : Bool
  pub manu_scale : Bool
  pub shift : ℕ
  pub dump_ack_en : Bool

unfoldable pub default_csi_config : CsiConfig
default_csi_config = record {
  lltf_en = true;
  htltf_en = true;
  stbc_htltf2_en = true;
  ltf_merge_en = true;
  channel_filter_en = false;
  manu_scale = false;
  shift = 0;
  dump_ack_en = false;
}

-- `esp_radio::wifi::csi::CsiConfig`, by the fields that the code sets.
pub record RadioCsiConfig : Type 0 where
  pub lltf_en : Bool
  pub htltf_en : Bool
  pub stbc_htltf2_en : Bool
  pub ltf_merge_en : Bool
  pub channel_filter_en : Bool
  pub manu_scale : Bool
  pub shift : ℕ
  pub dump_ack_en : Bool

unfoldable pub build_csi_config : CsiConfig → RadioCsiConfig
build_csi_config c = record {
  lltf_en = c.lltf_en;
  htltf_en = c.htltf_en;
  stbc_htltf2_en = c.stbc_htltf2_en;
  ltf_merge_en = c.ltf_merge_en;
  channel_filter_en = c.channel_filter_en;
  manu_scale = c.manu_scale;
  shift = c.shift;
  dump_ack_en = c.dump_ack_en;
}

-- `phy::ht_csi_acquisition` of lib/emitter, which ignores the width here.
unfoldable pub ht_csi_acquisition : Bool → RadioCsiConfig → RadioCsiConfig
ht_csi_acquisition forty raw = record raw {
  lltf_en = true;
  htltf_en = true;
  stbc_htltf2_en = true;
  ltf_merge_en = false;
  dump_ack_en = false;
}

pub data CollectionMode : Type 0 where
  collector listener : CollectionMode

-- `EspNowConfig`, with the driver's type of rates.
pub record EspNowConfig (R : Type 0) : Type 0 where
  pub phy_rate : R
  pub channel : ℕ
  pub peer_mac : Option Mac
  pub secondary_channel : Option SecondaryChannel
  pub force_phy : Bool

module _ {R : Type 0} where
  unfoldable pub with_channel : ℕ → EspNowConfig R → EspNowConfig R
  with_channel channel c = record c { channel = channel }

  unfoldable pub with_phy_rate : R → EspNowConfig R → EspNowConfig R
  with_phy_rate phy_rate c = record c { phy_rate = phy_rate; force_phy = true }

  unfoldable pub with_peer_mac : Mac → EspNowConfig R → EspNowConfig R
  with_peer_mac peer_mac c = record c { peer_mac = some peer_mac }

  unfoldable pub with_ht40 : SecondaryChannel → EspNowConfig R → EspNowConfig R
  with_ht40 secondary c = record c { secondary_channel = some secondary; force_phy = true }

module _ {R : Type 0} (rates : WifiPhyRate R) where
  open rates use {mcs0_lgi, mcs7_lgi}

  unfoldable pub default_esp_now_config : EspNowConfig R
  default_esp_now_config = record {
    phy_rate = mcs0_lgi;
    channel = 1;
    peer_mac = none;
    secondary_channel = none;
    force_phy = false;
  }

  unfoldable pub fast_default : EspNowConfig R
  unfolding default_esp_now_config with_phy_rate
  fast_default = with_phy_rate mcs7_lgi default_esp_now_config
