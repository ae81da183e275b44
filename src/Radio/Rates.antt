-- ===== src/Radio/Rates.antt =====
-- The driver's codes of the rates.
use esp_csi_rs_core.Common.{◌+◌, ◌<◌, ◌≡◌, ◌≢◌, refl, arith, ltb, if◌then◌else◌}
use esp_csi_rs_core.Radio.{WifiPhyRate, plain, wifi_phy_rate_to_c}

module _ {R : Type 0} (rates : WifiPhyRate R) where
  open rates use {kind, as_u32}

  plain_code :
      (a : R)
      → kind a ≡ plain
      → wifi_phy_rate_to_c rates a ≡ (if ltb (as_u32 a) 4 then as_u32 a else as_u32 a + 1)
  unfolding wifi_phy_rate_to_c
  plain_code a e = rw (wifi_phy_rate_to_c, e) refl

  -- Of two plain rates with discriminants below 40, the codes are in the order of the
  -- discriminants, below the codes of the LoRa rates and never 4, which names no rate.
  pub wifi_phy_rate_to_c_lem :
      (a b : R)
      → kind a ≡ plain
      → kind b ≡ plain
      → as_u32 a < as_u32 b
      → as_u32 b < 40
      → (wifi_phy_rate_to_c rates a < wifi_phy_rate_to_c rates b)
        × (wifi_phy_rate_to_c rates b < 41)
        × (wifi_phy_rate_to_c rates a ≢ 4)
        × (wifi_phy_rate_to_c rates b ≢ 4)
  wifi_phy_rate_to_c_lem a b ka kb h l = ground (arith, plain_code a ka, plain_code b kb)
