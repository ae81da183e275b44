-- ===== src/Emitter/Bringup.antt =====
-- The driver calls of the bring-up agree with the configuration.
use esp_csi_rs_core.Common.{
  ℕ, ◌≡◌, refl, Bool, true, false, [], ◌∷◌, All, All-append, ◌==◌, if_cases,
}
use esp_csi_rs_core.Common.Mac.{Mac}
use esp_csi_rs_core.Radio.{SecondaryChannel, no_secondary, above, below}
use esp_csi_rs_core.Emitter.{
  HtBandwidth, ht20, ht40_above, ht40_below, EmitterConfig, Call, config_80211_tx,
  set_config_station, set_config_access_point, set_bandwidths, set_channel, esp_now_set_channel,
  add_peer, set_peer_rate_config, set_promiscuous_mode, Readings, bringup, espnow_bringup, prepare,
  force_tx, is_forty, apply_ht_bandwidth, apply_ht_protocols, force_peer_ht, secondary,
}

-- The columns of a bandwidth: PHY mode of the driver, width in MHz, secondary channel.
abbrev pub row : HtBandwidth → ℕ × ℕ × SecondaryChannel
row ht20 = (4, 20, no_secondary)
row ht40_above = (5, 40, above)
row ht40_below = (5, 40, below)

-- A call uses the channel, the destination and the row of the bandwidth.
module _ (bandwidth : HtBandwidth) (channel : ℕ) (dst : Mac) where
  abbrev pub Agrees : Call → Type 0
  Agrees (config_80211_tx ifx phymode rate) =
      let (mode, _, _) = row bandwidth in (phymode ≡ mode) × (rate ≡ 16)
  Agrees (set_bandwidths width) = let (_, mhz, _) = row bandwidth in width ≡ mhz
  Agrees (set_channel ch side) =
      let (_, _, secondary) = row bandwidth in (ch ≡ channel) × (side ≡ secondary)
  Agrees (esp_now_set_channel ch) = ch ≡ channel
  Agrees (add_peer peer ch) = (peer ≡ dst) × (ch ≡ channel)
  Agrees (set_peer_rate_config peer phymode rate) =
      let (mode, _, _) = row bandwidth in (peer ≡ dst) × (phymode ≡ mode) × (rate ≡ 16)
  Agrees call = Unit {0}

forced :
    (bandwidth : HtBandwidth) (channel : ℕ) (dst : Mac) (sta : Bool) (mode : ℕ)
    → All (Agrees bandwidth channel dst) (force_tx sta (is_forty bandwidth) mode)
unfolding force_tx is_forty
forced ht20 channel dst true mode = ((refl, refl), tt)
forced ht40_above channel dst true mode = ((refl, refl), tt)
forced ht40_below channel dst true mode = ((refl, refl), tt)
forced ht20 channel dst false mode =
    if_cases (All (Agrees ht20 channel dst)) (mode == 2) _ _ ((refl, refl), tt)
      (tt, ((refl, refl), (tt, tt)))
forced ht40_above channel dst false mode =
    if_cases (All (Agrees ht40_above channel dst)) (mode == 2) _ _ ((refl, refl), tt)
      (tt, ((refl, refl), (tt, tt)))
forced ht40_below channel dst false mode =
    if_cases (All (Agrees ht40_below channel dst)) (mode == 2) _ _ ((refl, refl), tt)
      (tt, ((refl, refl), (tt, tt)))

widths :
    (bandwidth : HtBandwidth) (channel : ℕ) (dst : Mac) (readable : Bool)
    → All (Agrees bandwidth channel dst) (apply_ht_bandwidth readable (is_forty bandwidth))
unfolding apply_ht_bandwidth is_forty
widths bandwidth channel dst false = tt
widths ht20 channel dst true = (refl, tt)
widths ht40_above channel dst true = (refl, tt)
widths ht40_below channel dst true = (refl, tt)

side :
    (bandwidth : HtBandwidth) (channel : ℕ) (dst : Mac)
    → Agrees bandwidth channel dst (set_channel channel (secondary bandwidth))
unfolding secondary
side ht20 channel dst = (refl, refl)
side ht40_above channel dst = (refl, refl)
side ht40_below channel dst = (refl, refl)

peer_rate :
    (bandwidth : HtBandwidth) (channel : ℕ) (dst : Mac)
    → All (Agrees bandwidth channel dst) (force_peer_ht dst (is_forty bandwidth))
unfolding force_peer_ht is_forty
peer_rate ht20 channel dst = ((refl, refl, refl), tt)
peer_rate ht40_above channel dst = ((refl, refl, refl), tt)
peer_rate ht40_below channel dst = ((refl, refl, refl), tt)

started :
    (c : EmitterConfig) (r : Readings) → All (Agrees c.bandwidth c.channel c.dst_mac) (bringup r c)
unfolding bringup apply_ht_protocols
started c r =
    let P = Agrees c.bandwidth c.channel c.dst_mac in
    let after = forced c.bandwidth c.channel c.dst_mac c.use_sta_if r.mode_post in
    let width = widths c.bandwidth c.channel c.dst_mac r.bandwidths_readable in
    let rest = All-append P _ _ width (tt, (side c.bandwidth c.channel c.dst_mac, after)) in
    let interface = if_cases P c.use_sta_if set_config_station set_config_access_point tt tt in
    All-append P _ _ (forced c.bandwidth c.channel c.dst_mac c.use_sta_if r.mode_pre)
      (interface, rest)

-- All that the emitter hands to the driver before its loop agrees with its configuration: each
-- forced PHY mode, width, secondary channel, peer and channel is that of the configured
-- bandwidth, destination and channel.
prepare-Agrees :
    (c : EmitterConfig) (r : Readings) → All (Agrees c.bandwidth c.channel c.dst_mac) (prepare r c)
unfolding prepare espnow_bringup
prepare-Agrees c r =
    let P = Agrees c.bandwidth c.channel c.dst_mac in
    let rate = peer_rate c.bandwidth c.channel c.dst_mac in
    let peer =
      if_cases (All P) r.dst_exists [] (add_peer c.dst_mac c.channel ∷ []) tt ((refl, refl), tt) in
    let espnow : All P (espnow_bringup r.dst_exists c.dst_mac c.channel (is_forty c.bandwidth)) =
      (tt, (refl, All-append P _ _ peer rate)) in
    All-append P _ _ (started c r) (
      All-append P (espnow_bringup r.dst_exists c.dst_mac c.channel (is_forty c.bandwidth))
        (set_promiscuous_mode true ∷ []) espnow (tt, tt))
