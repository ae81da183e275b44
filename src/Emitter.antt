-- ===== src/Emitter.antt =====
-- lib/emitter on the classic chips: the configuration, the probe frame, the order of the driver
-- calls of the bring-up, and the emission loop. A call whose result the code drops is only the call.
pub mod Frame
pub mod Bringup
pub mod Emission
mod Tests
use esp_csi_rs_core.Common.{
  ℕ, zero, suc, ◌+◌, ◌*◌, ◌%◌, Bool, true, false, not, List, [], ◌∷◌, ◌++◌, Option, none, some, ltb,
  ◌==◌, if◌then◌else◌, length, drop,
}
use esp_csi_rs_core.Common.Mac.{Mac, mac, octets}
use esp_csi_rs_core.Radio.{SecondaryChannel, no_secondary, above, below}
use esp_csi_rs_core.Stats.{Stats, record_tx}

pub data HtBandwidth : Type 0 where
  ht20 ht40_above ht40_below : HtBandwidth

unfoldable pub is_forty : HtBandwidth → Bool
is_forty ht20 = false
is_forty ht40_above = true
is_forty ht40_below = true

unfoldable pub secondary : HtBandwidth → SecondaryChannel
secondary ht20 = no_secondary
secondary ht40_above = above
secondary ht40_below = below

abbrev pub broadcast : Mac
broadcast = mac 255 255 255 255 255 255

-- `EmitterConfig`, with the period in microseconds.
pub record EmitterConfig : Type 0 where
  pub channel : ℕ
  pub bandwidth : HtBandwidth
  pub dst_mac : Mac
  pub period : ℕ
  pub use_sta_if : Bool

unfoldable pub new_emitter_config : ℕ → HtBandwidth → EmitterConfig
new_emitter_config channel bandwidth = record {
  channel = channel;
  bandwidth = bandwidth;
  dst_mac = broadcast;
  period = 20 * 1000;
  use_sta_if = true;
}

unfoldable pub with_dst_mac : Mac → EmitterConfig → EmitterConfig
with_dst_mac dst_mac c = record c { dst_mac = dst_mac }

unfoldable pub with_period : ℕ → EmitterConfig → EmitterConfig
with_period period c = record c { period = period }

unfoldable pub with_ap_interface : EmitterConfig → EmitterConfig
with_ap_interface c = record c { use_sta_if = false }

abbrev pub probe_frame_len : ℕ
probe_frame_len = 24 + 8

-- The bytes `i as u8` of the body, from the index on.
unfoldable pub body_bytes : ℕ → ℕ → List ℕ
body_bytes i zero = []
body_bytes i (suc n) = i % 256 ∷ body_bytes (suc i) n

unfoldable pub probe_header : Mac → Mac → List ℕ
probe_header src_mac dst_mac =
    8 ∷ 0 ∷ 0 ∷ 0 ∷ [] ++ (octets dst_mac ++ (octets src_mac ++ (octets src_mac ++ (0 ∷ 0 ∷ []))))

-- The buffer afterwards, and the number of bytes written.
unfoldable pub build_probe_frame : Mac → Mac → List ℕ → List ℕ × ℕ
unfolding probe_header body_bytes
build_probe_frame src_mac dst_mac buf = if ltb (length buf) probe_frame_len then (buf, 0) else (
  probe_header src_mac dst_mac ++ (body_bytes 0 8 ++ drop probe_frame_len buf),
  probe_frame_len,
)

abbrev pub wifi_if_sta : ℕ
wifi_if_sta = 0

abbrev pub wifi_if_ap : ℕ
wifi_if_ap = 1

abbrev pub wifi_mode_ap : ℕ
wifi_mode_ap = 2

abbrev pub wifi_phy_mode_ht20 : ℕ
wifi_phy_mode_ht20 = 4

abbrev pub wifi_phy_mode_ht40 : ℕ
wifi_phy_mode_ht40 = 5

abbrev pub wifi_phy_rate_mcs0_lgi : ℕ
wifi_phy_rate_mcs0_lgi = 16

-- A rung of the 2.4 GHz protocols.
pub data Rung : Type 0 where
  b g n : Rung

pub data Call : Type 0 where
  -- `esp_wifi_config_80211_tx`: interface, PHY mode and rate
  config_80211_tx : ℕ → ℕ → ℕ → Call
  esp_wifi_set_mode : ℕ → Call
  set_config_station set_config_access_point : Call
  -- `set_bandwidths` with the 2.4 GHz width in MHz
  set_bandwidths : ℕ → Call
  set_protocols : List Rung → Call
  set_channel : ℕ → SecondaryChannel → Call
  esp_now_set_channel : ℕ → Call
  add_peer : Mac → ℕ → Call
  -- `esp_now_set_peer_rate_config`: peer, PHY mode and rate
  set_peer_rate_config : Mac → ℕ → ℕ → Call
  set_promiscuous_mode : Bool → Call

unfoldable pub force_ht_tx : ℕ → ℕ → List Call
force_ht_tx ifx phymode = config_80211_tx ifx phymode wifi_phy_rate_mcs0_lgi ∷ []

-- `prev_mode` is what `esp_wifi_get_mode` stores, or 0 where it fails.
unfoldable pub force_tx_ap_before_start : ℕ → ℕ → List Call
unfolding force_ht_tx
force_tx_ap_before_start prev_mode phymode =
    if prev_mode == wifi_mode_ap
    then force_ht_tx wifi_if_ap phymode
    else esp_wifi_set_mode wifi_mode_ap ∷ []
      ++ (force_ht_tx wifi_if_ap phymode ++ (esp_wifi_set_mode prev_mode ∷ []))

unfoldable pub force_ht20_tx_sta_before_start : List Call
unfolding force_ht_tx
force_ht20_tx_sta_before_start = force_ht_tx wifi_if_sta wifi_phy_mode_ht20

unfoldable pub force_ht40_tx_sta_before_start : List Call
unfolding force_ht_tx
force_ht40_tx_sta_before_start = force_ht_tx wifi_if_sta wifi_phy_mode_ht40

unfoldable pub force_ht20_tx_ap_before_start : ℕ → List Call
unfolding force_tx_ap_before_start
force_ht20_tx_ap_before_start prev_mode = force_tx_ap_before_start prev_mode wifi_phy_mode_ht20

unfoldable pub force_ht40_tx_ap_before_start : ℕ → List Call
unfolding force_tx_ap_before_start
force_ht40_tx_ap_before_start prev_mode = force_tx_ap_before_start prev_mode wifi_phy_mode_ht40

-- `readable` tells whether `controller.bandwidths()` returns the widths.
unfoldable pub apply_ht_bandwidth : Bool → Bool → List Call
apply_ht_bandwidth readable forty =
    if readable then set_bandwidths (if forty then 40 else 20) ∷ [] else []

unfoldable pub ht_protocols : List Rung
ht_protocols = b ∷ g ∷ n ∷ []

unfoldable pub apply_ht_protocols : List Call
unfolding ht_protocols
apply_ht_protocols = set_protocols ht_protocols ∷ []

-- What the bring-up reads of the driver: the mode at the first and at the second forcing of an AP
-- rate, whether the bandwidths can be read, and whether the destination is a peer.
pub record Readings : Type 0 where
  pub mode_pre : ℕ
  pub mode_post : ℕ
  pub bandwidths_readable : Bool
  pub dst_exists : Bool

-- The forced PHY of the configured interface.
unfoldable pub force_tx : Bool → Bool → ℕ → List Call
unfolding force_ht40_tx_sta_before_start force_ht20_tx_sta_before_start
    force_ht40_tx_ap_before_start force_ht20_tx_ap_before_start
force_tx use_sta_if forty mode =
    if use_sta_if
    then (if forty then force_ht40_tx_sta_before_start else force_ht20_tx_sta_before_start)
    else (if forty then force_ht40_tx_ap_before_start mode else force_ht20_tx_ap_before_start mode)

-- `bringup` of mod.rs.
unfoldable pub bringup : Readings → EmitterConfig → List Call
unfolding is_forty secondary force_tx apply_ht_bandwidth apply_ht_protocols
bringup r c =
    let forty = is_forty c.bandwidth in
    force_tx c.use_sta_if forty r.mode_pre
    ++ ((if c.use_sta_if then set_config_station else set_config_access_point) ∷ []
        ++ (apply_ht_bandwidth r.bandwidths_readable forty
            ++ (apply_ht_protocols
                ++ (set_channel c.channel (secondary c.bandwidth) ∷ []
                    ++ force_tx c.use_sta_if forty r.mode_post))))

unfoldable pub force_peer_ht : Mac → Bool → List Call
force_peer_ht peer forty =
    set_peer_rate_config peer (if forty then wifi_phy_mode_ht40 else wifi_phy_mode_ht20)
      wifi_phy_rate_mcs0_lgi
    ∷ []

-- `bringup` of espnow.rs.
unfoldable pub espnow_bringup : Bool → Mac → ℕ → Bool → List Call
unfolding force_peer_ht
espnow_bringup dst_exists dst channel forty =
    set_config_station ∷ esp_now_set_channel channel ∷ []
    ++ ((if dst_exists then [] else add_peer dst channel ∷ []) ++ force_peer_ht dst forty)

-- `run_emitter` up to its loop.
unfoldable pub prepare : Readings → EmitterConfig → List Call
unfolding bringup espnow_bringup is_forty
prepare r c =
    bringup r c
    ++ (espnow_bringup r.dst_exists c.dst_mac c.channel (is_forty c.bandwidth)
        ++ (set_promiscuous_mode true ∷ []))

-- The one poll of the future of `send_async`.
pub data Polled : Type 0 where
  pending ready_ok ready_err : Polled

unfoldable pub send_once : Polled → Bool
send_once pending = true
send_once ready_ok = true
send_once ready_err = false

pub record EmitterLoop : Type 0 where
  pub reported_failure : Bool
  pub failure_lines : ℕ
  pub stats : Stats

-- A round of the loop of `run_emitter`, without the benchmark build.
unfoldable pub emit_round : Polled → EmitterLoop → EmitterLoop
unfolding send_once
emit_round polled e =
    if send_once polled
    then record e { stats = record_tx e.stats }
    else if e.reported_failure
    then e
    else record e { reported_failure = true; failure_lines = e.failure_lines + 1 }

-- The rounds until the stop signal ends the wait of the last one.
unfoldable pub emit_rounds : List Polled → EmitterLoop → EmitterLoop
emit_rounds [] e = e
emit_rounds (p ∷ ps) e = emit_rounds ps (emit_round p e)

-- The loop's state at its start.
unfoldable pub emission_start : Stats → EmitterLoop
emission_start stats = record { reported_failure = false; failure_lines = 0; stats = stats }
