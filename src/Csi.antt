-- ===== src/Csi.antt =====
-- lib/csi/mod.rs and lib/csi/delivery.rs for the classic chips (neither `esp32c5` nor `esp32c6`),
-- with the `statistics` feature: the CSI packet and its format here, the delivery of captured
-- packets in the modules below.
pub mod Format
pub mod Packet
pub mod Samples
mod Tests
use esp_csi_rs_core.Common.{ℕ, ◌%◌, ◌^◌, List, Option, none, some, ltb, ◌==◌, if◌then◌else◌, length}
use esp_csi_rs_core.Common.Int.{ℤ}
use esp_csi_rs_core.Common.Mac.{Mac}
use esp_csi_rs_core.Time.{DateTime}

-- `RxCSIFmt`
pub data RxCsiFmt : Type 0 where
  bw20 ht_bw20 ht_bw20_stbc : RxCsiFmt
  secb_bw20 secb_ht_bw20 secb_ht_bw20_stbc secb_ht_bw40 secb_ht_bw40_stbc : RxCsiFmt
  seca_bw20 seca_ht_bw20 seca_ht_bw20_stbc seca_ht_bw40 seca_ht_bw40_stbc : RxCsiFmt
  vht_bw20 undefined : RxCsiFmt

-- `CSIDataPacket`; `csi_data` is a `heapless::Vec<i8, 612>`, a list of at most 612 values.
pub record CsiDataPacket : Type 0 where
  pub mac : Mac
  pub rssi : ℤ
  pub timestamp : ℕ
  pub rate : ℕ
  pub sgi : ℕ
  pub secondary_channel : ℕ
  pub channel : ℕ
  pub bandwidth : ℕ
  pub antenna : ℕ
  pub sig_mode : ℕ
  pub mcs : ℕ
  pub smoothing : ℕ
  pub not_sounding : ℕ
  pub aggregation : ℕ
  pub stbc : ℕ
  pub fec_coding : ℕ
  pub ampdu_cnt : ℕ
  pub noise_floor : ℤ
  pub rx_state : ℕ
  pub sig_len : ℕ
  pub date_time : Option DateTime
  pub sequence_number : ℕ
  pub data_format : RxCsiFmt
  pub csi_data_len : ℕ
  pub csi_data : List ℤ

-- What the accessors of esp-radio's `WifiCsiInfo` return for one captured frame.
pub record WifiCsiInfo : Type 0 where
  pub buf : List ℤ
  pub mac : Mac
  pub timestamp_micros : ℕ
  pub rx_sequence : ℕ
  pub rssi : ℤ
  pub cwb : ℕ
  pub antenna : ℕ
  pub rate : ℕ
  pub packet_mode : ℕ
  pub modulation_coding_scheme : ℕ
  pub smoothing : ℕ
  pub not_sounding : ℕ
  pub aggregation : ℕ
  pub space_time_block_code : ℕ
  pub forward_error_correction_coding : ℕ
  pub short_guide_interval : ℕ
  pub noise_floor : ℤ
  pub ampdu_count : ℕ
  pub channel : ℕ
  pub secondary_channel : ℕ
  pub rx_state : ℕ
  pub signal_length : ℕ

-- The `match` on `stbc` that stands in five arms of `csi_fmt_from_params`.
abbrev pub by_stbc : ℕ → RxCsiFmt → RxCsiFmt → RxCsiFmt
by_stbc stbc plain coded = if stbc == 0 then plain else if stbc == 1 then coded else undefined

-- The format that `csi_fmt_from_params` stores in `data_format`.
pub fmt_from_params : ℕ → ℕ → ℕ → ℕ → RxCsiFmt
fmt_from_params secondary_channel sig_mode bandwidth stbc =
    if secondary_channel == 0
    then if sig_mode == 0
      then bw20
      else if sig_mode == 1
      then by_stbc stbc ht_bw20 ht_bw20_stbc
      else undefined
    else if secondary_channel == 1
    then if sig_mode == 0
      then seca_bw20
      else if sig_mode == 1
      then if bandwidth == 0
        then by_stbc stbc seca_ht_bw20 seca_ht_bw20_stbc
        else if bandwidth == 1
        then by_stbc stbc seca_ht_bw40 seca_ht_bw40_stbc
        else undefined
      else undefined
    else if secondary_channel == 2
    then if sig_mode == 0
      then secb_bw20
      else if sig_mode == 1
      then if bandwidth == 0
        then by_stbc stbc secb_ht_bw20 secb_ht_bw20_stbc
        else if bandwidth == 1
        then by_stbc stbc secb_ht_bw40 secb_ht_bw40_stbc
        else undefined
      else undefined
    else undefined

pub csi_fmt_from_params : CsiDataPacket → CsiDataPacket
unfolding fmt_from_params
csi_fmt_from_params p = record p {
  data_format = fmt_from_params p.secondary_channel p.sig_mode p.bandwidth p.stbc;
}

abbrev pub csi_capacity : ℕ
csi_capacity = 612

-- The packet that `from_wifi_csi_info` builds from the accessors' values.
pub packet_of : WifiCsiInfo → CsiDataPacket
packet_of info = record {
  mac = info.mac;
  rssi = info.rssi;
  timestamp = info.timestamp_micros % 2 ^ 32;
  rate = info.rate;
  sgi = info.short_guide_interval;
  secondary_channel = info.secondary_channel;
  channel = info.channel;
  bandwidth = info.cwb;
  antenna = info.antenna;
  sig_mode = info.packet_mode;
  mcs = info.modulation_coding_scheme;
  smoothing = info.smoothing;
  not_sounding = info.not_sounding;
  aggregation = info.aggregation;
  stbc = info.space_time_block_code;
  fec_coding = info.forward_error_correction_coding;
  ampdu_cnt = info.ampdu_count;
  noise_floor = info.noise_floor;
  rx_state = info.rx_state;
  sig_len = info.signal_length;
  date_time = none;
  sequence_number = info.rx_sequence;
  data_format = undefined;
  csi_data_len = length info.buf % 2 ^ 16;
  csi_data = info.buf;
}

-- `CSIDataPacket::from_wifi_csi_info`: `extend_from_slice` refuses what does not fit the vector.
pub from_wifi_csi_info : WifiCsiInfo → Option CsiDataPacket
unfolding packet_of csi_fmt_from_params
from_wifi_csi_info info =
    if ltb csi_capacity (length info.buf) then none else some (csi_fmt_from_params (packet_of info))
