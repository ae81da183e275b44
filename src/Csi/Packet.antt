-- ===== src/Csi/Packet.antt =====
-- Well-formed packets: every field in the range of its type, and the payload within its vector.
use esp_csi_rs_core.Common.{ℕ, ◌≤◌, ◌<◌, ◌≡◌, none, some, arith, length, All, refl, lt→ltb}
use esp_csi_rs_core.Common.Int.{IsI8, IsI32}
use esp_csi_rs_core.Common.Mac.{IsMac}
use esp_csi_rs_core.Csi.{
  CsiDataPacket, WifiCsiInfo, fmt_from_params, csi_fmt_from_params, from_wifi_csi_info, packet_of,
  csi_capacity,
}

abbrev pub IsU32 : ℕ → Type 0
IsU32 n = n < 4294967296

pub record IsPacket (p : CsiDataPacket) : Type 0 where
  pub mac : IsMac p.mac
  pub rssi : IsI32 p.rssi
  pub timestamp : IsU32 p.timestamp
  pub rate : IsU32 p.rate
  pub sgi : IsU32 p.sgi
  pub secondary_channel : IsU32 p.secondary_channel
  pub channel : IsU32 p.channel
  pub bandwidth : IsU32 p.bandwidth
  pub antenna : IsU32 p.antenna
  pub sig_mode : IsU32 p.sig_mode
  pub mcs : IsU32 p.mcs
  pub smoothing : IsU32 p.smoothing
  pub not_sounding : IsU32 p.not_sounding
  pub aggregation : IsU32 p.aggregation
  pub stbc : IsU32 p.stbc
  pub fec_coding : IsU32 p.fec_coding
  pub ampdu_cnt : IsU32 p.ampdu_cnt
  pub noise_floor : IsI32 p.noise_floor
  pub rx_state : IsU32 p.rx_state
  pub sig_len : IsU32 p.sig_len
  pub sequence_number : p.sequence_number < 65536
  pub csi_data_len : p.csi_data_len < 65536
  pub fits : length p.csi_data ≤ csi_capacity
  pub samples : All IsI8 p.csi_data

-- The driver's values in the ranges of the accessors' types, as the source casts them to `u32`,
-- `i32`, `u16` and `i8`; nothing is assumed of the length of the buffer or of the clock.
pub record IsInfo (i : WifiCsiInfo) : Type 0 where
  pub samples : All IsI8 i.buf
  pub mac : IsMac i.mac
  pub rx_sequence : i.rx_sequence < 65536
  pub rssi : IsI32 i.rssi
  pub cwb : IsU32 i.cwb
  pub antenna : IsU32 i.antenna
  pub rate : IsU32 i.rate
  pub packet_mode : IsU32 i.packet_mode
  pub modulation_coding_scheme : IsU32 i.modulation_coding_scheme
  pub smoothing : IsU32 i.smoothing
  pub not_sounding : IsU32 i.not_sounding
  pub aggregation : IsU32 i.aggregation
  pub space_time_block_code : IsU32 i.space_time_block_code
  pub forward_error_correction_coding : IsU32 i.forward_error_correction_coding
  pub short_guide_interval : IsU32 i.short_guide_interval
  pub noise_floor : IsI32 i.noise_floor
  pub ampdu_count : IsU32 i.ampdu_count
  pub channel : IsU32 i.channel
  pub secondary_channel : IsU32 i.secondary_channel
  pub rx_state : IsU32 i.rx_state
  pub signal_length : IsU32 i.signal_length

-- What a packet must be to stand for the captured frame.
pub record Carries (i : WifiCsiInfo) (p : CsiDataPacket) : Type 0 where
  pub valid : IsPacket p
  pub payload : p.csi_data ≡ i.buf
  pub len : p.csi_data_len ≡ length i.buf
  pub source : p.mac ≡ i.mac
  pub sequence : p.sequence_number ≡ i.rx_sequence
  pub format :
      p.data_format
      ≡ fmt_from_params i.secondary_channel i.packet_mode i.cwb i.space_time_block_code

module _ (i : WifiCsiInfo) (v : IsInfo i) (h : length i.buf ≤ csi_capacity) where
  built-IsPacket : IsPacket (csi_fmt_from_params (packet_of i))
  unfolding csi_fmt_from_params packet_of
  built-IsPacket = record {
    mac = v.mac;
    rssi = v.rssi;
    timestamp = omega arith;
    rate = v.rate;
    sgi = v.short_guide_interval;
    secondary_channel = v.secondary_channel;
    channel = v.channel;
    bandwidth = v.cwb;
    antenna = v.antenna;
    sig_mode = v.packet_mode;
    mcs = v.modulation_coding_scheme;
    smoothing = v.smoothing;
    not_sounding = v.not_sounding;
    aggregation = v.aggregation;
    stbc = v.space_time_block_code;
    fec_coding = v.forward_error_correction_coding;
    ampdu_cnt = v.ampdu_count;
    noise_floor = v.noise_floor;
    rx_state = v.rx_state;
    sig_len = v.signal_length;
    sequence_number = v.rx_sequence;
    csi_data_len = omega arith;
    fits = h;
    samples = v.samples;
  }

  built-Carries : Carries i (csi_fmt_from_params (packet_of i))
  unfolding csi_fmt_from_params packet_of fmt_from_params
  built-Carries = record {
    valid = built-IsPacket;
    payload = refl;
    len = omega arith;
    source = refl;
    sequence = refl;
    format = refl;
  }

  from_fits : from_wifi_csi_info i ≡ some (csi_fmt_from_params (packet_of i))
  unfolding from_wifi_csi_info
  from_fits = ground arith

-- A captured frame becomes a packet exactly when its payload fits the vector; the packet is then
-- well-formed, with the frame's payload, true length, source and sequence number,
-- and the format that its parameters give.
pub from_wifi_csi_info_lem :
    (i : WifiCsiInfo)
    → IsInfo i
    → (length i.buf ≤ csi_capacity
        → (p : CsiDataPacket) × (from_wifi_csi_info i ≡ some p) × Carries i p)
      × (csi_capacity < length i.buf → from_wifi_csi_info i ≡ none)
unfolding from_wifi_csi_info
from_wifi_csi_info_lem i v =
    (λ h. (_, from_fits i v h, built-Carries i v h), λ h. rw (lt→ltb _ _ h))
