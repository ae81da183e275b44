-- ===== src/Csi/Samples.antt =====
-- A frame and its packet, to evaluate the theorems at.
use esp_csi_rs_core.Common.{[], ◌∷◌, none, arith}
use esp_csi_rs_core.Common.Int.{pos, negsuc}
use esp_csi_rs_core.Common.Mac.{Mac, mac, IsMac}
use esp_csi_rs_core.Csi.{CsiDataPacket, WifiCsiInfo, RxCsiFmt}
use esp_csi_rs_core.Csi.Packet.{IsPacket, IsInfo}

abbrev pub sender : Mac
sender = mac 36 98 171 1 2 3

pub sender-IsMac : IsMac sender
sender-IsMac = omega arith

-- An HT frame of 20 MHz with four samples.
abbrev pub sample_info : WifiCsiInfo
sample_info = record {
  buf = pos 5 ∷ negsuc 127 ∷ pos 0 ∷ pos 127 ∷ [];
  mac = sender;
  timestamp_micros = 1234567;
  rx_sequence = 4095;
  rssi = negsuc 41;
  cwb = 0;
  antenna = 0;
  rate = 11;
  packet_mode = 1;
  modulation_coding_scheme = 7;
  smoothing = 1;
  not_sounding = 1;
  aggregation = 0;
  space_time_block_code = 0;
  forward_error_correction_coding = 0;
  short_guide_interval = 1;
  noise_floor = negsuc 94;
  ampdu_count = 0;
  channel = 6;
  secondary_channel = 0;
  rx_state = 0;
  signal_length = 90;
}

pub sample_info-IsInfo : IsInfo sample_info
sample_info-IsInfo = record {
  samples = (omega arith, (omega arith, (omega arith, (omega arith, tt))));
  mac = sender-IsMac;
  rx_sequence = omega arith;
  rssi = omega arith;
  cwb = omega arith;
  antenna = omega arith;
  rate = omega arith;
  packet_mode = omega arith;
  modulation_coding_scheme = omega arith;
  smoothing = omega arith;
  not_sounding = omega arith;
  aggregation = omega arith;
  space_time_block_code = omega arith;
  forward_error_correction_coding = omega arith;
  short_guide_interval = omega arith;
  noise_floor = omega arith;
  ampdu_count = omega arith;
  channel = omega arith;
  secondary_channel = omega arith;
  rx_state = omega arith;
  signal_length = omega arith;
}

abbrev pub sample_packet : CsiDataPacket
sample_packet = record {
  mac = sender;
  rssi = negsuc 41;
  timestamp = 1234567;
  rate = 11;
  sgi = 1;
  secondary_channel = 0;
  channel = 6;
  bandwidth = 0;
  antenna = 0;
  sig_mode = 1;
  mcs = 7;
  smoothing = 1;
  not_sounding = 1;
  aggregation = 0;
  stbc = 0;
  fec_coding = 0;
  ampdu_cnt = 0;
  noise_floor = negsuc 94;
  rx_state = 0;
  sig_len = 90;
  date_time = none;
  sequence_number = 4095;
  data_format = RxCsiFmt.undefined;
  csi_data_len = 4;
  csi_data = pos 5 ∷ negsuc 127 ∷ pos 0 ∷ pos 127 ∷ [];
}

pub sample_packet-IsPacket : IsPacket sample_packet
sample_packet-IsPacket = record {
  mac = sender-IsMac;
  rssi = omega arith;
  timestamp = omega arith;
  rate = omega arith;
  sgi = omega arith;
  secondary_channel = omega arith;
  channel = omega arith;
  bandwidth = omega arith;
  antenna = omega arith;
  sig_mode = omega arith;
  mcs = omega arith;
  smoothing = omega arith;
  not_sounding = omega arith;
  aggregation = omega arith;
  stbc = omega arith;
  fec_coding = omega arith;
  ampdu_cnt = omega arith;
  noise_floor = omega arith;
  rx_state = omega arith;
  sig_len = omega arith;
  sequence_number = omega arith;
  csi_data_len = omega arith;
  fits = omega arith;
  samples = (omega arith, (omega arith, (omega arith, (omega arith, tt))));
}
