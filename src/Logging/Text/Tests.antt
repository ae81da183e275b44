-- ===== src/Logging/Text/Tests.antt =====
-- The text formatter at a sample packet, and its stream in a small scratch.
use esp_csi_rs_core.Common.{
  ℕ, ◌≡◌, refl, List, [], ◌∷◌, ◌++◌, some, replicate, length-replicate, ◌>>=◌,
}
use esp_csi_rs_core.Common.Int.{pos, negsuc}
use esp_csi_rs_core.Csi.Samples.{sample_packet, sample_packet-IsPacket}
use esp_csi_rs_core.Logging.Encode.{put, write_slice}
use esp_csi_rs_core.Logging.ArrayList.Pieces.{join_pieces}
use esp_csi_rs_core.Logging.Text.{stream_samples, write_text_packet_async}
use esp_csi_rs_core.Logging.Text.Lines.{metadata_text}
use esp_csi_rs_core.Logging.Text.Stream.{samples_text, write_text_packet_async-text}

abbrev scratch : List ℕ
scratch = replicate 3328 0

write_text_packet_async-text_example :
    (r : List ℕ × List (List ℕ)) × (write_text_packet_async sample_packet scratch ≡ some r)
    × (join_pieces r.1
        ≡ metadata_text sample_packet
          ++ (samples_text sample_packet.csi_data ++ (93 ∷ 13 ∷ 10 ∷ [])))
write_text_packet_async-text_example =
    write_text_packet_async-text sample_packet scratch sample_packet-IsPacket.samples
      (length-replicate {A = ℕ} 3328 0)

-- "-1, " and "27, " leave no room for "5" in eight bytes.
stream_run :
    (stream_samples (negsuc 0 ∷ pos 27 ∷ pos 5 ∷ []) (record { buf = replicate 8 0; at = 0 })
      >>= λ r. some r.1)
    ≡ some ((45 ∷ 49 ∷ 44 ∷ 32 ∷ 50 ∷ 55 ∷ 44 ∷ 32 ∷ []) ∷ (53 ∷ []) ∷ [])
unfolding stream_samples write_slice put
stream_run = refl
