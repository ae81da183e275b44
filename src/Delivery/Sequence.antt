-- ===== src/Delivery/Sequence.antt =====
-- Losses guessed from 802.11 sequence numbers, which run modulo 4096.
use esp_csi_rs_core.Common.{
  ℕ, ◌+◌, ◌-◌, ◌%◌, ◌^◌, ◌<◌, ◌≡◌, refl, ◌∙◌, true, false, List, [], ◌∷◌, some, arith, All,
  Option-cases, inl, inr,
}
use esp_csi_rs_core.Common.Bits.{bit_and-4095}
use esp_csi_rs_core.Common.Mac.{Mac}
use esp_csi_rs_core.Containers.{BoundedQueue, BoundedMap}
use esp_csi_rs_core.Csi.{CsiDataPacket}
use esp_csi_rs_core.Stats.{add_rx_drops}
use esp_csi_rs_core.Delivery.{
  Delivery, seq_diff, lost_frames, insert_or_clear, tracker_at_entry, track_sequence,
}

-- The number of frames between two captures of one sender, the second included, is what
-- `seq_diff` finds for the numbers modulo 4096, also over the wrap-around.
pub seq_diff_lem :
    (last gap : ℕ) → last < 4096 → gap < 4096 → seq_diff ((last + gap) % 4096) last ≡ gap
unfolding seq_diff
seq_diff_lem last gap h k =
    bit_and-4095 (((last + gap) % 4096 + 65536 - last) % 65536) ∙ omega arith

-- A sender's next captured frame after `last`, with `lost` frames missed before it.
abbrev pub next_seq : ℕ → ℕ → ℕ
next_seq last lost = (last + (lost + 1)) % 4096

lost_frames_lem :
    (last lost : ℕ) → last < 4096 → lost < 500 → lost_frames (next_seq last lost) (some last) ≡ lost
unfolding lost_frames
lost_frames_lem last lost h k = ground (arith, seq_diff_lem last (lost + 1) h (omega arith))

abbrev pub total : List ℕ → ℕ
total [] = 0
total (n ∷ ns) = n + total ns

abbrev pub last_seq : ℕ → List ℕ → ℕ
last_seq last [] = last
last_seq last (lost ∷ ls) = last_seq (next_seq last lost) ls

module _ {Q M L : Type 0} (queue : BoundedQueue CsiDataPacket Q) (peers : BoundedMap Mac ℕ M)
    (channel : BoundedQueue CsiDataPacket L) where
  open peers use {empty, get, insert, insert_empty, get_insert}

  -- The packets of one sender, like `p`, one for each number of frames missed before it.
  unfoldable pub track_run : CsiDataPacket → ℕ → List ℕ → Delivery Q M L → Delivery Q M L
  track_run p last [] d = d
  track_run p last (lost ∷ ls) d =
      track_run p (next_seq last lost) ls
        (track_sequence queue peers channel (record p { sequence_number = next_seq last lost }) d)

  -- The tracker knows the sender's last number, and no reset is waiting.
  pub record Tracks (m : Mac) (last : ℕ) (d : Delivery Q M L) : Type 0 where
    pub enabled : d.stats.seq_drop_detection_enabled ≡ true
    pub no_reset : d.stats.reset_seq_tracker ≡ false
    pub held : get m d.peer_seq_tracker ≡ some last

  -- The sender's number is recorded, also where the map was full.
  get-insert_or_clear :
      (m : Mac) (n : ℕ) (t : M) → get m (insert_or_clear queue peers channel m n t) ≡ some n
  unfolding insert_or_clear
  get-insert_or_clear m n t = elim (Option-cases (insert m n t)) [
    | inr (r, e) ↦ rw (insert_or_clear, e) (get_insert m n t r e)
    | inl e ↦ let (r, f) = insert_empty m n in rw (insert_or_clear, e, f) (get_insert m n empty r f)
  ]

  track_one :
      (p : CsiDataPacket) (last lost : ℕ) (d : Delivery Q M L)
      → last < 4096
      → lost < 500
      → Tracks p.mac last d
      → (let e =
            track_sequence queue peers channel
              (record p { sequence_number = next_seq last lost })
              d in
          Tracks p.mac (next_seq last lost) e
          × (e.stats.rx_drop_count ≡ (d.stats.rx_drop_count + lost) % 2 ^ 32))
  unfolding track_sequence tracker_at_entry add_rx_drops
  track_one p last lost d h k t =
      rw (t.enabled, t.no_reset, t.held, lost_frames_lem last lost h k)
        (
          record {
            enabled = refl;
            no_reset = refl;
            held = get-insert_or_clear p.mac (next_seq last lost) d.peer_seq_tracker;
          },
          refl,
        )

  -- Captured frames of one sender, each after up to 499 missed ones, add exactly the missed frames
  -- to the drop count, across the wrap-around of the numbers, and leave the last number in the
  -- tracker.
  pub track_run_lem :
      (p : CsiDataPacket) (last : ℕ) (losses : List ℕ) (d : Delivery Q M L)
      → last < 4096
      → All (λ n. n < 500) losses
      → Tracks p.mac last d
      → (let e = track_run p last losses d in
          Tracks p.mac (last_seq last losses) e
          × (e.stats.rx_drop_count % 2 ^ 32 ≡ (d.stats.rx_drop_count + total losses) % 2 ^ 32))
  unfolding track_run
  track_run_lem p last [] d h a t = (t, omega arith)
  track_run_lem p last (lost ∷ ls) d h (k, a) t =
      let (u, counted) = track_one p last lost d h k t in
      let (v, rest) =
        track_run_lem p (next_seq last lost) ls
          (track_sequence queue peers channel (record p { sequence_number = next_seq last lost }) d)
          (omega arith) a u in
      (v, omega arith)
