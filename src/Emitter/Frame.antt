-- ===== src/Emitter/Frame.antt =====
-- The probe frame.
use esp_csi_rs_core.Common.{
  ℕ, ◌≤◌, ◌≡◌, refl, List, [], ◌∷◌, ◌++◌, false, arith, ltb, length, length-drop, drop, take,
}
use esp_csi_rs_core.Common.Mac.{Mac, octets}
use esp_csi_rs_core.Emitter.{build_probe_frame, probe_header, body_bytes}

-- The addresses of an 802.11 header without distribution system: destination, transmitter, BSSID.
pub record Addressed (src dst : Mac) (frame : List ℕ) : Type 0 where
  pub control : take 2 frame ≡ 8 ∷ 0 ∷ []
  pub addr1 : take 6 (drop 4 frame) ≡ octets dst
  pub addr2 : take 6 (drop 10 frame) ≡ octets src
  pub addr3 : take 6 (drop 16 frame) ≡ octets src
  pub sequence : take 2 (drop 22 frame) ≡ 0 ∷ 0 ∷ []

-- `build_probe_frame` writes a 32-byte data frame from the source to the destination at the start
-- of any buffer that has room for it, keeps the bytes behind it, and does not change the length.
build_probe_frame-Addressed :
    (src dst : Mac) (buf : List ℕ)
    → 32 ≤ length buf
    → (let (out, n) = build_probe_frame src dst buf in
        Addressed src dst out × (n ≡ 32) × (drop 32 out ≡ drop 32 buf) × (length out ≡ length buf))
unfolding build_probe_frame
build_probe_frame-Addressed src dst buf h =
    let e : ltb (length buf) 32 ≡ false = ground arith in
    let addressed : Addressed src dst (probe_header src dst ++ (body_bytes 0 8 ++ drop 32 buf)) =
      record { control = refl; addr1 = refl; addr2 = refl; addr3 = refl; sequence = refl } in
    rw e (addressed, refl, refl, omega (arith, length-drop 32 buf, h))
