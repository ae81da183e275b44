-- ===== src/FastEspNow/Pairing.antt =====
-- How the collector and the source find each other, and what a flood frame is taken for.
use mathlib.Core.Option.{some-injective, some-ne-none}
use esp_csi_rs_core.Common.{
  ℕ, ◌+◌, ◌%◌, ◌^◌, ◌<◌, ◌≡◌, refl, sym, ap, ◌∙◌, Bool, true, false, List, [], ◌∷◌, ◌++◌, none,
  some, arith, leb, ◌&&◌, if◌then◌else◌, if_cases, append-nil, All, subst,
}
use esp_csi_rs_core.Common.Mac.{Mac}
use esp_csi_rs_core.Config.{EspNowConfig}
use esp_csi_rs_core.Radio.{WifiPhyRate}
use esp_csi_rs_core.Peripheral.Responder.{broadcast_address}
use esp_csi_rs_core.Peripheral.{PoolFrame}
use esp_csi_rs_core.Protocol.{
  ControlPacket, PeripheralPacket, peripheral_packet, Postcard, Serialized, frame, failed, panicked,
  serialize_with_magic, parse_with_magic, central_magic_number, peripheral_magic_number,
}
use esp_csi_rs_core.Protocol.Framing.{
  parse_with_magic-serialize_with_magic, serialize_with_magic-frame,
}
use esp_csi_rs_core.FastEspNow.{
  Wake, stop, deadline, received, Round, Collector, control, send_beacon, beacon, is_source,
  on_wake, discover, locked, search_collector, send, hello_calls, flood_frame,
}

-- A frame with its sender.
abbrev pub from : Mac → List ℕ → PoolFrame
from m bytes = record { src_address = m; payload = bytes }

module _ {T : Type 0} (postcard : Postcard T) where
  reads_back :
      (p : T) (magic room : ℕ) (b : List ℕ)
      → magic < 4294967296
      → serialize_with_magic postcard p magic true room ≡ frame b
      → parse_with_magic postcard b magic true ≡ some p
  reads_back p magic room b h e =
      let (_, r) =
        parse_with_magic-serialize_with_magic postcard p magic true room b [] (omega arith) e in
      ap (λ l. parse_with_magic postcard l magic true) (sym (append-nil b)) ∙ r

module _ (controls : Postcard ControlPacket) (hellos : Postcard PeripheralPacket) where
  -- What a searching source and a searching collector pass over.
  abbrev pub Unheard : Wake → Type 0
  Unheard stop = ⊥
  Unheard deadline = Unit
  Unheard (received r) = parse_with_magic controls r.payload central_magic_number true ≡ none

  abbrev pub Quiet : Wake → Type 0
  Quiet stop = ⊥
  Quiet deadline = Unit
  Quiet (received r) = is_source controls hellos none r ≡ false

  search_finds :
      (ws rest : List Wake) (r : PoolFrame) (p : ControlPacket)
      → All Unheard ws
      → parse_with_magic controls r.payload central_magic_number true ≡ some p
      → search_collector controls hellos (ws ++ (received r ∷ rest)) ≡ locked r.src_address
  unfolding search_collector
  search_finds [] rest r p h e = rw (search_collector, e) refl
  search_finds (stop ∷ ws) rest r p (h, hs) e = absurd h
  search_finds (deadline ∷ ws) rest r p (h, hs) e = search_finds ws rest r p hs e
  search_finds (received s ∷ ws) rest r p (h, hs) e =
      rw (search_collector, h) (search_finds ws rest r p hs e)

  beacon-detected_src :
      (tx_enabled send_magic : Bool) (now later : ℕ) (c : Collector)
      → (beacon controls hellos tx_enabled send_magic now later c).detected_src ≡ c.detected_src
  unfolding beacon send_beacon
  beacon-detected_src tx_enabled send_magic now later c =
      if_cases (λ (d : Collector). d.detected_src ≡ c.detected_src)
        (tx_enabled && leb c.beacon_at now) _ c
        (sends (
          serialize_with_magic controls (control true c.beacon_seq) central_magic_number send_magic
            16))
        refl
    where
      sends :
          (o : Serialized)
          → (let d : Collector = elim o [
            | frame bytes ↦ record c {
              sent = c.sent ++ ((broadcast_address, bytes) ∷ []);
              tx_count = (c.tx_count + 1) % 2 ^ 64;
              beacon_seq = (c.beacon_seq + 1) % 2 ^ 32;
            }
            | failed ↦ c
            | panicked ↦ c
          ] in
              d.detected_src)
            ≡ c.detected_src
      sends (frame bytes) = refl
      sends failed = refl
      sends panicked = refl

  abbrev AllQuiet : List Round → Type 0
  AllQuiet rs = All (λ r. Quiet r.wake) rs

  Quiet-on_wake :
      (w : Wake) (d : Collector) → Quiet w → on_wake controls hellos none w d ≡ (d, true)
  unfolding on_wake
  Quiet-on_wake stop d h = absurd h
  Quiet-on_wake deadline d h = refl
  Quiet-on_wake (received r) d h = rw (on_wake, h) refl

  -- The round's beacon, in auto pairing.
  abbrev beaconed : Bool → Round → Collector → Collector
  beaconed tx_enabled r c = beacon controls hellos tx_enabled true r.now r.later c

  Quiet-round :
      (tx_enabled : Bool) (r : Round) (rs : List Round) (c : Collector)
      → Quiet r.wake
      → discover controls hellos tx_enabled none (r ∷ rs) c
        ≡ discover controls hellos tx_enabled none rs (beaconed tx_enabled r c)
  unfolding discover
  Quiet-round tx_enabled r rs c h =
      ap
        (λ o.
          let (d, goes_on) = o in
          let rest = discover controls hellos tx_enabled none rs d in if goes_on then rest else d)
        (Quiet-on_wake r.wake (beaconed tx_enabled r c) h)

  heard :
      (s : PoolFrame) (d : Collector)
      → is_source controls hellos none s ≡ true
      → on_wake controls hellos none (received s) d
        ≡ (record d { detected_src = some s.src_address }, false)
  unfolding on_wake
  heard s d h = rw (on_wake, h) refl

  discover_finds :
      (tx_enabled : Bool) (rs rest : List Round) (now later : ℕ) (s : PoolFrame) (c : Collector)
      → AllQuiet rs
      → is_source controls hellos none s ≡ true
      → (let d : Collector =
            discover controls hellos tx_enabled none
              (rs ++ (record { now = now; later = later; wake = received s } ∷ rest))
              c in
          d.detected_src)
        ≡ some s.src_address
  unfolding discover
  discover_finds tx_enabled [] rest now later s c h e =
      let r : Round = record { now = now; later = later; wake = received s } in
      ap
        (λ o.
          let (d, goes_on) = o in
          let x = discover controls hellos tx_enabled none rest d in
          let f : Collector = if goes_on then x else d in f.detected_src)
        (heard s (beaconed tx_enabled r c) e)
  discover_finds tx_enabled (r ∷ rs) rest now later s c (h, hs) e =
      ap (λ (d : Collector). d.detected_src)
        (Quiet-round tx_enabled r
          (rs ++ (record { now = now; later = later; wake = received s } ∷ rest)) c h)
      ∙ discover_finds tx_enabled rs rest now later s (beaconed tx_enabled r c) hs e

  discover_keeps :
      (tx_enabled : Bool) (rs : List Round) (c : Collector)
      → AllQuiet rs
      → (discover controls hellos tx_enabled none rs c).detected_src ≡ c.detected_src
  unfolding discover
  discover_keeps tx_enabled [] c h = refl
  discover_keeps tx_enabled (r ∷ rs) c (h, hs) =
      ap (λ (d : Collector). d.detected_src) (Quiet-round tx_enabled r rs c h)
      ∙ discover_keeps tx_enabled rs (beaconed tx_enabled r c) hs
      ∙ beacon-detected_src tx_enabled true r.now r.later c

  -- A hello is a hello, whoever it comes from.
  hello_heard :
      (h : List ℕ) (m : Mac)
      → serialize_with_magic hellos peripheral_packet peripheral_magic_number true 8 ≡ frame h
      → is_source controls hellos none (from m h) ≡ true
  unfolding is_source
  hello_heard h m e =
      rw
        (is_source, reads_back hellos peripheral_packet peripheral_magic_number 8 h (omega arith) e)
        refl

  -- A frame of a central is no hello.
  central_unheard :
      (p : ControlPacket) (b : List ℕ) (m : Mac)
      → serialize_with_magic controls p central_magic_number true 16 ≡ frame b
      → is_source controls hellos none (from m b) ≡ false
  unfolding is_source parse_with_magic
  central_unheard p b m e =
      let (body, f) = serialize_with_magic-frame controls p central_magic_number 16 b e in
      ap (λ l. is_source controls hellos none (from m l)) f

  -- In auto pairing, where the beacon and the hello fit their buffers: the beacon that a collector
  -- broadcasts makes a source that searches lock on that collector, whatever timers and frames that
  -- do not parse as a beacon come first and whatever follows; the source then sends it one hello;
  -- and that hello makes a collector that searches detect that source, behind any timers and
  -- frames that are no hello, whatever it broadcast before.
  pub search_collector-discover :
      {R : Type 0} (rates : WifiPhyRate R) (config : EspNowConfig R) (collector source : Mac)
      (b h : List ℕ) (ws later_ws : List Wake) (tx_enabled : Bool) (rs later_rs : List Round)
      (now later : ℕ) (c : Collector)
      → config.peer_mac ≡ none
      → serialize_with_magic controls (control true c.beacon_seq) central_magic_number true 16
        ≡ frame b
      → serialize_with_magic hellos peripheral_packet peripheral_magic_number true 8 ≡ frame h
      → All Unheard ws
      → All (λ r. Quiet r.wake) rs
      → ((send_beacon controls hellos true c).sent ≡ c.sent ++ ((broadcast_address, b) ∷ []))
        × (search_collector controls hellos (ws ++ (received (from collector b) ∷ later_ws))
            ≡ locked collector)
        × (hello_calls rates config controls hellos collector ≡ send collector h ∷ [])
        × ((discover controls hellos tx_enabled none
              (rs
                ++ (record { now = now; later = later; wake = received (from source h) }
                    ∷ later_rs))
              c).detected_src
            ≡ some source)
  unfolding send_beacon hello_calls
  search_collector-discover rates config collector source b h ws later_ws tx_enabled rs later_rs now
        later c auto beacons hello unheard quiet =
      (
        rw (send_beacon, beacons) refl,
        search_finds ws later_ws (from collector b) (control true c.beacon_seq) unheard (
            reads_back controls (control true c.beacon_seq) central_magic_number 16 b (omega arith)
              beacons),
        rw (hello_calls, auto, hello) refl,
        discover_finds tx_enabled rs later_rs now later (from source h) c quiet
            (hello_heard h source hello),
      )

  -- The frames of a source's flood, in auto pairing, as they come from its address.
  abbrev pub IsFlood : Mac → Wake → Type 0
  IsFlood m w =
      (n : ℕ) × (b : List ℕ) × (serialize_with_magic controls (control false n) central_magic_number
          true 16
        ≡ frame b)
      × (w ≡ received (from m b))

  flood_serialized :
      {R : Type 0} (rates : WifiPhyRate R) (config : EspNowConfig R) (n : ℕ) (b : List ℕ)
      → config.peer_mac ≡ none
      → flood_frame rates config controls hellos n ≡ some b
      → serialize_with_magic controls (control false n) central_magic_number true 16 ≡ frame b
  unfolding flood_frame
  flood_serialized rates config n b auto e =
      invert (serialize_with_magic controls (control false n) central_magic_number true 16)
        (rw auto at e)
    where
      invert :
          (s : Serialized)
          → elim s [ frame bytes ↦ some bytes | failed ↦ none | panicked ↦ none ] ≡ some b
          → s ≡ frame b
      invert (frame bytes) e = ap frame (some-injective bytes b e)
      invert failed e = absurd (some-ne-none b (sym e))
      invert panicked e = absurd (some-ne-none b (sym e))

  flood-Quiet : (m : Mac) (w : Wake) → IsFlood m w → Quiet w
  flood-Quiet m w (n, b, e, f) = subst Quiet (sym f) (central_unheard (control false n) b m e)

  flood-AllQuiet : (m : Mac) (rs : List Round) → All (λ r. IsFlood m r.wake) rs → AllQuiet rs
  flood-AllQuiet m [] h = tt
  flood-AllQuiet m (r ∷ rs) (h, hs) = (flood-Quiet m r.wake h, flood-AllQuiet m rs hs)

  -- In auto pairing a frame of a source's flood is taken for a collector's beacon, and never for a
  -- hello: another source that searches locks on the first source as its collector, and a collector
  -- that hears nothing but frames of the flood, its hello being lost, detects no source however many
  -- it hears.
  pub flood_frame-discover :
      {R : Type 0} (rates : WifiPhyRate R) (config : EspNowConfig R) (source : Mac) (n : ℕ)
      (b : List ℕ) (ws : List Wake) (tx_enabled : Bool) (rs : List Round) (c : Collector)
      → config.peer_mac ≡ none
      → flood_frame rates config controls hellos n ≡ some b
      → All (λ r. IsFlood source r.wake) rs
      → (search_collector controls hellos (received (from source b) ∷ ws) ≡ locked source)
        × ((discover controls hellos tx_enabled none rs c).detected_src ≡ c.detected_src)
  flood_frame-discover rates config source n b ws tx_enabled rs c auto e flood = (
    search_finds [] ws (from source b) (control false n) tt (
        reads_back controls (control false n) central_magic_number 16 b (omega arith)
          (flood_serialized rates config n b auto e)),
    discover_keeps tx_enabled rs c (flood-AllQuiet source rs flood),
  )
