-- ===== src/Peripheral/Responder/Silent.antt =====
-- A responder that does not receive: it owes no reply when it starts, and nothing asks for one.
use esp_csi_rs_core.Common.{
  ℕ, ◌≡◌, refl, ◌∙◌, Bool, true, false, List, [], ◌∷◌, Option, none, some, arith, if◌then◌else◌,
  Bool-cases, inl, inr,
}
use esp_csi_rs_core.Common.Mac.{Mac}
use esp_csi_rs_core.Config.{EspNowConfig}
use esp_csi_rs_core.Peripheral.{Shared, PeerTable, Diagnostics, initial, register_central_peer}
use esp_csi_rs_core.Protocol.{ControlPacket, PeripheralPacket, Postcard}
use esp_csi_rs_core.Peripheral.Responder.{
  Responder, Round, reply_pending, tx_burst, last_wait, round, rounds, responder_start,
}

module _ {E R : Type 0} (peers : PeerTable E) (controls : Postcard ControlPacket)
    (hellos : Postcard PeripheralPacket) (config : EspNowConfig R) where
  register-pending_flag :
      (m : Mac) (s : Shared E)
      → (register_central_peer peers controls m s).1.pending_flag ≡ s.pending_flag
  unfolding register_central_peer
  register-pending_flag m s = ground arith

  pub start-pending_flag :
      (frequency_hz : ℕ) (rx_enabled tx_enabled is_collector raw_listen : Bool) (d : Diagnostics)
      (now : ℕ) (e : E) (tx_count : ℕ)
      → (responder_start peers controls hellos config frequency_hz rx_enabled tx_enabled
          is_collector raw_listen d now e tx_count).shared.pending_flag
        ≡ false
  unfolding responder_start initial
  start-pending_flag frequency_hz rx_enabled tx_enabled is_collector raw_listen d now e tx_count =
      configured config.peer_mac (initial config.peer_mac is_collector raw_listen d e) refl
    where
      configured :
          (o : Option Mac) (s : Shared E)
          → s.pending_flag ≡ false
          → (let u : Shared E = elim o [
            | some m ↦ if tx_enabled then (register_central_peer peers controls m s).1 else s
            | none ↦ s
          ] in
              u.pending_flag)
            ≡ false
      configured none s f = f
      configured (some m) s f = elim (Bool-cases tx_enabled) [
        | inl g ↦ rw g (register-pending_flag m s ∙ f)
        | inr g ↦ rw g f
      ]

  silent_round :
      (r : Round) (t : Responder E)
      → t.shared.pending_flag ≡ false
      → (let u = (round peers controls hellos config false true r t).0 in
          (u.sent ≡ t.sent) × (u.shared.pending_flag ≡ false))
  unfolding round tx_burst last_wait reply_pending
  silent_round r t h = ground arith

  silent_rounds :
      (rs : List Round) (t : Responder E)
      → t.shared.pending_flag ≡ false
      → (rounds peers controls hellos config false true rs t).sent ≡ t.sent
  unfolding rounds
  silent_rounds [] t h = refl
  silent_rounds (r ∷ rs) t h =
      let p = round peers controls hellos config false true r t in
      let (same, still) = silent_round r t h in
      elim (Bool-cases p.1) [ inl g ↦ rw g (silent_rounds rs p.0 still ∙ same) | inr g ↦ rw g same ]

  -- A responder that sends and does not receive never sends a reply, at whatever frequency and in
  -- either pairing mode, however long it runs.
  pub rounds-sent :
      (frequency_hz : ℕ) (is_collector raw_listen : Bool) (d : Diagnostics) (now : ℕ) (e : E)
      (tx_count : ℕ) (rs : List Round)
      → (rounds peers controls hellos config false true rs (
          responder_start peers controls hellos config frequency_hz false true is_collector
            raw_listen d now e tx_count)).sent
        ≡ []
  unfolding responder_start
  rounds-sent frequency_hz is_collector raw_listen d now e tx_count rs =
      silent_rounds rs
        (responder_start peers controls hellos config frequency_hz false true is_collector
          raw_listen d now e tx_count)
        (start-pending_flag frequency_hz false true is_collector raw_listen d now e tx_count)
