-- ===== src/Peripheral/Ingest.antt =====
-- Which frames the responder takes: the lock on one central, and the count of missed packets.
use esp_csi_rs_core.Common.{
  ℕ, ◌+◌, ◌%◌, ◌^◌, ◌<◌, ◌≡◌, ◌≢◌, refl, sym, ap, ◌∙◌, Bool, true, false, not, List, [], ◌∷◌,
  Option, none, some, arith, Bool-cases, if_cases, inl, inr, All, length, ◌⊎◌,
}
use esp_csi_rs_core.Common.Mac.{Mac, IsMac, mac_eq, mac_eq_iff}
use esp_csi_rs_core.Peripheral.{
  Shared, PeerTable, PoolFrame, Postcard, ingest_control_packet, count_sequence, accept_packet,
  follow_mode, manage_peer, register_central_peer, u64_to_mac, mac_to_u64,
}
use esp_csi_rs_core.Peripheral.Address.{u64_to_mac-mac_to_u64}
use esp_csi_rs_core.Protocol.{ControlPacket, parse_with_magic, central_magic_number}

differs : (a b : Mac) → a ≢ b → mac_eq a b ≡ false
differs a b n = elim (Bool-cases (mac_eq a b)) [
  | inl t ↦ let (to, _) = mac_eq_iff a b in absurd (n (to t))
  | inr f ↦ f
]

module _ {E : Type 0} (peers : PeerTable E) (postcard : Postcard ControlPacket) where
  open peers use {peer_exists, add_peer}

  unfoldable pub ingest_all : Bool → Option Mac → List PoolFrame → Shared E → Shared E
  ingest_all tx_enabled peer_mac [] s = s
  ingest_all tx_enabled peer_mac (r ∷ rs) s =
      ingest_all tx_enabled peer_mac rs
        (ingest_control_packet peers postcard r tx_enabled peer_mac s)

  -- The frames of others than the central.
  abbrev pub Foreign : Shared E → PoolFrame → Type 0
  Foreign s r = u64_to_mac s.central_mac ≢ r.src_address

  abbrev pub filtered : ℕ → Shared E → Shared E
  filtered n s =
      let d = s.diagnostics in record s { diagnostics = record d { source_filter_drop = n } }

  ingest-Foreign :
      (tx_enabled : Bool) (peer_mac : Option Mac) (r : PoolFrame) (s : Shared E)
      → s.raw_listen ≡ false
      → s.is_connected ≡ true
      → Foreign s r
      → ingest_control_packet peers postcard r tx_enabled peer_mac s
        ≡ filtered ((s.diagnostics.source_filter_drop + 1) % 2 ^ 64) s
  unfolding ingest_control_packet
  ingest-Foreign tx_enabled peer_mac r s raw c f =
      let e = differs (u64_to_mac s.central_mac) r.src_address f in
      simp (ingest_control_packet, raw, c, e)

  all-Foreign :
      (m : Mac) (s : Shared E)
      → u64_to_mac s.central_mac ≡ m
      → (rs : List PoolFrame) → All (λ o. o.src_address ≢ m) rs
      → All (Foreign s) rs
  all-Foreign m s e [] others = tt
  all-Foreign m s e (r ∷ rs) (o, os) = (λ f. o (sym f ∙ e), all-Foreign m s e rs os)

  -- While a central is locked, frames of other addresses change nothing but their count.
  pub ingest_all-Foreign :
      (tx_enabled : Bool) (peer_mac : Option Mac) (rs : List PoolFrame) (s : Shared E)
      → s.raw_listen ≡ false
      → s.is_connected ≡ true
      → s.diagnostics.source_filter_drop < 2 ^ 64
      → All (Foreign s) rs
      → ingest_all tx_enabled peer_mac rs s
        ≡ filtered ((s.diagnostics.source_filter_drop + length rs) % 2 ^ 64) s
  unfolding ingest_all
  ingest_all-Foreign tx_enabled peer_mac [] s raw c l f = ap (λ n. filtered n s) (omega arith)
  ingest_all-Foreign tx_enabled peer_mac (r ∷ rs) s raw c l (f, fs) =
      let dropped = (s.diagnostics.source_filter_drop + 1) % 2 ^ 64 in
      ap (ingest_all tx_enabled peer_mac rs) (ingest-Foreign tx_enabled peer_mac r s raw c f)
      ∙ ingest_all-Foreign tx_enabled peer_mac rs (filtered dropped s) raw c (omega arith) fs
      ∙ ap (λ n. filtered n s) (omega arith)

  -- The packets of one central, each after a number of missed ones.
  unfoldable pub count_all : ControlPacket → ℕ → List ℕ → Shared E → Shared E
  count_all p last [] s = s
  count_all p last (missed ∷ ms) s =
      count_all p (last + missed + 1) ms
        (count_sequence peers postcard (record p { sequence_number = last + missed + 1 }) s)

  abbrev pub total : List ℕ → ℕ
  total [] = 0
  total (n ∷ ns) = n + total ns

  counted_one :
      (p : ControlPacket) (last missed : ℕ) (s : Shared E)
      → s.sequence_initialized ≡ true
      → s.last_control_sequence ≡ last
      → (let t =
            count_sequence peers postcard (record p { sequence_number = last + missed + 1 }) s in
          (t.diagnostics.sequence_miss ≡ (s.diagnostics.sequence_miss + missed) % 2 ^ 64)
          × (t.diagnostics.control_packet ≡ (s.diagnostics.control_packet + 1) % 2 ^ 64))
  unfolding count_sequence
  counted_one p last missed s h e = ground arith

  set_up :
      (p : ControlPacket) (n : ℕ) (s : Shared E)
      → (let t = count_sequence peers postcard (record p { sequence_number = n }) s in
          t.sequence_initialized ≡ true)
  unfolding count_sequence
  set_up p n s = refl

  follows :
      (p : ControlPacket) (n : ℕ) (s : Shared E)
      → (let t = count_sequence peers postcard (record p { sequence_number = n }) s in
          t.last_control_sequence ≡ n)
  unfolding count_sequence
  follows p n s = refl

  -- Once a first packet has set the sequence, increasing sequence numbers add exactly the packets
  -- missed between them to the misses, and their own number to the packets received.
  pub count_all_lem :
      (p : ControlPacket) (last : ℕ) (ms : List ℕ) (s : Shared E)
      → s.sequence_initialized ≡ true
      → s.last_control_sequence ≡ last
      → (let t = count_all p last ms s in
          (t.diagnostics.sequence_miss % 2 ^ 64 ≡ (s.diagnostics.sequence_miss + total ms) % 2 ^ 64)
          × (t.diagnostics.control_packet % 2 ^ 64
              ≡ (s.diagnostics.control_packet + length ms) % 2 ^ 64))
  unfolding count_all
  count_all_lem p last [] s h e = (omega arith, omega arith)
  count_all_lem p last (missed ∷ ms) s h e =
      let (m, c) = counted_one p last missed s h e in
      let (n, k) =
        count_all_lem p (last + missed + 1) ms
          (count_sequence peers postcard (record p { sequence_number = last + missed + 1 }) s)
          (set_up p (last + missed + 1) s) (follows p (last + missed + 1) s) in
      (omega (arith, m, n), omega (arith, c, k))

  follow-kept :
      (b : Bool) (s : Shared E)
      → (let t = follow_mode peers postcard b s in
          (t.is_connected ≡ s.is_connected)
          × (t.central_mac ≡ s.central_mac)
          × (t.pending_flag ≡ s.pending_flag))
  unfolding follow_mode
  follow-kept b s = ground arith

  -- The peer table has the peer, or takes it.
  abbrev pub Admits : Mac → Shared E → Type 0
  Admits m s = (peer_exists m s.esp_now ≡ true) ⊎ ((e : E) × (add_peer m s.esp_now ≡ some e))

  registered :
      (m : Mac) (s : Shared E)
      → Admits m s
      → (let (added, _) = register_central_peer peers postcard m s in added ≡ true)
  unfolding register_central_peer
  registered m s (inl h) = rw (register_central_peer, h) refl
  registered m s (inr (e, h)) = elim (Bool-cases (peer_exists m s.esp_now)) [
    | inl t ↦ rw (register_central_peer, t) refl
    | inr f ↦ rw (register_central_peer, f, h) refl
  ]

  locked :
      (src : Mac) (s : Shared E)
      → Admits src s
      → (let t = manage_peer peers postcard false src s in
          (t.is_connected ≡ true) × (t.central_mac ≡ mac_to_u64 src))
  unfolding manage_peer
  locked src s h = let e = registered src s h in ground (arith, e)

  accepted :
      (p : ControlPacket) (src : Mac) (s : Shared E)
      → Admits src s
      → (let t = accept_packet peers postcard p false src true s in
          (t.is_connected ≡ true) × (t.central_mac ≡ mac_to_u64 src) × (t.pending_flag ≡ true))
  unfolding accept_packet count_sequence
  accepted p src s h =
      let counted = count_sequence peers postcard p s in
      let (c, m) = locked src counted h in
      let managed = manage_peer peers postcard false src counted in
      let (a, b, d) = follow-kept (not p.is_collector) (record managed { pending_flag = true }) in
      (a ∙ c, b ∙ m, d)

  register-kept :
      (m : Mac) (s : Shared E)
      → (let (_, t) = register_central_peer peers postcard m s in
          (t.raw_listen ≡ s.raw_listen)
          × (t.diagnostics.source_filter_drop ≡ s.diagnostics.source_filter_drop))
  unfolding register_central_peer
  register-kept m s = ground arith

  manage-kept :
      (src : Mac) (s : Shared E)
      → (let t = manage_peer peers postcard false src s in
          (t.raw_listen ≡ s.raw_listen)
          × (t.diagnostics.source_filter_drop ≡ s.diagnostics.source_filter_drop))
  unfolding manage_peer
  manage-kept src s =
      let (added, t) = register_central_peer peers postcard src s in
      let kept = register-kept src s in
      if_cases
        (λ (u : Shared E).
          (u.raw_listen ≡ s.raw_listen)
          × (u.diagnostics.source_filter_drop ≡ s.diagnostics.source_filter_drop))
        added _ t kept kept

  follow-listens :
      (b : Bool) (s : Shared E)
      → (let t = follow_mode peers postcard b s in
          (t.raw_listen ≡ s.raw_listen)
          × (t.diagnostics.source_filter_drop ≡ s.diagnostics.source_filter_drop))
  unfolding follow_mode
  follow-listens b s = ground arith

  -- A packet that is accepted leaves the mode and the count of filtered frames.
  accept-kept :
      (p : ControlPacket) (src : Mac) (s : Shared E)
      → (let t = accept_packet peers postcard p false src true s in
          (t.raw_listen ≡ s.raw_listen)
          × (t.diagnostics.source_filter_drop ≡ s.diagnostics.source_filter_drop))
  unfolding accept_packet count_sequence
  accept-kept p src s =
      let counted = count_sequence peers postcard p s in
      let managed = manage_peer peers postcard false src counted in
      let (a, b) = follow-listens (not p.is_collector) (record managed { pending_flag = true }) in
      let (c, d) = manage-kept src counted in (a ∙ c, b ∙ d)

  -- A peripheral without a central that replies in auto-pairing mode, and is not in the raw-listen
  -- mode, locks onto the sender of the first frame that parses, if the driver takes it as a peer: it is connected and
  -- owes a reply, and any frames of other addresses that follow change nothing but
  -- their count, modulo 2^64.
  pub ingest_control_packet-locks :
      (r : PoolFrame) (p : ControlPacket) (rs : List PoolFrame) (s : Shared E)
      → s.raw_listen ≡ false
      → s.is_connected ≡ false
      → s.diagnostics.source_filter_drop < 2 ^ 64
      → IsMac r.src_address
      → parse_with_magic postcard r.payload central_magic_number true ≡ some p
      → Admits r.src_address s
      → All (λ o. o.src_address ≢ r.src_address) rs
      → (let t = ingest_control_packet peers postcard r true none s in
          (t.is_connected ≡ true)
          × (t.pending_flag ≡ true)
          × (ingest_all true none rs t
              ≡ filtered ((s.diagnostics.source_filter_drop + length rs) % 2 ^ 64) t))
  unfolding ingest_control_packet
  ingest_control_packet-locks r p rs s raw c bound v parsed h others =
      let e : ingest_control_packet peers postcard r true none s
          ≡ accept_packet peers postcard p false r.src_address true s =
        simp (ingest_control_packet, raw, c, parsed) in
      let t = accept_packet peers postcard p false r.src_address true s in
      let (connected, address, pending) = accepted p r.src_address s h in
      let (listens, count) = accept-kept p r.src_address s in
      let (decoded, _) = u64_to_mac-mac_to_u64 r.src_address v in
      rw e (
        connected,
        pending,
        ingest_all-Foreign true none rs t (listens ∙ raw) connected (omega (arith, count))
              (all-Foreign r.src_address t (ap u64_to_mac address ∙ decoded) rs others)
            ∙ ap (λ n. filtered ((n + length rs) % 2 ^ 64) t) count,
      )
