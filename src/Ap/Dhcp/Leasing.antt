-- ===== src/Ap/Dhcp/Leasing.antt =====
-- What the DHCP server promises over a whole run: each client its own address, and the same again.
use mathlib.Core.List.{Memᴰ}
use mathlib.Core.Option.{some-injective, some-ne-none}
use esp_csi_rs_core.Common.{
  ℕ, ◌≡◌, ◌↔◌, refl, sym, ap, subst, ◌∙◌, Bool, true, false, List, [], ◌∷◌, ◌++◌, Option, none,
  some, replicate, All, All-append, if_cases, Option-cases, inl, inr,
}
use esp_csi_rs_core.Common.Mac.{Mac}
use esp_csi_rs_core.Ap.{
  Ipv4Addr, WifiApConfig, Clients, bound_ip, dhcp_assign_ip, ActiveLeaseRegistry, register,
}
use esp_csi_rs_core.Ap.Leases.{Exclusive, InPool, Assigned, mac_cases, dhcp_assign_ip-Assigned}
use esp_csi_rs_core.Ap.Dhcp.{
  DhcpMessageType, DhcpRepr, DhcpCodec, Receive, datagram, recv_error, stop, Server, reply_type,
  reply_to, send_reply, answer, serve, serve_all, new_server, run_dhcp_server,
}

abbrev pub Reply : Type 0
Reply = DhcpRepr × List ℕ

abbrev pub mac_of : Reply → Mac
mac_of (r, bytes) = r.client_hardware_address

abbrev pub ip_of : Reply → Ipv4Addr
ip_of (r, bytes) = r.your_ip

-- The reply names the address that its client is bound to.
abbrev Held : Clients → Reply → Type 0
Held cs r = bound_ip (mac_of r) cs ≡ some (ip_of r)

-- A table in which every binding of another stands.
abbrev Extends : Clients → Clients → Type 0
Extends cs ds = (m : Mac) (ip : Ipv4Addr) → bound_ip m cs ≡ some ip → bound_ip m ds ≡ some ip

Held-All :
    (cs ds : Clients) → Extends cs ds → (rs : List Reply) → All (Held cs) rs → All (Held ds) rs
Held-All cs ds e [] h = tt
Held-All cs ds e (r ∷ rs) (h, hs) = (e (mac_of r) (ip_of r) h, Held-All cs ds e rs hs)

Assigned-Extends :
    (m : Mac) (c : WifiApConfig) (cs ds : Clients) (ip : Ipv4Addr)
    → Assigned m c cs ds ip
    → Extends cs ds
Assigned-Extends m c cs ds ip a n old h = elim (mac_cases m n) [
  | inl e ↦
      let held : bound_ip m cs ≡ some old = ap (λ k. bound_ip k cs) e ∙ h in
      ap (λ k. bound_ip k ds) (sym e) ∙ a.bound ∙ ap some (a.stable old held)
  | inr d ↦ a.others n d ∙ h
]

module _ (codec : DhcpCodec) (c : WifiApConfig) where
  record IsServer (s : Server) : Type 0 where
    pub exclusive : Exclusive s.clients
    pub pool : (m : Mac) (ip : Ipv4Addr) → bound_ip m s.clients ≡ some ip → InPool c ip
    pub held : All (Held s.clients) s.sent

  send_reply-IsServer :
      (r : DhcpRepr) (s : Server)
      → IsServer s
      → bound_ip r.client_hardware_address s.clients ≡ some r.your_ip
      → IsServer (send_reply codec c r s)
  unfolding send_reply
  send_reply-IsServer r s v h =
      if_cases IsServer _ s _ v
        (emitted (let e : DhcpCodec = codec in e.emit r (replicate (e.buffer_len r) 0)))
    where
      emitted :
          (o : Option (List ℕ))
          → IsServer
              (elim o [ some bytes ↦ record s { sent = s.sent ++ ((r, bytes) ∷ []) } | none ↦ s ])
      emitted none = v
      emitted (some bytes) = record {
        exclusive = v.exclusive;
        pool = v.pool;
        held = All-append (Held s.clients) s.sent ((r, bytes) ∷ []) v.held (h, tt);
      }

  assigned-pool :
      (m : Mac) (s : Server) (ds : Clients) (ip : Ipv4Addr)
      → IsServer s
      → Assigned m c s.clients ds ip
      → InPool c ip
  assigned-pool m s ds ip v a = elim (Option-cases (bound_ip m s.clients)) [
    | inl free ↦ a.fresh free
    | inr (old, h) ↦ subst (InPool c) (sym (a.stable old h)) (v.pool m old h)
  ]

  Assigned-IsServer :
      (m : Mac) (s : Server) (ds : Clients) (ip : Ipv4Addr) (leases : ActiveLeaseRegistry)
      → IsServer s
      → Assigned m c s.clients ds ip
      → IsServer (record s { clients = ds; active_leases = leases })
  Assigned-IsServer m s ds ip leases v a = record {
    exclusive = a.exclusive;
    pool = λ n x h. elim (mac_cases m n) [
      | inl e ↦
          let same : ip ≡ x = some-injective ip x (sym a.bound ∙ ap (λ k. bound_ip k ds) e ∙ h) in
          subst (InPool c) same (assigned-pool m s ds ip v a)
      | inr d ↦ v.pool n x (sym (a.others n d) ∙ h)
    ];
    held = Held-All s.clients ds (Assigned-Extends m c s.clients ds ip a) s.sent v.held;
  }

  answer-IsServer :
      (kind : DhcpMessageType) (req : DhcpRepr) (s : Server)
      → IsServer s
      → IsServer (answer codec c kind req s)
  unfolding answer reply_to
  answer-IsServer kind req s v =
      assign (dhcp_assign_ip req.client_hardware_address c s.clients) refl
    where
      assign :
          (o : Option (Ipv4Addr × Clients))
          → dhcp_assign_ip req.client_hardware_address c s.clients ≡ o
          → IsServer (elim o [
            | some (ip, clients) ↦
                send_reply codec c
                  (reply_to c kind req ip)
                  (record s { clients = clients; active_leases = register ip s.active_leases })
            | none ↦ s
          ])
      assign none e = v
      assign (some (ip, ds)) e =
          let m = req.client_hardware_address in
          let a = dhcp_assign_ip-Assigned m c s.clients ds ip v.exclusive e in
          send_reply-IsServer (reply_to c kind req ip)
            (record s { clients = ds; active_leases = register ip s.active_leases })
            (Assigned-IsServer m s ds ip (register ip s.active_leases) v a) a.bound

  serve-IsServer : (bytes : List ℕ) (s : Server) → IsServer s → IsServer (serve codec c bytes s)
  unfolding serve
  serve-IsServer bytes s v = parsed (let e : DhcpCodec = codec in e.parse bytes)
    where
      typed :
          (req : DhcpRepr) (o : Option DhcpMessageType)
          → IsServer (elim o [ some kind ↦ answer codec c kind req s | none ↦ s ])
      typed req none = v
      typed req (some kind) = answer-IsServer kind req s v

      parsed :
          (o : Option DhcpRepr)
          → IsServer (elim o [
            | some req ↦ elim (reply_type req.message_type) [
              | some kind ↦ answer codec c kind req s
              | none ↦ s
            ]
            | none ↦ s
          ])
      parsed none = v
      parsed (some req) = typed req (reply_type req.message_type)

  serve_all-IsServer :
      (rs : List Receive) (s : Server) → IsServer s → IsServer (serve_all codec c rs s)
  unfolding serve_all
  serve_all-IsServer [] s v = v
  serve_all-IsServer (datagram bytes ∷ rs) s v =
      serve_all-IsServer rs (serve codec c bytes s) (serve-IsServer bytes s v)
  serve_all-IsServer (recv_error ∷ rs) s v = serve_all-IsServer rs s v
  serve_all-IsServer (stop ∷ rs) s v = record {
    exclusive = v.exclusive;
    pool = v.pool;
    held = v.held;
  }

  new_server-IsServer : (leases : ActiveLeaseRegistry) → IsServer (new_server leases)
  unfolding bound_ip
  new_server-IsServer leases = record {
    exclusive = λ m n ip h k. absurd (some-ne-none ip (sym h));
    pool = λ m ip h. absurd (some-ne-none ip (sym h));
    held = tt;
  }

  run-IsServer :
      (link_up bound : Bool) (rs : List Receive) (leases : ActiveLeaseRegistry)
      → IsServer (run_dhcp_server codec c link_up bound rs leases)
  unfolding run_dhcp_server
  run-IsServer true true rs leases =
      serve_all-IsServer rs (new_server leases) (new_server-IsServer leases)
  run-IsServer true false rs leases = new_server-IsServer leases
  run-IsServer false bound rs leases =
      let v = new_server-IsServer leases in
      record { exclusive = v.exclusive; pool = v.pool; held = v.held }

All-Memᴰ {ℓ κ} : {A : Type ℓ} (P : A → Type κ) (a : A) (xs : List A) → All P xs → Memᴰ a xs → P a
All-Memᴰ P a [] h m = elim m [ ]
All-Memᴰ P a (x ∷ xs) (p, h) (Memᴰ.head e) = subst P (sym e) p
All-Memᴰ P a (x ∷ xs) (p, h) (Memᴰ.tail m) = All-Memᴰ P a xs h m

-- Among all replies that one run of the server sends, whatever datagrams, receive errors and stops
-- come in whatever order, two replies name the same client exactly when they name the same
-- address, and every address is one of the configured pool.
pub run_dhcp_server-exclusive :
    (codec : DhcpCodec) (c : WifiApConfig) (link_up bound : Bool) (rs : List Receive)
    (leases : ActiveLeaseRegistry) (a b : Reply)
    → Memᴰ a (run_dhcp_server codec c link_up bound rs leases).sent
    → Memᴰ b (run_dhcp_server codec c link_up bound rs leases).sent
    → ((mac_of a ≡ mac_of b) ↔ (ip_of a ≡ ip_of b)) × InPool c (ip_of a)
run_dhcp_server-exclusive codec c link_up bound rs leases a b in_a in_b =
    let s = run_dhcp_server codec c link_up bound rs leases in
    let v = run-IsServer codec c link_up bound rs leases in
    let ha = All-Memᴰ (Held s.clients) a s.sent v.held in_a in
    let hb = All-Memᴰ (Held s.clients) b s.sent v.held in_b in
    (
      (
        λ e. some-injective (ip_of a) (ip_of b) (sym ha ∙ ap (λ m. bound_ip m s.clients) e ∙ hb),
        λ e. v.exclusive (mac_of a) (mac_of b) (ip_of a) ha (hb ∙ ap some (sym e)),
      ),
      v.pool (mac_of a) (ip_of a) ha,
    )
