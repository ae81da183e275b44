-- ===== src/Ap/Dhcp.antt =====
-- `run_dhcp_server` of lib/collector/ap.rs. The codec of smoltcp is a parameter, and so is what the
-- network stack does: whether the link comes up before a stop, whether the socket can be bound, and
-- what its receives end with.
pub mod Leasing
mod Tests
use esp_csi_rs_core.Common.{
  ℕ, Bool, true, false, List, [], ◌∷◌, ◌++◌, Option, none, some, ltb, if◌then◌else◌, replicate,
}
use esp_csi_rs_core.Common.Mac.{Mac}
use esp_csi_rs_core.Ap.{
  Ipv4Addr, ipv4, WifiApConfig, Clients, no_clients, dhcp_assign_ip, ActiveLeaseRegistry, register,
}

pub data DhcpMessageType : Type 0 where
  discover offer request decline ack nak release inform : DhcpMessageType
  unknown : ℕ → DhcpMessageType

-- `DhcpRepr` of smoltcp, but for what every reply leaves empty: the relay's address, and the
-- options that are `None` or an empty slice.
pub record DhcpRepr : Type 0 where
  pub message_type : DhcpMessageType
  pub transaction_id : ℕ
  pub secs : ℕ
  pub client_hardware_address : Mac
  pub client_ip : Ipv4Addr
  pub your_ip : Ipv4Addr
  pub server_ip : Ipv4Addr
  pub router : Option Ipv4Addr
  pub subnet_mask : Option Ipv4Addr
  pub broadcast : Bool
  pub requested_ip : Option Ipv4Addr
  pub server_identifier : Option Ipv4Addr
  pub lease_duration : Option ℕ

-- `parse` is `DhcpPacket::new_checked` with `DhcpRepr::parse`; `emit` writes into a zeroed buffer.
pub record DhcpCodec : Type 0 where
  pub parse : List ℕ → Option DhcpRepr
  pub buffer_len : DhcpRepr → ℕ
  pub emit : DhcpRepr → List ℕ → Option (List ℕ)

-- What a receive ends with.
pub data Receive : Type 0 where
  datagram : List ℕ → Receive
  recv_error stop : Receive

-- The task's table of clients, the static registry, the stop signal, and what was sent to the
-- client port of the broadcast address: each reply with its bytes.
pub record Server : Type 0 where
  pub clients : Clients
  pub active_leases : ActiveLeaseRegistry
  pub stop_signal : Bool
  pub sent : List (DhcpRepr × List ℕ)

-- The type of the reply, if there is one.
unfoldable pub reply_type : DhcpMessageType → Option DhcpMessageType
reply_type discover = some offer
reply_type request = some ack
reply_type offer = none
reply_type decline = none
reply_type ack = none
reply_type nak = none
reply_type release = none
reply_type inform = none
reply_type (unknown n) = none

unfoldable pub reply_to : WifiApConfig → DhcpMessageType → DhcpRepr → Ipv4Addr → DhcpRepr
reply_to c kind req ip = record {
  message_type = kind;
  transaction_id = req.transaction_id;
  secs = 0;
  client_hardware_address = req.client_hardware_address;
  client_ip = ipv4 0 0 0 0;
  your_ip = ip;
  server_ip = c.ap_ipv4;
  router = some c.ap_ipv4;
  subnet_mask = some (ipv4 255 255 255 0);
  broadcast = true;
  requested_ip = none;
  server_identifier = some c.ap_ipv4;
  lease_duration = some 3600;
}

abbrev pub new_server : ActiveLeaseRegistry → Server
new_server leases = record {
  clients = no_clients;
  active_leases = leases;
  stop_signal = false;
  sent = [];
}

module _ (codec : DhcpCodec) (c : WifiApConfig) where
  open codec use {parse, buffer_len, emit}

  -- From the length of the reply on: it is sent where it fits the buffer and can be emitted.
  unfoldable pub send_reply : DhcpRepr → Server → Server
  send_reply reply s =
      if ltb 600 (buffer_len reply) then s else elim (emit reply (replicate (buffer_len reply) 0)) [
        | some bytes ↦ record s { sent = s.sent ++ ((reply, bytes) ∷ []) }
        | none ↦ s
      ]

  -- A request with the type of its reply.
  unfoldable pub answer : DhcpMessageType → DhcpRepr → Server → Server
  unfolding dhcp_assign_ip register reply_to send_reply
  answer kind req s = elim (dhcp_assign_ip req.client_hardware_address c s.clients) [
    | some (ip, clients) ↦
        send_reply (reply_to c kind req ip)
          (record s { clients = clients; active_leases = register ip s.active_leases })
    | none ↦ s
  ]

  -- The body of the loop behind a receive.
  unfoldable pub serve : List ℕ → Server → Server
  unfolding reply_type answer
  serve bytes s = elim (parse bytes) [
    | some req ↦ elim (reply_type req.message_type) [ some kind ↦ answer kind req s | none ↦ s ]
    | none ↦ s
  ]

  unfoldable pub serve_all : List Receive → Server → Server
  unfolding serve
  serve_all [] s = s
  serve_all (datagram bytes ∷ rs) s = serve_all rs (serve bytes s)
  serve_all (recv_error ∷ rs) s = serve_all rs s
  serve_all (stop ∷ rs) s = record s { stop_signal = true }

  -- The whole task: `link_up` is false for a stop while it waits for the link.
  unfoldable pub run_dhcp_server : Bool → Bool → List Receive → ActiveLeaseRegistry → Server
  unfolding serve_all
  run_dhcp_server link_up bound rs leases =
      if link_up
      then (if bound then serve_all rs (new_server leases) else new_server leases)
      else (let s = new_server leases in record s { stop_signal = true })
