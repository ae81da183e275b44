-- ===== src/Ap/Dhcp/Tests.antt =====
-- The DHCP server with a toy codec of two bytes: the type of the message and the last byte of the
-- hardware address.
use mathlib.Core.List.{Memᴰ}
use esp_csi_rs_core.Common.{
  ℕ, ◌≡◌, ◌↔◌, refl, sym, subst, true, false, List, [], ◌∷◌, Option, none, some, ◌==◌,
  if◌then◌else◌,
}
use esp_csi_rs_core.Common.Mac.{mac, mac_eq}
use esp_csi_rs_core.Ap.{
  ipv4, ip_eq, WifiApConfig, new_registry, register, holds, dhcp_assign_ip, bound_ip, assign_from,
  lease_ip_at, taken, fill_slot,
}
use esp_csi_rs_core.Ap.Leases.{InPool}
use esp_csi_rs_core.Ap.Dhcp.{
  DhcpMessageType, discover, request, inform, DhcpRepr, DhcpCodec, Receive, datagram, recv_error,
  stop, reply_type, reply_to, send_reply, answer, serve, serve_all, Server, run_dhcp_server,
}
use esp_csi_rs_core.Ap.Dhcp.Leasing.{Reply, mac_of, ip_of, run_dhcp_server-exclusive}

abbrev pool_of_two : WifiApConfig
pool_of_two = record {
  channel = 6;
  secondary_channel = none;
  ap_ipv4 = ipv4 192 168 13 1;
  lease_ipv4 = ipv4 192 168 13 2;
  lease_count = 2;
  serve_dhcp = true;
  sync_burst = false;
}

abbrev request_of : ℕ → ℕ → DhcpRepr
request_of kind last = record {
  message_type = if kind == 1 then discover else if kind == 3 then request else inform;
  transaction_id = 77;
  secs = 0;
  client_hardware_address = mac 2 0 0 0 0 last;
  client_ip = ipv4 0 0 0 0;
  your_ip = ipv4 0 0 0 0;
  server_ip = ipv4 0 0 0 0;
  router = none;
  subnet_mask = none;
  broadcast = false;
  requested_ip = none;
  server_identifier = none;
  lease_duration = none;
}

abbrev parse_pair : List ℕ → Option DhcpRepr
parse_pair (kind ∷ last ∷ []) = some (request_of kind last)
parse_pair bytes = none

abbrev toy : DhcpCodec
toy = record { parse = parse_pair; buffer_len = λ r. 4; emit = λ r zeroed. some zeroed }

-- Two clients discover and request, a third finds the pool full, and noise is ignored.
abbrev traffic : List Receive
traffic =
    datagram (1 ∷ 10 ∷ [])
    ∷ recv_error
    ∷ datagram (1 ∷ 11 ∷ [])
    ∷ datagram (9 ∷ [])
    ∷ datagram (3 ∷ 10 ∷ [])
    ∷ datagram (1 ∷ 12 ∷ [])
    ∷ datagram (8 ∷ 11 ∷ [])
    ∷ datagram (3 ∷ 11 ∷ [])
    ∷ stop
    ∷ datagram (1 ∷ 10 ∷ [])
    ∷ []

abbrev served : Server
served = run_dhcp_server toy pool_of_two true true traffic new_registry

abbrev replies : List Reply
replies =
    (
      reply_to pool_of_two DhcpMessageType.offer (request_of 1 10) (ipv4 192 168 13 2),
      0 ∷ 0 ∷ 0 ∷ 0 ∷ [],
    )
    ∷ (
      reply_to pool_of_two DhcpMessageType.offer (request_of 1 11) (ipv4 192 168 13 3),
      0 ∷ 0 ∷ 0 ∷ 0 ∷ [],
    )
    ∷ (
      reply_to pool_of_two DhcpMessageType.ack (request_of 3 10) (ipv4 192 168 13 2),
      0 ∷ 0 ∷ 0 ∷ 0 ∷ [],
    )
    ∷ (
      reply_to pool_of_two DhcpMessageType.ack (request_of 3 11) (ipv4 192 168 13 3),
      0 ∷ 0 ∷ 0 ∷ 0 ∷ [],
    )
    ∷ []

served_run : served.sent ≡ replies
unfolding run_dhcp_server serve_all serve answer send_reply reply_type reply_to dhcp_assign_ip
    bound_ip assign_from lease_ip_at taken fill_slot mac_eq ip_eq register holds
served_run = refl

abbrev offer_to_ten : Reply
offer_to_ten = (
  reply_to pool_of_two DhcpMessageType.offer (request_of 1 10) (ipv4 192 168 13 2),
  0 ∷ 0 ∷ 0 ∷ 0 ∷ [],
)

abbrev ack_to_eleven : Reply
ack_to_eleven = (
  reply_to pool_of_two DhcpMessageType.ack (request_of 3 11) (ipv4 192 168 13 3),
  0 ∷ 0 ∷ 0 ∷ 0 ∷ [],
)

first_sent : Memᴰ offer_to_ten served.sent
first_sent = subst (Memᴰ offer_to_ten) (sym served_run) (Memᴰ.head refl)

last_sent : Memᴰ ack_to_eleven served.sent
last_sent =
    subst (Memᴰ ack_to_eleven) (sym served_run) (Memᴰ.tail (Memᴰ.tail (Memᴰ.tail (Memᴰ.head refl))))

run_dhcp_server-exclusive_example :
    ((mac_of offer_to_ten ≡ mac_of ack_to_eleven) ↔ (ip_of offer_to_ten ≡ ip_of ack_to_eleven))
    × InPool pool_of_two (ip_of offer_to_ten)
run_dhcp_server-exclusive_example =
    run_dhcp_server-exclusive toy pool_of_two true true traffic new_registry offer_to_ten
      ack_to_eleven first_sent last_sent
