-- ===== src/Router/Primary/Stage6.antt =====
-- The handlers of `primaryRouter_s6`, and what stages 7, 9 and 10 share with it, with two secondary routers whose ports are `port1` and
-- `port2`.
use simple_sdn.Base.{
  ℕ, Bool, true, false, ◌==◌, ◌||◌, if◌then◌else◌, List, [], ◌∷◌, ◌++◌, Text, text, Buffer, take,
}
use simple_sdn.Flow.Table.{flow_check}
use simple_sdn.Packet.Unpack.{entry_of_packet, tcp_unpack}
use simple_sdn.Packet.Edit.{from_tunnel, from_udp}
use simple_sdn.Timers.Timeval.{Timeval}
use simple_sdn.Router.{Peer, Sent, udp, tunnel}
use simple_sdn.Router.Logging.{icmp_forward_log}
use simple_sdn.Router.Forward.{packet_dst_check, localhost}
use simple_sdn.Router.Handler.{Stale, Handled, goes_on, exits, non_empty, log_check}
use simple_sdn.Router.Primary.{Primary, on_ack}
use simple_sdn.Router.Primary.Packets.{own_rules, announce, announce_both}

-- The router of an ICMP packet, by the uninitialised `dstAddr`.
unfoldable pub icmp_target : Stale → ℕ → ℕ → Peer
icmp_target stale port1 port2 =
    let first = packet_dst_check stale.addr (text "10.5.51.11") 0xFFFFFFFF == 1 in
    let second = packet_dst_check stale.addr (text "10.5.51.12") 0xFFFFFFFF == 1 in
    record {
      addr = localhost;
      port = if first || second then if first then port1 else port2 else port1;
    }

-- The router of a TCP packet, by its destination port; any other port leaves the uninitialised
-- `targetAddr.sin_port`.
unfoldable pub tcp_target : Stale → ℕ → ℕ → Buffer → Peer
tcp_target stale port1 port2 b = record {
  addr = localhost;
  port =
      if tcp_unpack b == 80 then port1 else if tcp_unpack b == 443 then port2 else stale.peer.port;
}

-- The new rule's hit is logged.
unfoldable pub log_hit : Stale → Buffer → Primary → Primary
log_hit stale b p =
    let check = flow_check (entry_of_packet b stale.ports) p.router.flow_table in
    record p { router = log_check check p.router }

unfoldable pub new_icmp_flow : Timeval → Stale → ℕ → ℕ → Buffer → ℕ → Primary → Primary × List Sent
new_icmp_flow now stale port1 port2 b junk p =
    let target = icmp_target stale port1 port2 in
    let p' = record p { router = own_rules stale target b p.router } in
    let inside = packet_dst_check stale.addr (text "10.5.51.0") 0x00FFFFFF == 1 in
    let (q, sent) =
      if inside
      then announce now stale 2 target b junk p'
      else announce_both now stale (record { addr = localhost; port = port1 }) b junk p' in
    (log_hit stale b q, sent)

-- The ports whose flows get rules.
abbrev pub is_known : ℕ → Bool
is_known port = port == 80 || port == 443

-- The rules of a new TCP flow through one secondary router. A flow to another port gets no rule,
-- and the timeout is not refreshed.
unfoldable pub new_flow_to : Timeval → Stale → Peer → Buffer → ℕ → Primary → Primary × List Sent
new_flow_to now stale target b junk p =
    let p' = record p { router = own_rules stale target b p.router } in
    let (q, sent) = announce_both now stale target b junk p' in
    if is_known (tcp_unpack b)
    then (log_hit stale b q, sent)
    else (record p { refresh = false }, [])

unfoldable pub new_tcp_flow : Timeval → Stale → ℕ → ℕ → Buffer → ℕ → Primary → Primary × List Sent
new_tcp_flow now stale port1 port2 b = new_flow_to now stale (tcp_target stale port1 port2 b) b

-- What stages 6 to 10 do with a packet from the tunnel; `failed` is `nread < 0`, `check` the text
-- of `flowCheck`, `target` the router of a TCP packet and `fresh` the handling of a TCP flow without
-- a rule, which differ.
unfoldable pub tunnel_packet :
    Timeval
    → Stale
    → Bool
    → Text
    → ℕ
    → ℕ
    → Peer
    → (Primary → Primary × List Sent)
    → Buffer
    → ℕ
    → Primary
    → Handled Primary
tunnel_packet now stale failed check port1 port2 target fresh b junk p =
    let (a, r) = icmp_forward_log b stale.ports stale.icmp from_tunnel port1 p.router in
    let p' = record p { router = r; refresh = true } in
    let (q, sent) =
      if non_empty check
      then (record p' { router = log_check check r }, [])
      else new_icmp_flow now stale port1 port2 b junk p' in
    let (q6, sent6) =
      if non_empty check
      then (record p' { router = log_check check r; refresh = is_known (tcp_unpack b) }, [])
      else fresh p' in
    if failed
    then exits
    else if a == 1
    then goes_on q (sent ++ udp (icmp_target stale port1 port2) (take 2048 b) ∷ [])
    else if a == 6
    then goes_on q6 (sent6 ++ udp target (take 2048 b) ∷ [])
    else goes_on (record p' { refresh = false }) []

-- The handler of a packet from the tunnel.
unfoldable pub s6_tunnel : Timeval → Stale → Bool → ℕ → ℕ → Buffer → ℕ → Primary → Handled Primary
s6_tunnel now stale failed port1 port2 b junk p =
    tunnel_packet now stale failed (flow_check (entry_of_packet b stale.ports) p.router.flow_table)
      port1 port2 (tcp_target stale port1 port2 b) (new_tcp_flow now stale port1 port2 b junk) b
      junk p

-- The handler of a packet of `nread` bytes from a secondary router, in a buffer of 65535 bytes.
unfoldable pub s6_reply : Stale → ℕ → Peer → Buffer → Primary → Handled Primary
s6_reply stale nread rou2 b p =
    let check = flow_check (entry_of_packet b stale.ports) p.router.flow_table in
    let (a, r) = icmp_forward_log b stale.ports stale.icmp from_udp rou2.port p.router in
    let p' = record p { router = log_check check r; refresh = true } in
    if a == 1 || a == 6
    then goes_on p' (tunnel (take nread b) ∷ [])
    else if a == 253
    then on_ack stale b p'
    else goes_on (record p' { refresh = false }) []
