-- ===== src/Router/Primary/Stage7.antt =====
-- The handlers of `primaryRouter_s7`, in which the flows to port 443 go through a chain of both
-- secondary routers.
use simple_sdn.Base.{ℕ, Bool, true, false, ◌==◌, ◌%◌, if◌then◌else◌, List, [], ◌∷◌, Buffer}
use simple_sdn.Flow.Table.{flow_check}
use simple_sdn.Packet.Unpack.{entry_of_packet, tcp_unpack}
use simple_sdn.Timers.Timeval.{Timeval}
use simple_sdn.Router.{Peer, Sent, udp}
use simple_sdn.Router.Create.{create_octane_msg, create_reverse_octane_msg}
use simple_sdn.Router.Forward.{localhost}
use simple_sdn.Router.Handler.{Stale, Handled}
use simple_sdn.Router.Primary.{Primary, control_packet, watch}
use simple_sdn.Router.Primary.Packets.{own_rules, announce_both}
use simple_sdn.Router.Primary.Stage6.{is_known, log_hit, tunnel_packet, s6_reply}

-- The first router of a TCP packet, by its destination port; any other port leaves the
-- uninitialised `targetAddr.sin_port`.
unfoldable pub s7_target : Stale → ℕ → Buffer → Peer
s7_target stale port1 b = record {
  addr = localhost;
  port = if is_known (tcp_unpack b) then port1 else stale.peer.port;
}

-- The four control messages of a chain: the first router sends the flow to the second and the
-- reverse flow to the primary router, the second sends the flow out and the reverse flow to the
-- first.
unfoldable pub announce_chain : Timeval → Stale → ℕ → ℕ → Buffer → ℕ → Primary → Primary × List Sent
announce_chain now stale port1 port2 b junk p =
    let first : Peer = record { addr = localhost; port = port1 } in
    let second : Peer = record { addr = localhost; port = port2 } in
    let ((m1, n1), r1) = create_octane_msg b stale.ports 1 port2 true p.router in
    let ((m2, n2), r2) = create_reverse_octane_msg m1 (p.port_num % 65536) true r1 in
    let ((m3, n3), r3) = create_octane_msg b stale.ports 1 0 true r2 in
    let ((m4, n4), r4) = create_reverse_octane_msg m3 port1 true r3 in
    let p1 = watch now first m1 n1 (record p { router = r4 }) in
    let p2 = watch now first m2 n2 p1 in
    let p3 = watch now second m3 n3 p2 in
    (
      watch now second m4 n4 p3,
      udp first (control_packet junk m1)
          ∷ udp first (control_packet junk m2)
          ∷ udp second (control_packet junk m3)
          ∷ udp second (control_packet junk m4)
          ∷ [],
    )

-- A TCP flow without a rule.
unfoldable pub new_chain : Timeval → Stale → ℕ → ℕ → Buffer → ℕ → Primary → Primary × List Sent
new_chain now stale port1 port2 b junk p =
    let target = s7_target stale port1 b in
    let p' = record p { router = own_rules stale target b p.router } in
    let (q80, sent80) = announce_both now stale target b junk p' in
    let (q443, sent443) = announce_chain now stale port1 port2 b junk p' in
    if tcp_unpack b == 80
    then (log_hit stale b q80, sent80)
    else if tcp_unpack b == 443
    then (log_hit stale b q443, sent443)
    else (record p { refresh = false }, [])

-- The handler of a packet from the tunnel.
unfoldable pub s7_tunnel : Timeval → Stale → Bool → ℕ → ℕ → Buffer → ℕ → Primary → Handled Primary
s7_tunnel now stale failed port1 port2 b junk p =
    tunnel_packet now stale failed (flow_check (entry_of_packet b stale.ports) p.router.flow_table)
      port1 port2 (s7_target stale port1 b) (new_chain now stale port1 port2 b junk) b junk p

-- The handler of a packet from a secondary router.
unfoldable pub s7_reply : Stale → ℕ → Peer → Buffer → Primary → Handled Primary
s7_reply = s6_reply
