-- ===== src/Router/Primary/Origin/Stages.antt =====
-- The timers that packets from the tunnel start in stages 6, 7 and 10.
use simple_sdn.Base.{ℕ, Bool, true, false, ◌==◌, if◌then◌else◌, List, [], ◌∷◌, Buffer, Text, take}
use simple_sdn.Packet.Unpack.{tcp_unpack}
use simple_sdn.Packet.Edit.{from_tunnel}
use simple_sdn.Timers.Timeval.{Timeval}
use simple_sdn.Router.{Peer, Sent, udp}
use simple_sdn.Router.Logging.{icmp_forward_log}
use simple_sdn.Router.Handler.{Stale, log_check, non_empty}
use simple_sdn.Router.Primary.{Primary, OctaneTimer}
use simple_sdn.Router.Primary.Stage6.{
  s6_tunnel, new_icmp_flow, new_tcp_flow, new_flow_to, is_known, tunnel_packet, icmp_target,
  tcp_target,
}
use simple_sdn.Router.Primary.Stage7.{new_chain, s7_tunnel, s7_target}
use simple_sdn.Router.Primary.Stage10.{s10_tunnel, s10_target}
use simple_sdn.Router.Primary.Origin.{Are}
use simple_sdn.Router.Primary.Origin.Handlers.{
  Fine, AreFine, pick, ends, new_icmp_flow-Fine, new_chain-Fine, new_flow_to-Fine,
}

module _ (Q : OctaneTimer → Type 0) where
  pub tunnel_packet-AreFine :
      (now : Timeval) (stale : Stale) (failed : Bool) (check : Text) (port1 port2 : ℕ)
      (target : Peer) (fresh : Primary → Primary × List Sent) (b : Buffer) (junk : ℕ) (p : Primary)
      → ((q : Primary) → Are Q q → Fine Q (fresh q))
      → Are Q p
      → AreFine Q (tunnel_packet now stale failed check port1 port2 target fresh b junk p)
  unfolding tunnel_packet
  tunnel_packet-AreFine now stale failed check port1 port2 target fresh b junk p keeps a =
      let (proto, r) = icmp_forward_log b stale.ports stale.icmp from_tunnel port1 p.router in
      let q : Primary = record p { router = r; refresh = true } in
      let hit : Primary = record q { router = log_check check r } in
      let hit6 : Primary = record hit { refresh = is_known (tcp_unpack b) } in
      ends Q failed (proto == 1) (proto == 6)
        (if non_empty check then (hit, []) else new_icmp_flow now stale port1 port2 b junk q)
        (if non_empty check then (hit6, []) else fresh q) (record q { refresh = false })
        (udp (icmp_target stale port1 port2) (take 2048 b) ∷ []) (udp target (take 2048 b) ∷ [])
        (pick Q (non_empty check) (hit, []) (new_icmp_flow now stale port1 port2 b junk q)
          (λ new. a) (new_icmp_flow-Fine Q now stale port1 port2 b junk q a))
        (pick Q (non_empty check) (hit6, []) (fresh q) (λ new. a) (keeps q a)) a

  pub s6_tunnel-AreFine :
      (now : Timeval) (stale : Stale) (failed : Bool) (port1 port2 : ℕ) (b : Buffer) (junk : ℕ)
      (p : Primary)
      → Are Q p
      → AreFine Q (s6_tunnel now stale failed port1 port2 b junk p)
  unfolding s6_tunnel new_tcp_flow
  s6_tunnel-AreFine now stale failed port1 port2 b junk p =
      tunnel_packet-AreFine now stale failed _ port1 port2 (tcp_target stale port1 port2 b)
        (new_tcp_flow now stale port1 port2 b junk) b junk p
        (new_flow_to-Fine Q now stale (tcp_target stale port1 port2 b) b junk)

  pub s7_tunnel-AreFine :
      (now : Timeval) (stale : Stale) (failed : Bool) (port1 port2 : ℕ) (b : Buffer) (junk : ℕ)
      (p : Primary)
      → Are Q p
      → AreFine Q (s7_tunnel now stale failed port1 port2 b junk p)
  unfolding s7_tunnel
  s7_tunnel-AreFine now stale failed port1 port2 b junk p =
      tunnel_packet-AreFine now stale failed _ port1 port2 (s7_target stale port1 b)
        (new_chain now stale port1 port2 b junk) b junk p
        (new_chain-Fine Q now stale port1 port2 b junk)

  pub s10_tunnel-AreFine :
      (now : Timeval) (stale : Stale) (failed : Bool) (port1 port2 : ℕ) (b : Buffer) (junk : ℕ)
      (p : Primary)
      → Are Q p
      → AreFine Q (s10_tunnel now stale failed port1 port2 b junk p)
  unfolding s10_tunnel
  s10_tunnel-AreFine now stale failed port1 port2 b junk p =
      let target = s10_target stale port1 port2 b in
      tunnel_packet-AreFine now stale failed _ port1 port2 target
        (new_flow_to now stale target b junk) b junk p (new_flow_to-Fine Q now stale target b junk)
