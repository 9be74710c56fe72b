-- ===== src/Router/Primary/Tunnel.antt =====
-- The packets from the tunnel keep every message that waits watched.
use simple_sdn.Base.{
  ℕ, Bool, true, false, ◌==◌, if◌then◌else◌, List, [], ◌∷◌, ◌++◌, ◌≡◌, arith, take, Buffer, Text,
}
use simple_sdn.Timers.Timeval.{Timeval}
use simple_sdn.Router.{Peer, Sent, udp}
use simple_sdn.Router.Logging.{icmp_forward_log}
use simple_sdn.Flow.Table.{flow_check}
use simple_sdn.Packet.Unpack.{entry_of_packet, tcp_unpack}
use simple_sdn.Packet.Edit.{from_tunnel}
use simple_sdn.Router.Forward.{localhost}
use simple_sdn.Router.Handler.{Stale, goes_on, exits, non_empty, log_check}
use simple_sdn.Router.Primary.{Primary}
use simple_sdn.Router.Primary.Packets.{own_rules, on_tunnel, new_flow, announce, announce_both}
use simple_sdn.Router.Primary.Stage6.{
  s6_tunnel, new_icmp_flow, new_tcp_flow, new_flow_to, is_known, tunnel_packet, log_hit,
  icmp_target, tcp_target,
}
use simple_sdn.Router.Primary.Watch.{IsWatched, watch-IsWatched}

announce-IsWatched :
    (now : Timeval) (stale : Stale) (action : ℕ) (rou2 : Peer) (b : Buffer) (junk : ℕ) (p : Primary)
    → IsWatched p
    → IsWatched (announce now stale action rou2 b junk p).0
unfolding announce
announce-IsWatched now stale action rou2 b junk p w = watch-IsWatched now rou2 _ _ _ w

pub announce_both-IsWatched :
    (now : Timeval) (stale : Stale) (rou2 : Peer) (b : Buffer) (junk : ℕ) (p : Primary)
    → IsWatched p
    → IsWatched (announce_both now stale rou2 b junk p).0
unfolding announce_both
announce_both-IsWatched now stale rou2 b junk p w =
    watch-IsWatched now rou2 _ _ _ (watch-IsWatched now rou2 _ _ _ w)

new_flow-IsWatched :
    (logged : Bool) (now : Timeval) (stale : Stale) (rou2 : Peer) (b : Buffer) (junk : ℕ)
    (p : Primary)
    → IsWatched p
    → IsWatched (new_flow logged now stale rou2 b junk p).0
unfolding new_flow
new_flow-IsWatched logged now stale rou2 b junk p w =
    let p' = record p { router = own_rules stale rou2 b p.router } in
    ground (
      arith,
      announce-IsWatched now stale 2 rou2 b junk p' w,
      announce-IsWatched now stale 3 rou2 b junk p' w,
      announce_both-IsWatched now stale rou2 b junk p' w,
    )

-- How a handler ends: it exits, goes on from one of the ways to handle the packet, or drops it.
ends :
    (failed icmp hit : Bool) (q3 p' : Primary) (known new : Primary × List Sent)
    (extra sent : List Sent)
    → IsWatched known.0
    → IsWatched new.0
    → IsWatched q3
    → (if failed
        then exits
        else if icmp
        then goes_on (if hit then known else new).0 ((if hit then known else new).1 ++ extra)
        else goes_on q3 [])
      ≡ goes_on p' sent
    → IsWatched p'
ends failed icmp hit q3 p' known new extra sent k n q h = ground arith

logged-IsWatched :
    (logged : Bool) (q1 q2 : Primary)
    → IsWatched q1
    → IsWatched q2
    → IsWatched (if logged then q1 else q2)
logged-IsWatched true q1 q2 h k = h
logged-IsWatched false q1 q2 h k = k

pub on_tunnel-IsWatched :
    (logged : Bool) (now : Timeval) (stale : Stale) (failed : Bool) (rou2 : Peer) (b : Buffer)
    (junk : ℕ) (p p' : Primary) (sent : List Sent)
    → IsWatched p
    → on_tunnel logged now stale failed rou2 b junk p ≡ goes_on p' sent
    → IsWatched p'
unfolding on_tunnel
on_tunnel-IsWatched logged now stale failed rou2 b junk p p' sent w h =
    let check = flow_check (entry_of_packet b stale.ports) p.router.flow_table in
    let (a, r) = icmp_forward_log b stale.ports stale.icmp from_tunnel rou2.port p.router in
    let q : Primary = record p { router = r; refresh = true } in
    let q' : Primary = record q { router = log_check check r } in
    ends failed (a == 1) (non_empty check) (record q { refresh = false }) p'
      (if logged then q' else q, []) (new_flow logged now stale rou2 b junk q)
      (udp rou2 (take 2048 b) ∷ []) sent (logged-IsWatched logged q' q w w)
      (new_flow-IsWatched logged now stale rou2 b junk q w) w h

new_icmp_flow-IsWatched :
    (now : Timeval) (stale : Stale) (port1 port2 : ℕ) (b : Buffer) (junk : ℕ) (p : Primary)
    → IsWatched p
    → IsWatched (new_icmp_flow now stale port1 port2 b junk p).0
unfolding new_icmp_flow log_hit
new_icmp_flow-IsWatched now stale port1 port2 b junk p w =
    let target = icmp_target stale port1 port2 in
    let p' = record p { router = own_rules stale target b p.router } in
    ground (
      arith,
      announce-IsWatched now stale 2 target b junk p' w,
      announce_both-IsWatched now stale (record { addr = localhost; port = port1 }) b junk p' w,
    )

pub new_flow_to-IsWatched :
    (now : Timeval) (stale : Stale) (target : Peer) (b : Buffer) (junk : ℕ) (p : Primary)
    → IsWatched p
    → IsWatched (new_flow_to now stale target b junk p).0
unfolding new_flow_to log_hit
new_flow_to-IsWatched now stale target b junk p w =
    let p' = record p { router = own_rules stale target b p.router } in
    ground (arith, announce_both-IsWatched now stale target b junk p' w)

ends6 :
    (failed icmp tcp hit : Bool) (q3 p' : Primary) (known new known6 new6 : Primary × List Sent)
    (extra extra6 sent : List Sent)
    → IsWatched known.0
    → IsWatched new.0
    → IsWatched known6.0
    → IsWatched new6.0
    → IsWatched q3
    → (if failed
        then exits
        else if icmp
        then goes_on (if hit then known else new).0 ((if hit then known else new).1 ++ extra)
        else if tcp
        then goes_on (if hit then known6 else new6).0 ((if hit then known6 else new6).1 ++ extra6)
        else goes_on q3 [])
      ≡ goes_on p' sent
    → IsWatched p'
ends6 failed icmp tcp hit q3 p' known new known6 new6 extra extra6 sent k n k6 n6 q h = ground arith

pub tunnel_packet-IsWatched :
    (now : Timeval) (stale : Stale) (failed : Bool) (check : Text) (port1 port2 : ℕ) (target : Peer)
    (fresh : Primary → Primary × List Sent) (b : Buffer) (junk : ℕ) (p p' : Primary)
    (sent : List Sent)
    → ((q : Primary) → IsWatched q → IsWatched (fresh q).0)
    → IsWatched p
    → tunnel_packet now stale failed check port1 port2 target fresh b junk p ≡ goes_on p' sent
    → IsWatched p'
unfolding tunnel_packet
tunnel_packet-IsWatched now stale failed check port1 port2 target fresh b junk p p' sent keeps w h =
    let (a, r) = icmp_forward_log b stale.ports stale.icmp from_tunnel port1 p.router in
    let q : Primary = record p { router = r; refresh = true } in
    ends6 failed (a == 1) (a == 6) (non_empty check) (record q { refresh = false }) p'
      (record q { router = log_check check r }, []) (new_icmp_flow now stale port1 port2 b junk q)
      (record q { router = log_check check r; refresh = is_known (tcp_unpack b) }, []) (fresh q)
      (udp (icmp_target stale port1 port2) (take 2048 b) ∷ []) (udp target (take 2048 b) ∷ []) sent
      w (new_icmp_flow-IsWatched now stale port1 port2 b junk q w) w (keeps q w) w h

pub s6_tunnel-IsWatched :
    (now : Timeval) (stale : Stale) (failed : Bool) (port1 port2 : ℕ) (b : Buffer) (junk : ℕ)
    (p p' : Primary) (sent : List Sent)
    → IsWatched p
    → s6_tunnel now stale failed port1 port2 b junk p ≡ goes_on p' sent
    → IsWatched p'
unfolding s6_tunnel new_tcp_flow
s6_tunnel-IsWatched now stale failed port1 port2 b junk p p' sent =
    tunnel_packet-IsWatched now stale failed
      (flow_check (entry_of_packet b stale.ports) p.router.flow_table) port1 port2
      (tcp_target stale port1 port2 b) (new_tcp_flow now stale port1 port2 b junk) b junk p p' sent
      (λ q. new_flow_to-IsWatched now stale (tcp_target stale port1 port2 b) b junk q)
