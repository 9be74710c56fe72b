-- ===== src/Router/Primary/Chained.antt =====
-- The packets from the tunnel in stages 7 and 10 keep every message that waits watched.
use simple_sdn.Base.{ℕ, Bool, List, ◌≡◌, arith, Buffer}
use simple_sdn.Timers.Timeval.{Timeval}
use simple_sdn.Router.{Sent}
use simple_sdn.Router.Handler.{Stale, goes_on}
use simple_sdn.Router.Primary.{Primary}
use simple_sdn.Router.Primary.Packets.{own_rules}
use simple_sdn.Router.Primary.Stage6.{log_hit, new_flow_to}
use simple_sdn.Router.Primary.Stage7.{announce_chain, new_chain, s7_tunnel, s7_target}
use simple_sdn.Router.Primary.Stage10.{s10_tunnel, s10_target}
use simple_sdn.Router.Primary.Watch.{IsWatched, watch-IsWatched}
use simple_sdn.Router.Primary.Tunnel.{
  announce_both-IsWatched, tunnel_packet-IsWatched, new_flow_to-IsWatched,
}

announce_chain-IsWatched :
    (now : Timeval) (stale : Stale) (port1 port2 : ℕ) (b : Buffer) (junk : ℕ) (p : Primary)
    → IsWatched p
    → IsWatched (announce_chain now stale port1 port2 b junk p).0
unfolding announce_chain
announce_chain-IsWatched now stale port1 port2 b junk p w =
    watch-IsWatched now _ _ _ _
      (watch-IsWatched now _ _ _ _ (watch-IsWatched now _ _ _ _ (watch-IsWatched now _ _ _ _ w)))

new_chain-IsWatched :
    (now : Timeval) (stale : Stale) (port1 port2 : ℕ) (b : Buffer) (junk : ℕ) (p : Primary)
    → IsWatched p
    → IsWatched (new_chain now stale port1 port2 b junk p).0
unfolding new_chain log_hit
new_chain-IsWatched now stale port1 port2 b junk p w =
    let target = s7_target stale port1 b in
    let p' = record p { router = own_rules stale target b p.router } in
    ground (
      arith,
      announce_both-IsWatched now stale target b junk p' w,
      announce_chain-IsWatched now stale port1 port2 b junk p' w,
    )

pub s7_tunnel-IsWatched :
    (now : Timeval) (stale : Stale) (failed : Bool) (port1 port2 : ℕ) (b : Buffer) (junk : ℕ)
    (p p' : Primary) (sent : List Sent)
    → IsWatched p
    → s7_tunnel now stale failed port1 port2 b junk p ≡ goes_on p' sent
    → IsWatched p'
unfolding s7_tunnel
s7_tunnel-IsWatched now stale failed port1 port2 b junk p p' sent =
    tunnel_packet-IsWatched now stale failed _ port1 port2 (s7_target stale port1 b)
      (new_chain now stale port1 port2 b junk) b junk p p' sent
      (new_chain-IsWatched now stale port1 port2 b junk)

pub s10_tunnel-IsWatched :
    (now : Timeval) (stale : Stale) (failed : Bool) (port1 port2 : ℕ) (b : Buffer) (junk : ℕ)
    (p p' : Primary) (sent : List Sent)
    → IsWatched p
    → s10_tunnel now stale failed port1 port2 b junk p ≡ goes_on p' sent
    → IsWatched p'
unfolding s10_tunnel
s10_tunnel-IsWatched now stale failed port1 port2 b junk p p' sent =
    let target = s10_target stale port1 port2 b in
    tunnel_packet-IsWatched now stale failed _ port1 port2 target
      (new_flow_to now stale target b junk) b junk p p' sent
      (new_flow_to-IsWatched now stale target b junk)
