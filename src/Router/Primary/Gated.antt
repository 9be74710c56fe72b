-- ===== src/Router/Primary/Gated.antt =====
-- The packets of stage 9 keep every message that waits watched.
use simple_sdn.Base.{
  ℕ, Bool, true, false, ◌==◌, ◌||◌, if◌then◌else◌, List, [], ◌∷◌, ◌≡◌, some, inl, inr, arith,
  Buffer, Option-cases, take,
}
use simple_sdn.Timers.Timeval.{Timeval}
use simple_sdn.Octane.{OctaneControl}
use simple_sdn.Flow.Table.{flow_check_out}
use simple_sdn.Packet.Edit.{from_udp}
use simple_sdn.Packet.Unpack.{entry_of_packet, octane_unpack}
use simple_sdn.Router.{Peer, Sent, tunnel}
use simple_sdn.Router.Logging.{icmp_forward_log}
use simple_sdn.Router.Handler.{Stale, Handled, goes_on, returns, exits, overrun, log_check}
use simple_sdn.Router.Primary.{Primary}
use simple_sdn.Router.Primary.Stage6.{new_flow_to}
use simple_sdn.Router.Primary.Stage9.{
  Gate, s9_tunnel, s9_target, s9_reply, s9_control, on_grant, with_primary, captive_gate,
  acknowledged_if,
}
use simple_sdn.Router.Primary.Watch.{IsWatched}
use simple_sdn.Router.Primary.Tunnel.{tunnel_packet-IsWatched, new_flow_to-IsWatched}
use simple_sdn.Router.Primary.Replies.{acknowledged-IsWatched}

with_primary-IsWatched :
    (g g' : Gate) (sent : List Sent) (h : Handled Primary)
    → ((p : Primary) → h ≡ goes_on p sent → IsWatched p)
    → with_primary g h ≡ goes_on g' sent
    → IsWatched g'.primary
with_primary-IsWatched g g' sent (goes_on p out) w e = ground (arith, w p)
with_primary-IsWatched g g' sent (returns p) w e = ground arith
with_primary-IsWatched g g' sent exits w e = ground arith
with_primary-IsWatched g g' sent overrun w e = ground arith

pub s9_tunnel-IsWatched :
    (now : Timeval) (stale : Stale) (failed : Bool) (port1 port2 port3 : ℕ) (b : Buffer) (junk : ℕ)
    (g g' : Gate) (sent : List Sent)
    → IsWatched g.primary
    → s9_tunnel now stale failed port1 port2 port3 b junk g ≡ goes_on g' sent
    → IsWatched g'.primary
unfolding s9_tunnel
s9_tunnel-IsWatched now stale failed port1 port2 port3 b junk g g' sent w =
    let target = s9_target stale g.is_authenticated port1 port2 port3 b in
    with_primary-IsWatched (captive_gate stale port1 target b g) g' sent _ (λ p.
      tunnel_packet-IsWatched now stale failed _ port1 port2 target
        (new_flow_to now stale target b junk) b junk g.primary p sent
        (new_flow_to-IsWatched now stale target b junk) w)

on_grant-IsWatched :
    (port1 junk : ℕ) (m : OctaneControl) (g : Gate)
    → IsWatched g.primary
    → IsWatched (on_grant port1 junk m g).0.primary
unfolding on_grant
on_grant-IsWatched port1 junk m g w = w

acknowledged_if-IsWatched :
    (seq : ℕ) (m : OctaneControl) (p p' : Primary)
    → IsWatched p
    → acknowledged_if seq m p ≡ some p'
    → IsWatched p'
unfolding acknowledged_if
acknowledged_if-IsWatched seq m p p' w h = ground (arith, acknowledged-IsWatched seq p p' w)

grant_ends :
    (five : Bool) (g h g' : Gate) (out sent : List Sent)
    → IsWatched g.primary
    → IsWatched h.primary
    → (if five then goes_on h out else goes_on g []) ≡ goes_on g' sent
    → IsWatched g'.primary
grant_ends five g h g' out sent w k e = ground arith

s9_control-IsWatched :
    (stale : Stale) (port1 junk : ℕ) (b : Buffer) (g g' : Gate) (sent : List Sent)
    → IsWatched g.primary
    → s9_control stale port1 junk b g ≡ goes_on g' sent
    → IsWatched g'.primary
unfolding s9_control
s9_control-IsWatched stale port1 junk b g g' sent w h =
    elim (Option-cases (octane_unpack b stale.msg_bytes)) [
      | inl miss ↦ ground arith
      | inr ((seq, m), hit) ↦ elim (Option-cases (acknowledged_if seq m g.primary)) [
        | inl fails ↦ ground arith
        | inr (p, acks) ↦
            let v = acknowledged_if-IsWatched seq m g.primary p w acks in
            let g1 : Gate = record g { primary = p } in
            ground (
              arith,
              grant_ends (m.octane_action == 5) g1 (on_grant port1 junk m g1).0 g'
                  (on_grant port1 junk m g1).1 sent v (on_grant-IsWatched port1 junk m g1 v),
            )
      ]
    ]

reply_ends :
    (back control : Bool) (g g3 g' : Gate) (ctl : Handled Gate) (out sent : List Sent)
    → IsWatched g.primary
    → IsWatched g3.primary
    → (ctl ≡ goes_on g' sent → IsWatched g'.primary)
    → (if back then goes_on g out else if control then ctl else goes_on g3 []) ≡ goes_on g' sent
    → IsWatched g'.primary
reply_ends back control g g3 g' ctl out sent w w3 a h = ground arith

pub s9_reply-IsWatched :
    (stale : Stale) (nread port1 junk : ℕ) (rou2 : Peer) (b : Buffer) (g g' : Gate)
    (sent : List Sent)
    → IsWatched g.primary
    → s9_reply stale nread port1 junk rou2 b g ≡ goes_on g' sent
    → IsWatched g'.primary
unfolding s9_reply
s9_reply-IsWatched stale nread port1 junk rou2 b g g' sent w h =
    let p = g.primary in
    let entry = entry_of_packet b stale.ports in
    let check = (flow_check_out entry stale.entry p.router.flow_table).0 in
    let (a, r) = icmp_forward_log b stale.ports stale.icmp from_udp rou2.port p.router in
    let p' : Primary = record p { router = log_check check r; refresh = true } in
    let q : Gate = record g { primary = p' } in
    let dropped : Primary = record p' { refresh = false } in
    reply_ends (a == 1 || a == 6) (a == 253) q (record g { primary = dropped }) g'
      (s9_control stale port1 junk b q) (tunnel (take nread b) ∷ []) sent w w
      (s9_control-IsWatched stale port1 junk b q g' sent w) h
