-- ===== src/Router/Primary/Origin/Portal.antt =====
-- The timers that the handlers of stage 9 start send what the handlers have sent.
use simple_sdn.Base.{
  inl, inr, subst, arith, Bool-cases, ℕ, Bool, true, false, ◌==◌, ◌||◌, if◌then◌else◌, List, [],
  ◌∷◌, Option, none, some, ◌≡◌, refl, Buffer, take,
}
use simple_sdn.Octane.{OctaneControl}
use simple_sdn.Flow.Table.{flow_check_out}
use simple_sdn.Packet.Unpack.{entry_of_packet, octane_unpack}
use simple_sdn.Packet.Edit.{from_udp}
use simple_sdn.Timers.Timeval.{Timeval}
use simple_sdn.Router.{Peer, Sent, tunnel}
use simple_sdn.Router.Logging.{icmp_forward_log}
use simple_sdn.Router.Handler.{Stale, Handled, goes_on, returns, exits, overrun, log_check}
use simple_sdn.Router.Primary.{Primary, OctaneTimer}
use simple_sdn.Router.Primary.Stage6.{new_flow_to}
use simple_sdn.Router.Primary.Stage9.{
  Gate, s9_tunnel, s9_target, s9_reply, s9_control, on_grant, with_primary, captive_gate,
  acknowledged_if,
}
use simple_sdn.Router.Primary.Origin.{Are, acknowledged-Are}
use simple_sdn.Router.Primary.Origin.Handlers.{Fine, AreFine, new_flow_to-Fine}
use simple_sdn.Router.Primary.Origin.Stages.{tunnel_packet-AreFine}

module _ (Q : OctaneTimer → Type 0) where
  abbrev pub GateFine : Handled Gate → Type 0
  GateFine (goes_on g sent) = Fine Q (g.primary, sent)
  GateFine (returns g) = Unit
  GateFine exits = Unit
  GateFine overrun = Unit

  with_primary-GateFine :
      (g : Gate) (h : Handled Primary) → AreFine Q h → GateFine (with_primary g h)
  with_primary-GateFine g (goes_on p sent) f = f
  with_primary-GateFine g (returns p) f = tt
  with_primary-GateFine g exits f = tt
  with_primary-GateFine g overrun f = tt

  pub s9_tunnel-GateFine :
      (now : Timeval) (stale : Stale) (failed : Bool) (port1 port2 port3 : ℕ) (b : Buffer)
      (junk : ℕ) (g : Gate)
      → Are Q g.primary
      → GateFine (s9_tunnel now stale failed port1 port2 port3 b junk g)
  unfolding s9_tunnel
  s9_tunnel-GateFine now stale failed port1 port2 port3 b junk g a =
      let target = s9_target stale g.is_authenticated port1 port2 port3 b in
      with_primary-GateFine (captive_gate stale port1 target b g) _ (
        tunnel_packet-AreFine Q now stale failed _ port1 port2 target
          (new_flow_to now stale target b junk) b junk g.primary
          (new_flow_to-Fine Q now stale target b junk) a)

  on_grant-Are :
      (port1 junk : ℕ) (m : OctaneControl) (g : Gate)
      → Are Q g.primary
      → Are Q (on_grant port1 junk m g).0.primary
  unfolding on_grant
  on_grant-Are port1 junk m g a = a

  grant_ends :
      (five : Bool) (g h : Gate) (out : List Sent)
      → Are Q g.primary
      → Are Q h.primary
      → GateFine (if five then goes_on h out else goes_on g [])
  grant_ends true g h out a c = λ new. c
  grant_ends false g h out a c = λ new. a

  acknowledged_if-Are :
      (seq : ℕ) (m : OctaneControl) (p p' : Primary)
      → Are Q p
      → acknowledged_if seq m p ≡ some p'
      → Are Q p'
  unfolding acknowledged_if
  acknowledged_if-Are seq m p p' a e = elim (Bool-cases (m.octane_flags == 1)) [
    | inl acks ↦ acknowledged-Are Q seq p p' a (ground arith)
    | inr other ↦ let k : p ≡ p' = ground arith in subst (Are Q) k a
  ]

  control_ends :
      (port1 junk : ℕ) (m : OctaneControl) (x : Option Primary) (g : Gate)
      → ((p : Primary) → x ≡ some p → Are Q p)
      → GateFine (elim x [
        | none ↦ exits
        | some p ↦
            let g' = record g { primary = p } in
            let (h, sent) = on_grant port1 junk m g' in
            if m.octane_action == 5 then goes_on h sent else goes_on g' []
      ])
  control_ends port1 junk m none g k = tt
  control_ends port1 junk m (some p) g k =
      let g' : Gate = record g { primary = p } in
      grant_ends (m.octane_action == 5) g' (on_grant port1 junk m g').0 (on_grant port1 junk m g').1
        (k p refl) (on_grant-Are port1 junk m g' (k p refl))

  unpacked :
      (port1 junk : ℕ) (x : Option (ℕ × OctaneControl)) (g : Gate)
      → Are Q g.primary
      → GateFine (elim x [
        | none ↦ overrun
        | some (seq, m) ↦ elim (acknowledged_if seq m g.primary) [
          | none ↦ exits
          | some p ↦
              let g' = record g { primary = p } in
              let (h, sent) = on_grant port1 junk m g' in
              if m.octane_action == 5 then goes_on h sent else goes_on g' []
        ]
      ])
  unpacked port1 junk none g a = tt
  unpacked port1 junk (some (seq, m)) g a =
      control_ends port1 junk m (acknowledged_if seq m g.primary) g
        (λ p. acknowledged_if-Are seq m g.primary p a)

  reply_ends :
      (back control : Bool) (g q : Gate) (out : List Sent) (h : Handled Gate)
      → Are Q g.primary
      → Are Q q.primary
      → GateFine h
      → GateFine (if back then goes_on g out else if control then h else goes_on q [])
  reply_ends true control g q out h a c f = λ new. a
  reply_ends false true g q out h a c f = f
  reply_ends false false g q out h a c f = λ new. c

  pub s9_reply-GateFine :
      (stale : Stale) (nread port1 junk : ℕ) (rou2 : Peer) (b : Buffer) (g : Gate)
      → Are Q g.primary
      → GateFine (s9_reply stale nread port1 junk rou2 b g)
  unfolding s9_reply s9_control
  s9_reply-GateFine stale nread port1 junk rou2 b g a =
      let p = g.primary in
      let entry = entry_of_packet b stale.ports in
      let check = (flow_check_out entry stale.entry p.router.flow_table).0 in
      let (proto, r) = icmp_forward_log b stale.ports stale.icmp from_udp rou2.port p.router in
      let p' : Primary = record p { router = log_check check r; refresh = true } in
      let q : Gate = record g { primary = p' } in
      let dropped : Primary = record p' { refresh = false } in
      reply_ends (proto == 1 || proto == 6) (proto == 253) q (record g { primary = dropped })
        (tunnel (take nread b) ∷ []) (s9_control stale port1 junk b q) a a
        (unpacked port1 junk (octane_unpack b stale.msg_bytes) q a)
