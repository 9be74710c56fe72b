-- ===== src/Router/Primary/Origin/Replies.antt =====
-- The timers after packets from the secondary routers.
use simple_sdn.Base.{
  ℕ, Bool, true, false, ◌==◌, ◌||◌, if◌then◌else◌, List, [], ◌∷◌, Option, none, some, ◌≡◌, refl,
  Buffer, take,
}
use simple_sdn.Octane.{OctaneControl}
use simple_sdn.Flow.Table.{flow_check}
use simple_sdn.Packet.Unpack.{entry_of_packet, octane_unpack}
use simple_sdn.Packet.Edit.{from_udp}
use simple_sdn.Router.{Peer, Sent, tunnel}
use simple_sdn.Router.Logging.{icmp_forward_log}
use simple_sdn.Router.Handler.{Stale, Handled, goes_on, exits, overrun, log_check}
use simple_sdn.Router.Primary.{Primary, OctaneTimer, acknowledged, on_ack}
use simple_sdn.Router.Primary.Packets.{on_reply}
use simple_sdn.Router.Primary.Stage6.{s6_reply}
use simple_sdn.Router.Primary.Origin.{Are, acknowledged-Are}
use simple_sdn.Router.Primary.Origin.Handlers.{AreFine}

module _ (Q : OctaneTimer → Type 0) where
  acked :
      (flag : Bool) (x : Option Primary) (p : Primary)
      → ((q : Primary) → x ≡ some q → Are Q q)
      → Are Q p
      → AreFine Q (if flag then elim x [ none ↦ exits | some q ↦ goes_on q [] ] else goes_on p [])
  acked true none p k a = tt
  acked true (some q) p k a = λ new. k q refl
  acked false x p k a = λ new. a

  unpacked :
      (x : Option (ℕ × OctaneControl)) (p : Primary)
      → Are Q p
      → AreFine Q (elim x [
        | none ↦ overrun
        | some (seq, m) ↦
            if m.octane_flags == 1
            then elim (acknowledged seq p) [ none ↦ exits | some p' ↦ goes_on p' [] ]
            else goes_on p []
      ])
  unpacked none p a = tt
  unpacked (some (seq, m)) p a =
      acked (m.octane_flags == 1) (acknowledged seq p) p (λ q. acknowledged-Are Q seq p q a) a

  on_ack-AreFine :
      (stale : Stale) (b : Buffer) (p : Primary) → Are Q p → AreFine Q (on_ack stale b p)
  unfolding on_ack
  on_ack-AreFine stale b p a = unpacked (octane_unpack b stale.msg_bytes) p a

  reply_ends :
      (failed back control : Bool) (p q : Primary) (out : List Sent) (h : Handled Primary)
      → Are Q p
      → Are Q q
      → AreFine Q h
      → AreFine Q (
          if failed
          then exits
          else if back
          then goes_on p out
          else if control
          then h
          else goes_on q [])
  reply_ends true back control p q out h a c f = tt
  reply_ends false true control p q out h a c f = λ new. a
  reply_ends false false true p q out h a c f = f
  reply_ends false false false p q out h a c f = λ new. c

  pub on_reply-AreFine :
      (logged : Bool) (stale : Stale) (failed : Bool) (nread : ℕ) (rou2 : Peer) (b : Buffer)
      (p : Primary)
      → Are Q p
      → AreFine Q (on_reply logged stale failed nread rou2 b p)
  unfolding on_reply
  on_reply-AreFine logged stale failed nread rou2 b p a =
      let check = flow_check (entry_of_packet b stale.ports) p.router.flow_table in
      let (proto, r) = icmp_forward_log b stale.ports stale.icmp from_udp rou2.port p.router in
      let q : Primary = record p {
        router = if logged then log_check check r else r;
        refresh = true;
      } in
      reply_ends failed (proto == 1) (proto == 253) q (record q { refresh = false })
        (tunnel (take nread b) ∷ []) (on_ack stale b q) a a (on_ack-AreFine stale b q a)

  pub s6_reply-AreFine :
      (stale : Stale) (nread : ℕ) (rou2 : Peer) (b : Buffer) (p : Primary)
      → Are Q p
      → AreFine Q (s6_reply stale nread rou2 b p)
  unfolding s6_reply
  s6_reply-AreFine stale nread rou2 b p a =
      let check = flow_check (entry_of_packet b stale.ports) p.router.flow_table in
      let (proto, r) = icmp_forward_log b stale.ports stale.icmp from_udp rou2.port p.router in
      let q : Primary = record p { router = log_check check r; refresh = true } in
      reply_ends false (proto == 1 || proto == 6) (proto == 253) q (record q { refresh = false })
        (tunnel (take nread b) ∷ []) (on_ack stale b q) a a (on_ack-AreFine stale b q a)
