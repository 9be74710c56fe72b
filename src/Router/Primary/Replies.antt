-- ===== src/Router/Primary/Replies.antt =====
-- The packets from the secondary routers keep every message that waits watched.
use simple_sdn.Base.{
  ℕ, Bool, true, false, ◌==◌, ◌||◌, if◌then◌else◌, List, [], ◌∷◌, some, ◌≡◌, arith, take, Buffer,
  Option-cases, inl, inr,
}
use simple_sdn.Flow.Table.{flow_check}
use simple_sdn.Packet.Unpack.{entry_of_packet, octane_unpack}
use simple_sdn.Packet.Edit.{from_udp}
use simple_sdn.Router.{Peer, Sent, tunnel}
use simple_sdn.Router.Logging.{icmp_forward_log}
use simple_sdn.Router.Handler.{Stale, Handled, goes_on, exits, log_check}
use simple_sdn.Router.Primary.{Primary, acknowledged, on_ack}
use simple_sdn.Router.Primary.Packets.{on_reply}
use simple_sdn.Router.Primary.Stage6.{s6_reply}
use simple_sdn.Router.Primary.Watch.{IsWatched, handle_of}
use simple_sdn.Router.Primary.Acked.{acknowledged_lem, acknowledged-unknown}

pub acknowledged-IsWatched :
    (seq : ℕ) (p p' : Primary) → IsWatched p → acknowledged seq p ≡ some p' → IsWatched p'
acknowledged-IsWatched seq p p' w h = elim (Option-cases (handle_of seq p.un_ack)) [
  | inl missing ↦ let (q, e, w') = acknowledged-unknown seq p w missing in ground arith
  | inr (hdl, found) ↦
      let (q, e, gone, others, w') = acknowledged_lem seq hdl p w found in ground arith
]

pub on_ack-IsWatched :
    (stale : Stale) (b : Buffer) (p p' : Primary) (sent : List Sent)
    → IsWatched p
    → on_ack stale b p ≡ goes_on p' sent
    → IsWatched p'
unfolding on_ack
on_ack-IsWatched stale b p p' sent w h = elim (Option-cases (octane_unpack b stale.msg_bytes)) [
  | inl miss ↦ ground arith
  | inr ((seq, m), hit) ↦ ground (arith, acknowledged-IsWatched seq p p' w)
]

reply_ends :
    (failed back control : Bool) (q q3 p' : Primary) (ack : Handled Primary) (out sent : List Sent)
    → IsWatched q
    → IsWatched q3
    → (ack ≡ goes_on p' sent → IsWatched p')
    → (if failed
        then exits
        else if back
        then goes_on q out
        else if control
        then ack
        else goes_on q3 [])
      ≡ goes_on p' sent
    → IsWatched p'
reply_ends failed back control q q3 p' ack out sent w w3 a h = ground arith

pub on_reply-IsWatched :
    (logged : Bool) (stale : Stale) (failed : Bool) (nread : ℕ) (rou2 : Peer) (b : Buffer)
    (p p' : Primary) (sent : List Sent)
    → IsWatched p
    → on_reply logged stale failed nread rou2 b p ≡ goes_on p' sent
    → IsWatched p'
unfolding on_reply
on_reply-IsWatched logged stale failed nread rou2 b p p' sent w h =
    let check = flow_check (entry_of_packet b stale.ports) p.router.flow_table in
    let (a, r) = icmp_forward_log b stale.ports stale.icmp from_udp rou2.port p.router in
    let r' = if logged then log_check check r else r in
    let q : Primary = record p { router = r'; refresh = true } in
    reply_ends failed (a == 1) (a == 253) q (record q { refresh = false }) p' (on_ack stale b q)
      (tunnel (take nread b) ∷ []) sent w w (on_ack-IsWatched stale b q p' sent w) h

pub s6_reply-IsWatched :
    (stale : Stale) (nread : ℕ) (rou2 : Peer) (b : Buffer) (p p' : Primary) (sent : List Sent)
    → IsWatched p
    → s6_reply stale nread rou2 b p ≡ goes_on p' sent
    → IsWatched p'
unfolding s6_reply
s6_reply-IsWatched stale nread rou2 b p p' sent w h =
    let check = flow_check (entry_of_packet b stale.ports) p.router.flow_table in
    let (a, r) = icmp_forward_log b stale.ports stale.icmp from_udp rou2.port p.router in
    let q : Primary = record p { router = log_check check r; refresh = true } in
    reply_ends false (a == 1 || a == 6) (a == 253) q (record q { refresh = false }) p'
      (on_ack stale b q) (tunnel (take nread b) ∷ []) sent w w
      (on_ack-IsWatched stale b q p' sent w) h
