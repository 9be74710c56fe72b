-- ===== src/Router/Handshake.antt =====
-- A control message and its acknowledgement, between a primary router of stage 6, 8 or 10 and a
-- secondary router of stage 6.
use simple_sdn.Base.{
  ℕ, true, false, ◌==◌, if◌then◌else◌, [], ◌∷◌, none, some, ◌≡◌, refl, ◌∙◌, ap, Buffer, length,
  arith,
}
use simple_sdn.Octane.{OctaneControl}
use simple_sdn.Octane.Bytes.{IsMsg}
use simple_sdn.Flow.Table.{flow_check}
use simple_sdn.Packet.Build.Acknowledge.{acked}
use simple_sdn.Packet.Edit.{from_udp}
use simple_sdn.Packet.Unpack.{octane_unpack, entry_of_packet}
use simple_sdn.Packet.Header.{ip_p}
use simple_sdn.Timers.Manager.Handles.{timer_of}
use simple_sdn.Router.{Peer, udp}
use simple_sdn.Router.Logging.{icmp_forward_log, logged-ip_p}
use simple_sdn.Router.Control.Acks.{is_dropped}
use simple_sdn.Router.Handler.{Stale, goes_on, log_check}
use simple_sdn.Router.Second.{Session}
use simple_sdn.Router.Second.Ruled.{s6_udp}
use simple_sdn.Router.Second.Ruled.Pair.{accepted, s6_udp-accepts}
use simple_sdn.Router.Primary.{Primary, control_packet, on_ack, acknowledged}
use simple_sdn.Router.Primary.Message.{
  control_packet-ip_p, octane_unpack-control_packet, octane_reply_edit-control_packet,
}
use simple_sdn.Router.Primary.Acked.{acknowledged_lem}
use simple_sdn.Router.Primary.Stage6.{s6_reply}
use simple_sdn.Router.Primary.Steps.{Reached, Reached-IsWatched}
use simple_sdn.Router.Primary.Watch.{handle_of}

acked-IsMsg : (m : OctaneControl) → IsMsg m → IsMsg (acked m)
acked-IsMsg m v = record {
  action = v.action;
  flags = omega arith;
  seqno = v.seqno;
  source_ip = v.source_ip;
  dest_ip = v.dest_ip;
  source_port = v.source_port;
  dest_port = v.dest_port;
  protocol = v.protocol;
  port = v.port;
}

-- The primary router's state when it turns to the acknowledgement.
abbrev turned : Stale → Peer → Buffer → Primary → Primary
turned stale rou2 b p = record p {
  router =
      log_check (flow_check (entry_of_packet b stale.ports) p.router.flow_table)
        (icmp_forward_log b stale.ports stale.icmp from_udp rou2.port p.router).1;
  refresh = true;
}

s6_reply-control :
    (stale : Stale) (nread : ℕ) (rou2 : Peer) (b : Buffer) (p : Primary)
    → ip_p b ≡ 253
    → s6_reply stale nread rou2 b p ≡ on_ack stale b (turned stale rou2 b p)
unfolding s6_reply
s6_reply-control stale nread rou2 b p h =
    ground (arith, logged-ip_p b stale.ports stale.icmp from_udp rou2.port p.router)

on_ack-acked :
    (stale : Stale) (b : Buffer) (p p' : Primary) (seq : ℕ) (m : OctaneControl)
    → octane_unpack b stale.msg_bytes ≡ some (seq, m)
    → m.octane_flags ≡ 1
    → acknowledged seq p ≡ some p'
    → on_ack stale b p ≡ goes_on p' []
unfolding on_ack
on_ack-acked stale b p p' seq m u f a = ground arith

-- A control message that waits for its acknowledgement at a primary router, in a state that it comes
-- to, and that a secondary router does not drop: the secondary router answers its packet, and when
-- the primary router gets the answer, the message's timer is not scheduled and its number not
-- waiting any more, and all other numbers are as before.
pub answered_once :
    (stale stale' : Stale) (peer rou2 : Peer) (nread junk h : ℕ) (m : OctaneControl) (s : Session)
    (p : Primary)
    → IsMsg m
    → length stale.msg_bytes ≡ 20
    → length stale'.msg_bytes ≡ 20
    → is_dropped m s.router ≡ false
    → Reached p
    → handle_of m.octane_seqno p.un_ack ≡ some h
    → (s' : Session) × (reply : Buffer) × (p' : Primary) × (s6_udp stale false peer
          (control_packet junk m)
          s
        ≡ goes_on s' (udp peer reply ∷ []))
      × (s6_reply stale' nread rou2 reply p ≡ goes_on p' [])
      × (timer_of h p'.timers.eq ≡ none)
      × ((n : ℕ)
          → handle_of n p'.un_ack ≡ (if m.octane_seqno == n then none else handle_of n p.un_ack))
answered_once stale stale' peer rou2 nread junk h m s p v size size' d r w =
    let reply = control_packet junk (acked m) in
    let q = turned stale' rou2 reply p in
    let i = Reached-IsWatched p r in
    let s' = accepted peer m s in
    let (p', a, gone, others, more) = acknowledged_lem m.octane_seqno h q i w in
    (
      s',
      reply,
      p',
      s6_udp-accepts stale peer junk m s v size d
          ∙ ap (λ b. goes_on s' (udp peer b ∷ [])) (octane_reply_edit-control_packet junk m),
      s6_reply-control stale' nread rou2 reply p (control_packet-ip_p junk (acked m))
          ∙ on_ack-acked stale' reply q p' m.octane_seqno (acked m)
              (octane_unpack-control_packet junk (acked m) stale'.msg_bytes (acked-IsMsg m v) size')
              refl a,
      gone,
      others,
    )
