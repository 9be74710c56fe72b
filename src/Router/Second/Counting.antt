-- ===== src/Router/Second/Counting.antt =====
-- What the secondary router's handlers do to the counts of control messages.
use simple_sdn.Base.{
  ℕ, Bool, true, false, ◌==◌, ◌≡◌, subst, if◌then◌else◌, List, [], none, some, Text, Buffer,
  Option-cases, Bool-cases, inl, inr, arith,
}
use simple_sdn.Flow.Table.{flow_check, flow_check_out}
use simple_sdn.Packet.Unpack.{Ports, IcmpOut, icmp_unpack, entry_of_packet}
use simple_sdn.Packet.Edit.{Source, from_udp, tcp_reply_edit}
use simple_sdn.Router.{Router, Peer, Sent, push_log}
use simple_sdn.Router.Logging.{icmp_forward_log}
use simple_sdn.Router.Handler.{Stale, goes_on, log_check}
use simple_sdn.Router.Control.{control_msg}
use simple_sdn.Router.Control.Counts.{IsCounting, AreBelow, control_msg-IsCounting}
use simple_sdn.Router.Second.{Session, on_control}
use simple_sdn.Router.Second.Plain.{on_icmp, on_udp, on_raw, second_start}
use simple_sdn.Router.Second.Stage2.{s2_udp, s3_raw}
use simple_sdn.Router.Second.Ruled.{on_hit, s6_udp, on_raw_packet, s6_raw_icmp, s6_raw_tcp}

-- The counts and their limit stay.
abbrev KeepsCounts : Router → Router → Type 0
KeepsCounts r r' = (r.drop_after ≡ r'.drop_after) × (r.msg_count ≡ r'.msg_count)

counts_kept : (r r' : Router) → KeepsCounts r r' → IsCounting r → IsCounting r'
counts_kept r r' k i =
    subst (λ d. AreBelow d r'.msg_count) k.0 (subst (AreBelow r.drop_after) k.1 i)

logged :
    (b : Buffer) (ports : Ports) (stale : IcmpOut) (from : Source) (port : ℕ) (r : Router)
    → KeepsCounts r (icmp_forward_log b ports stale from port r).1
unfolding icmp_forward_log push_log
logged b ports stale from port r = ground arith

logged_check : (check : Text) (r : Router) → KeepsCounts r (log_check check r)
unfolding log_check push_log
logged_check check r = ground arith

on_icmp-counts :
    (stale : Stale) (check : Text) (b : Buffer) (s s' : Session) (sent : List Sent)
    → on_icmp stale check b s ≡ goes_on s' sent
    → KeepsCounts s.router s'.router
unfolding on_icmp
on_icmp-counts stale check b s s' sent e = ground (arith, logged_check check s.router)

on_raw-counts :
    (logs : Bool) (stale : Stale) (b : Buffer) (s s' : Session) (sent : List Sent)
    → on_raw logs stale b s ≡ goes_on s' sent
    → KeepsCounts s.router s'.router
unfolding on_raw log_check push_log icmp_forward_log
on_raw-counts logs stale b s s' sent e = ground arith

s3_raw-counts :
    (stale : Stale) (b : Buffer) (s s' : Session) (sent : List Sent)
    → s3_raw stale b s ≡ goes_on s' sent
    → KeepsCounts s.router s'.router
unfolding s3_raw push_log icmp_forward_log
s3_raw-counts stale b s s' sent e = ground arith

s2_udp-counts :
    (stale : Stale) (failed : Bool) (peer : Peer) (b : Buffer) (s s' : Session) (sent : List Sent)
    → s2_udp stale failed peer b s ≡ goes_on s' sent
    → KeepsCounts s.router s'.router
unfolding s2_udp push_log icmp_forward_log
s2_udp-counts stale failed peer b s s' sent e = ground arith

on_hit-counts :
    (stale : Stale) (check : Text) (b : Buffer) (s s' : Session) (sent : List Sent)
    → on_hit stale check b s ≡ goes_on s' sent
    → KeepsCounts s.router s'.router
unfolding on_hit push_log icmp_forward_log
on_hit-counts stale check b s s' sent e = ground arith

on_raw_packet-counts :
    (stale : Stale) (b edited : Buffer) (size : ℕ) (s s' : Session) (sent : List Sent)
    → on_raw_packet stale b edited size s ≡ goes_on s' sent
    → KeepsCounts s.router s'.router
unfolding on_raw_packet push_log icmp_forward_log
on_raw_packet-counts stale b edited size s s' sent e = ground arith

on_control-IsCounting :
    (stale : Stale) (b : Buffer) (s s' : Session) (sent : List Sent)
    → IsCounting s.router
    → on_control stale b s ≡ goes_on s' sent
    → IsCounting s'.router
unfolding on_control
on_control-IsCounting stale b s s' sent i e =
    elim (Option-cases (control_msg stale.msg_bytes b s.router)) [
      | inl fails ↦ absurd (ground arith)
      | inr ((r, none), c) ↦
          let k : r ≡ s'.router = ground arith in
          subst IsCounting k (control_msg-IsCounting stale.msg_bytes b s.router r none i c)
      | inr ((r, some reply), c) ↦
          let k : r ≡ s'.router = ground arith in
          subst IsCounting k (control_msg-IsCounting stale.msg_bytes b s.router r (some reply) i c)
    ]

on_udp-data :
    (logs : Bool) (stale : Stale) (failed : Bool) (peer : Peer) (b : Buffer) (s s' : Session)
    (sent : List Sent)
    → ((icmp_unpack b stale.icmp).0 == 253) ≡ false
    → on_udp logs stale failed peer b s ≡ goes_on s' sent
    → KeepsCounts s.router s'.router
unfolding on_udp
on_udp-data logs stale failed peer b s s' sent p e = ground (
  arith,
  logged b stale.ports stale.icmp from_udp peer.port s.router,
  on_icmp-counts stale
      (if logs then flow_check (entry_of_packet b stale.ports) s.router.flow_table else []) b
      (record s {
        router = (icmp_forward_log b stale.ports stale.icmp from_udp peer.port s.router).1;
        peer = peer;
        refresh = true;
      })
      s' sent,
)

s6_udp-data :
    (stale : Stale) (failed : Bool) (peer : Peer) (b : Buffer) (s s' : Session) (sent : List Sent)
    → ((icmp_unpack b stale.icmp).0 == 253) ≡ false
    → s6_udp stale failed peer b s ≡ goes_on s' sent
    → KeepsCounts s.router s'.router
unfolding s6_udp
s6_udp-data stale failed peer b s s' sent p e = ground (
  arith,
  on_hit-counts stale
      (flow_check_out (entry_of_packet b stale.ports) stale.entry s.router.flow_table).0 b
      (record s { peer = peer; refresh = true }) s' sent,
)

s6_udp-message :
    (stale : Stale) (failed : Bool) (peer : Peer) (b : Buffer) (s s' : Session) (sent : List Sent)
    → ((icmp_unpack b stale.icmp).0 == 253) ≡ true
    → s6_udp stale failed peer b s ≡ goes_on s' sent
    → on_control stale b (record s { peer = peer; refresh = true }) ≡ goes_on s' sent
unfolding s6_udp
s6_udp-message stale failed peer b s s' sent p e = ground arith

on_udp-message :
    (logs : Bool) (stale : Stale) (failed : Bool) (peer : Peer) (b : Buffer) (s s' : Session)
    (sent : List Sent)
    → ((icmp_unpack b stale.icmp).0 == 253) ≡ true
    → on_udp logs stale failed peer b s ≡ goes_on s' sent
    → on_control stale b (record s {
      router = (icmp_forward_log b stale.ports stale.icmp from_udp peer.port s.router).1;
      peer = peer;
      refresh = true;
    })
      ≡ goes_on s' sent
unfolding on_udp
on_udp-message logs stale failed peer b s s' sent p e = ground arith

pub on_udp-IsCounting :
    (logs : Bool) (stale : Stale) (failed : Bool) (peer : Peer) (b : Buffer) (s s' : Session)
    (sent : List Sent)
    → IsCounting s.router
    → on_udp logs stale failed peer b s ≡ goes_on s' sent
    → IsCounting s'.router
on_udp-IsCounting logs stale failed peer b s s' sent i e =
    elim (Bool-cases ((icmp_unpack b stale.icmp).0 == 253)) [
      | inl message ↦
          on_control-IsCounting stale b _ s' sent
            (counts_kept s.router
              (icmp_forward_log b stale.ports stale.icmp from_udp peer.port s.router).1
              (logged b stale.ports stale.icmp from_udp peer.port s.router) i)
            (on_udp-message logs stale failed peer b s s' sent message e)
      | inr other ↦
          counts_kept s.router s'.router (on_udp-data logs stale failed peer b s s' sent other e) i
    ]

pub s6_udp-IsCounting :
    (stale : Stale) (failed : Bool) (peer : Peer) (b : Buffer) (s s' : Session) (sent : List Sent)
    → IsCounting s.router
    → s6_udp stale failed peer b s ≡ goes_on s' sent
    → IsCounting s'.router
s6_udp-IsCounting stale failed peer b s s' sent i e =
    elim (Bool-cases ((icmp_unpack b stale.icmp).0 == 253)) [
      | inl message ↦
          on_control-IsCounting stale b _ s' sent i
            (s6_udp-message stale failed peer b s s' sent message e)
      | inr other ↦
          counts_kept s.router s'.router (s6_udp-data stale failed peer b s s' sent other e) i
    ]

pub on_raw-IsCounting :
    (logs : Bool) (stale : Stale) (b : Buffer) (s s' : Session) (sent : List Sent)
    → IsCounting s.router
    → on_raw logs stale b s ≡ goes_on s' sent
    → IsCounting s'.router
on_raw-IsCounting logs stale b s s' sent i e =
    counts_kept s.router s'.router (on_raw-counts logs stale b s s' sent e) i

pub s3_raw-IsCounting :
    (stale : Stale) (b : Buffer) (s s' : Session) (sent : List Sent)
    → IsCounting s.router
    → s3_raw stale b s ≡ goes_on s' sent
    → IsCounting s'.router
s3_raw-IsCounting stale b s s' sent i e =
    counts_kept s.router s'.router (s3_raw-counts stale b s s' sent e) i

pub s2_udp-IsCounting :
    (stale : Stale) (failed : Bool) (peer : Peer) (b : Buffer) (s s' : Session) (sent : List Sent)
    → IsCounting s.router
    → s2_udp stale failed peer b s ≡ goes_on s' sent
    → IsCounting s'.router
s2_udp-IsCounting stale failed peer b s s' sent i e =
    counts_kept s.router s'.router (s2_udp-counts stale failed peer b s s' sent e) i

pub s6_raw_icmp-IsCounting :
    (stale : Stale) (b : Buffer) (s s' : Session) (sent : List Sent)
    → IsCounting s.router
    → s6_raw_icmp stale b s ≡ goes_on s' sent
    → IsCounting s'.router
unfolding s6_raw_icmp
s6_raw_icmp-IsCounting stale b s s' sent i e =
    counts_kept s.router s'.router (on_raw_packet-counts stale b _ 2048 s s' sent e) i

pub s6_raw_tcp-IsCounting :
    (stale : Stale) (b : Buffer) (s s' : Session) (sent : List Sent)
    → IsCounting s.router
    → s6_raw_tcp stale b s ≡ goes_on s' sent
    → IsCounting s'.router
unfolding s6_raw_tcp
s6_raw_tcp-IsCounting stale b s s' sent i e =
    elim (Option-cases (tcp_reply_edit s.ori_src_addr b)) [
      | inl fails ↦ absurd (ground arith)
      | inr ((edited, size), t) ↦
          counts_kept s.router s'.router
            (on_raw_packet-counts stale b edited size s s' sent (ground arith)) i
    ]

pub second_start-IsCounting :
    (s : Session) → IsCounting s.router → IsCounting (second_start s).router
unfolding second_start push_log
second_start-IsCounting s i = i
