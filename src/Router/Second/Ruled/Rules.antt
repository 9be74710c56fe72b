-- ===== src/Router/Second/Ruled/Rules.antt =====
-- What stage 6 of the secondary router does with a packet by the rule that it hits.
use simple_sdn.Base.{
  ap, ◌∙◌, ℕ, Bool, true, false, ◌≡◌, ◌≢◌, if◌then◌else◌, List, [], ◌∷◌, ◌++◌, none, some, Text,
  text, to_string, Buffer, take, arith,
}
use simple_sdn.Flow.{FlowEntry, FlowAction}
use simple_sdn.Flow.Table.{contains_out, flow_check_out}
use simple_sdn.Flow.Table.Rules.{rule_for}
use simple_sdn.Packet.Header.{ip_p}
use simple_sdn.Packet.Unpack.{Ports, IcmpOut, icmp_unpack, entry_of_packet}
use simple_sdn.Packet.Edit.{from_udp}
use simple_sdn.Router.{Router, Peer, Sent, udp, push_log, router_line}
use simple_sdn.Router.Logging.{icmp_forward_log}
use simple_sdn.Router.Forward.{sent_to, Ruling, octane_rules_controller, forward_rule, localhost}
use simple_sdn.Router.Handler.{Stale, goes_on, non_empty}
use simple_sdn.Router.Second.{Session}
use simple_sdn.Router.Second.Ruled.{s6_udp, on_hit, external_addr, is_sent_out}

pub icmp_unpack-ip_p : (b : Buffer) (stale : IcmpOut) → (icmp_unpack b stale).0 ≡ ip_p b
unfolding icmp_unpack
icmp_unpack-ip_p b stale = ground arith

-- Logging changes nothing that decides about packets.
record Same (r r' : Router) : Type 0 where
  stage : r.stage ≡ r'.stage
  router_id : r.router_id ≡ r'.router_id
  flow_table : r.flow_table ≡ r'.flow_table
  msg_count : r.msg_count ≡ r'.msg_count
  dropped_msg : r.dropped_msg ≡ r'.dropped_msg

log-Same :
    (b : Buffer) (ports : Ports) (stale : IcmpOut) (port : ℕ) (r : Router)
    → Same (icmp_forward_log b ports stale from_udp port r).1 r
unfolding icmp_forward_log push_log
log-Same b ports stale port r = record {
  stage = ground arith;
  router_id = ground arith;
  flow_table = ground arith;
  msg_count = ground arith;
  dropped_msg = ground arith;
}

check-hit :
    (e stale : FlowEntry) (r : Router) (a : FlowAction)
    → rule_for e r.flow_table ≡ some a
    → non_empty (flow_check_out e stale r.flow_table).0 ≡ true
unfolding flow_check_out contains_out rule_for
check-hit e stale r a h = ground arith

pub check-miss :
    (e stale : FlowEntry) (r : Router)
    → rule_for e r.flow_table ≡ none
    → non_empty (flow_check_out e stale r.flow_table).0 ≡ false
unfolding flow_check_out contains_out rule_for
check-miss e stale r h = ground arith

on_hit-keeps :
    (stale : Stale) (check : Text) (b : Buffer) (s s' : Session) (sent : List Sent)
    → on_hit stale check b s ≡ goes_on s' sent
    → (s'.router.flow_table ≡ s.router.flow_table)
      × (s'.router.msg_count ≡ s.router.msg_count)
      × (s'.router.dropped_msg ≡ s.router.dropped_msg)
unfolding on_hit push_log
on_hit-keeps stale check b s s' sent h =
    let same = log-Same b stale.ports stale.icmp s.peer.port s.router in
    ground (arith, same.flow_table, same.msg_count, same.dropped_msg)

-- A packet that is no control message, when its handler goes on, leaves the flow table and the
-- counts of messages as they are, also when it hits a rule with the action 4, which is to remove
-- the rule.
pub s6_udp-keeps :
    (stale : Stale) (failed : Bool) (peer : Peer) (b : Buffer) (s s' : Session) (sent : List Sent)
    → ip_p b ≢ 253
    → s6_udp stale failed peer b s ≡ goes_on s' sent
    → (s'.router.flow_table ≡ s.router.flow_table)
      × (s'.router.msg_count ≡ s.router.msg_count)
      × (s'.router.dropped_msg ≡ s.router.dropped_msg)
unfolding s6_udp
s6_udp-keeps stale failed peer b s s' sent p h = ground (
  arith,
  icmp_unpack-ip_p b stale.icmp,
  on_hit-keeps stale
      (flow_check_out (entry_of_packet b stale.ports) stale.entry s.router.flow_table).0 b
      (record s { peer = peer; refresh = true }) s' sent,
)

-- A packet that is no control message and hits no rule is dropped: nothing is sent or logged and
-- the timeout is not refreshed.
pub s6_udp-miss :
    (stale : Stale) (peer : Peer) (b : Buffer) (s : Session)
    → ip_p b ≢ 253
    → rule_for (entry_of_packet b stale.ports) s.router.flow_table ≡ none
    → s6_udp stale false peer b s ≡ goes_on (record s { peer = peer; refresh = false }) []
unfolding s6_udp
s6_udp-miss stale peer b s p h = ground (
  arith,
  icmp_unpack-ip_p b stale.icmp,
  check-miss (entry_of_packet b stale.ports) stale.entry s.router h,
)

forwarded :
    (stale : Stale) (e : FlowEntry) (a : FlowAction) (r : Router) (b : Buffer) (size own : ℕ)
    (peer : Peer)
    → rule_for e r.flow_table ≡ some a
    → a.action ≡ 1
    → a.fwd_port ≢ 0
    → octane_rules_controller stale.action stale.icmp e r b size peer own
      ≡ some (record {
        ruled = sent_to a.fwd_port;
        sent = udp (record { addr = localhost; port = a.fwd_port }) (take size b) ∷ [];
        copy = r.flow_table;
      })
unfolding octane_rules_controller forward_rule rule_for
forwarded stale e a r b size own peer h act port = ground arith

rule_for-Same :
    (e : FlowEntry) (r r' : Router) → Same r' r → rule_for e r'.flow_table ≡ rule_for e r.flow_table
rule_for-Same e r r' same = ap (rule_for e) same.flow_table

on_hit-ruled :
    (stale : Stale) (check : Text) (b : Buffer) (s : Session) (ruling : Ruling)
    → let r = (icmp_forward_log b stale.ports stale.icmp from_udp s.peer.port s.router).1 in
      octane_rules_controller stale.action stale.icmp
          (entry_of_packet b stale.ports)
          r
          b
          65500
          s.peer
          (external_addr stale.addr r.router_id)
        ≡ some ruling
      → on_hit stale check b s
        ≡ goes_on
            (record s {
              router = push_log (router_line r check) r;
              ori_src_addr =
                  if is_sent_out ruling.ruled
                  then (icmp_unpack b stale.icmp).1.src_addr
                  else s.ori_src_addr;
            })
            ruling.sent
unfolding on_hit
on_hit-ruled stale check b s ruling h = ground arith

s6_udp-on_hit :
    (stale : Stale) (peer : Peer) (b : Buffer) (s : Session) (a : FlowAction)
    → ip_p b ≢ 253
    → rule_for (entry_of_packet b stale.ports) s.router.flow_table ≡ some a
    → s6_udp stale false peer b s
      ≡ on_hit stale
          (flow_check_out (entry_of_packet b stale.ports) stale.entry s.router.flow_table).0
          b
          (record s { peer = peer; refresh = true })
unfolding s6_udp
s6_udp-on_hit stale peer b s a p h = ground (
  arith,
  icmp_unpack-ip_p b stale.icmp,
  check-hit (entry_of_packet b stale.ports) stale.entry s.router a h,
)

router_line-Same : (t : Text) (r r' : Router) → Same r' r → router_line r' t ≡ router_line r t
unfolding router_line
router_line-Same t r r' same = ap (λ n. text "router: " ++ to_string n ++ t) same.router_id

-- A packet that is no control message and hits a rule with the action 1 and a port that is not 0 is
-- sent as it is to that port of the same machine and nowhere else; the hit is logged last and
-- the timeout refreshed.
pub s6_udp-forwards :
    (stale : Stale) (peer : Peer) (b : Buffer) (s : Session) (a : FlowAction)
    → ip_p b ≢ 253
    → rule_for (entry_of_packet b stale.ports) s.router.flow_table ≡ some a
    → a.action ≡ 1
    → a.fwd_port ≢ 0
    → s6_udp stale false peer b s
      ≡ goes_on
          (record {
            router =
                push_log
                  (router_line s.router
                    (flow_check_out
                      (entry_of_packet b stale.ports)
                      stale.entry
                      s.router.flow_table).0)
                  (icmp_forward_log b stale.ports stale.icmp from_udp peer.port s.router).1;
            ori_src_addr = s.ori_src_addr;
            peer = peer;
            refresh = true;
          })
          (udp (record { addr = localhost; port = a.fwd_port }) (take 65500 b) ∷ [])
s6_udp-forwards stale peer b s a p h act port =
    let same = log-Same b stale.ports stale.icmp peer.port s.router in
    let r = (icmp_forward_log b stale.ports stale.icmp from_udp peer.port s.router).1 in
    let e = entry_of_packet b stale.ports in
    let check = (flow_check_out e stale.entry s.router.flow_table).0 in
    s6_udp-on_hit stale peer b s a p h
    ∙ on_hit-ruled stale check b (record s { peer = peer; refresh = true }) _
        (forwarded stale e a r b 65500 (external_addr stale.addr r.router_id) peer
          (rule_for-Same e s.router r same ∙ h) act port)
    ∙ ap
        (λ l.
          goes_on
            (record {
              router = push_log l r;
              ori_src_addr = s.ori_src_addr;
              peer = peer;
              refresh = true;
            })
            (udp (record { addr = localhost; port = a.fwd_port }) (take 65500 b) ∷ []))
        (router_line-Same check s.router r same)
