-- ===== src/Router/Chain/Path.antt =====
-- The path of a new flow to port 443, from the primary router's tunnel on.
use simple_sdn.Base.{
  ℕ, true, false, ◌≡◌, ◌≢◌, ◌<◌, ◌%◌, ◌∙◌, ap, refl, List, [], ◌∷◌, ◌++◌, none, Text, Buffer, arith,
  take,
}
use simple_sdn.Octane.{OctaneControl}
use simple_sdn.Flow.{FlowEntry, entry_eq, reverse}
use simple_sdn.Flow.Order.{IsExact}
use simple_sdn.Flow.Table.{flow_check, contains}
use simple_sdn.Flow.Table.Rules.{rule_for}
use simple_sdn.Packet.Header.{ip_p}
use simple_sdn.Packet.Unpack.{Ports, IcmpOut, entry_of_packet, tcp_unpack}
use simple_sdn.Packet.Edit.{from_tunnel}
use simple_sdn.Timers.Timeval.{Timeval}
use simple_sdn.Router.{Router, Peer, Sent, udp, push_log, router_line}
use simple_sdn.Router.Create.{create_octane_msg}
use simple_sdn.Router.Logging.{icmp_forward_log, logged-ip_p}
use simple_sdn.Router.Forward.{localhost}
use simple_sdn.Router.Handler.{Stale, goes_on, non_empty}
use simple_sdn.Router.Primary.{Primary, control_packet}
use simple_sdn.Router.Primary.Packets.{own_rules, log_lines}
use simple_sdn.Router.Primary.Stage6.{tunnel_packet}
use simple_sdn.Router.Primary.Stage7.{s7_tunnel, s7_target, new_chain, announce_chain}
use simple_sdn.Router.Chain.{Node, IsNew, Linked, Forwards, announced, linked, forwards}

log_lines-seqno_cnt : (ls : List Text) (r : Router) → (log_lines ls r).seqno_cnt ≡ r.seqno_cnt
unfolding log_lines push_log
log_lines-seqno_cnt [] r = refl
log_lines-seqno_cnt (l ∷ ls) r = log_lines-seqno_cnt ls (push_log (router_line r l) r)

own_rules-seqno_cnt :
    (stale : Stale) (target : Peer) (b : Buffer) (r : Router)
    → (own_rules stale target b r).seqno_cnt ≡ r.seqno_cnt
unfolding own_rules create_octane_msg
own_rules-seqno_cnt stale target b r = log_lines-seqno_cnt _ _

logged-seqno_cnt :
    (b : Buffer) (ports : Ports) (stale : IcmpOut) (port : ℕ) (r : Router)
    → (icmp_forward_log b ports stale from_tunnel port r).1.seqno_cnt ≡ r.seqno_cnt
unfolding icmp_forward_log push_log
logged-seqno_cnt b ports stale port r = ground arith

check-miss :
    (e : FlowEntry) (r : Router)
    → rule_for e r.flow_table ≡ none
    → non_empty (flow_check e r.flow_table) ≡ false
unfolding flow_check contains rule_for
check-miss e r h = ground arith

-- The primary router with the packet from the tunnel logged.
abbrev seen : Stale → ℕ → Buffer → Primary → Primary
seen stale port1 b p = record p {
  router = (icmp_forward_log b stale.ports stale.icmp from_tunnel port1 p.router).1;
  refresh = true;
}

-- A TCP packet without a rule gets the new flow's rules and then goes to its router.
tunnel_packet-fresh :
    (now : Timeval) (stale : Stale) (check : Text) (port1 port2 : ℕ) (target : Peer)
    (fresh : Primary → Primary × List Sent) (b : Buffer) (junk : ℕ) (p : Primary)
    → ip_p b ≡ 6
    → non_empty check ≡ false
    → let q = fresh (seen stale port1 b p) in
      tunnel_packet now stale false check port1 port2 target fresh b junk p
      ≡ goes_on q.0 (q.1 ++ udp target (take 2048 b) ∷ [])
unfolding tunnel_packet
tunnel_packet-fresh now stale check port1 port2 target fresh b junk p tcp miss =
    ground (arith, logged-ip_p b stale.ports stale.icmp from_tunnel port1 p.router)

-- The primary router with its own rules for the flow.
abbrev ruled : Stale → ℕ → Buffer → Primary → Primary
ruled stale port1 b p = record p { router = own_rules stale (s7_target stale port1 b) b p.router }

new_chain-chain :
    (now : Timeval) (stale : Stale) (port1 port2 : ℕ) (b : Buffer) (junk : ℕ) (p : Primary)
    → tcp_unpack b ≡ 443
    → (new_chain now stale port1 port2 b junk p).1
      ≡ (announce_chain now stale port1 port2 b junk (ruled stale port1 b p)).1
unfolding new_chain
new_chain-chain now stale port1 port2 b junk p https = ground arith

s7_target-first :
    (stale : Stale) (port1 : ℕ) (b : Buffer)
    → tcp_unpack b ≡ 443
    → s7_target stale port1 b ≡ record { addr = localhost; port = port1 }
unfolding s7_target
s7_target-first stale port1 b https = ground arith

ruled-seqno_cnt :
    (stale : Stale) (port1 : ℕ) (b : Buffer) (p : Primary)
    → (ruled stale port1 b (seen stale port1 b p)).router.seqno_cnt ≡ p.router.seqno_cnt
ruled-seqno_cnt stale port1 b p =
    own_rules-seqno_cnt stale (s7_target stale port1 b) b _
    ∙ logged-seqno_cnt b stale.ports stale.icmp port1 p.router

s7_tunnel-chain :
    (now : Timeval) (stale : Stale) (port1 port2 : ℕ) (b : Buffer) (junk : ℕ) (p : Primary)
    → ip_p b ≡ 6
    → tcp_unpack b ≡ 443
    → rule_for (entry_of_packet b stale.ports) p.router.flow_table ≡ none
    → (p' : Primary) × (s7_tunnel now stale false port1 port2 b junk p
        ≡ goes_on p' (
            (announce_chain now stale port1 port2 b junk
              (ruled stale port1 b (seen stale port1 b p))).1
            ++ udp (record { addr = localhost; port = port1 }) (take 2048 b) ∷ []))
unfolding s7_tunnel
s7_tunnel-chain now stale port1 port2 b junk p tcp https miss =
    let (q, sent) = new_chain now stale port1 port2 b junk (seen stale port1 b p) in
    (
      q,
      tunnel_packet-fresh now stale _ port1 port2 (s7_target stale port1 b)
            (new_chain now stale port1 port2 b junk) b junk p tcp
            (check-miss (entry_of_packet b stale.ports) p.router miss)
          ∙ ap (λ t. goes_on q (sent ++ udp t (take 2048 b) ∷ []))
              (s7_target-first stale port1 b https)
          ∙ ap
              (λ out.
                goes_on q
                  (out ++ udp (record { addr = localhost; port = port1 }) (take 2048 b) ∷ []))
              (new_chain-chain now stale port1 port2 b junk (seen stale port1 b p) https),
    )

-- A TCP packet to port 443 whose flow has no rule, from the tunnel, is sent to the first secondary
-- router behind two control messages to it and two to the second. After them, where both routers are
-- new, the first sends packets of the flow to the second and packets of the reverse flow to the
-- primary router, the second sends packets of the reverse flow to the first, and its rule for the
-- flow is to send it out. No field of the flow has all bits set, the flow is not its own reverse, and
-- the ports and the counter of messages fit 16 bits, the ports not being 0.
pub chain_path :
    (now : Timeval) (stale : Stale) (port1 port2 : ℕ) (b packet back : Buffer) (junk : ℕ)
    (p : Primary) (one two : Node)
    → ip_p b ≡ 6
    → tcp_unpack b ≡ 443
    → rule_for (entry_of_packet b stale.ports) p.router.flow_table ≡ none
    → IsExact (entry_of_packet b stale.ports)
    → entry_eq (entry_of_packet b stale.ports) (reverse (entry_of_packet b stale.ports)) ≡ false
    → p.router.seqno_cnt < 65536
    → port1 < 65536
    → port2 < 65536
    → port1 ≢ 0
    → port2 ≢ 0
    → p.port_num % 65536 ≢ 0
    → IsNew one
    → IsNew two
    → ip_p packet ≢ 253
    → entry_of_packet packet one.stale.ports ≡ entry_of_packet b stale.ports
    → ip_p back ≢ 253
    → entry_of_packet back one.stale.ports ≡ reverse (entry_of_packet b stale.ports)
    → entry_of_packet back two.stale.ports ≡ reverse (entry_of_packet b stale.ports)
    → let first : Peer = record { addr = localhost; port = port1 } in
      let second : Peer = record { addr = localhost; port = port2 } in
      (p' : Primary) × (m1 : OctaneControl) × (m2 : OctaneControl) × (m3 : OctaneControl)
      × (m4 : OctaneControl) × (s7_tunnel now stale false port1 port2 b junk p
          ≡ goes_on p' (
              udp first (control_packet junk m1)
              ∷ udp first (control_packet junk m2)
              ∷ udp second (control_packet junk m3)
              ∷ udp second (control_packet junk m4)
              ∷ udp first (take 2048 b)
              ∷ []))
      × ((l1 : Linked one m1 m2 junk (entry_of_packet b stale.ports) port2 (p.port_num % 65536))
          × Forwards one.stale one.peer packet l1.after port2
          × Forwards one.stale one.peer back l1.after (p.port_num % 65536))
      × ((l2 : Linked two m3 m4 junk (entry_of_packet b stale.ports) 0 port1) × Forwards two.stale
            two.peer back l2.after port1)
chain_path now stale port1 port2 b packet back junk p one two tcp https miss x other n q1 q2 z1 z2
      zp new1 new2 np same nb back1 back2 =
    let e = entry_of_packet b stale.ports in
    let p0 = ruled stale port1 b (seen stale port1 b p) in
    let (m1, m2, m3, m4, sent, pair1, pair2) =
      announced now stale port1 port2 b junk p0 x
        (ground (arith, ruled-seqno_cnt stale port1 b p, n)) q1 q2 in
    let (p', runs) = s7_tunnel-chain now stale port1 port2 b junk p tcp https miss in
    let l1 = linked one m1 m2 junk e port2 (p.port_num % 65536) new1 pair1 x other in
    let l2 = linked two m3 m4 junk e 0 port1 new2 pair2 x other in
    (
      p',
      m1,
      m2,
      m3,
      m4,
      runs
          ∙ ap
              (λ out.
                goes_on p'
                  (out ++ udp (record { addr = localhost; port = port1 }) (take 2048 b) ∷ []))
              sent,
      (
        l1,
        forwards one.stale one.peer packet l1.after port2 np
            (ap (λ k. rule_for k l1.after.router.flow_table) same ∙ l1.rule) z2,
        forwards one.stale one.peer back l1.after (p.port_num % 65536) nb
            (ap (λ k. rule_for k l1.after.router.flow_table) back1 ∙ l1.back_rule) zp,
      ),
      (
        l2,
        forwards two.stale two.peer back l2.after port1 nb
            (ap (λ k. rule_for k l2.after.router.flow_table) back2 ∙ l2.back_rule) z1,
      ),
    )
