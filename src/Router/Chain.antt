-- ===== src/Router/Chain.antt =====
-- Stage 7 of the primary router and two secondary routers together: the chain that a new flow to
-- port 443 takes.
pub mod Path
use simple_sdn.Base.{
  ℕ, Bool, true, false, ◌≡◌, ◌≢◌, ◌<◌, ◌+◌, ◌%◌, ◌==◌, ◌∙◌, ap, sym, refl, if◌then◌else◌, List, [],
  ◌∷◌, none, some, Buffer, arith, length, take, inl,
}
use simple_sdn.StdMap.Laws.{Keys}
use simple_sdn.Octane.{OctaneControl}
use simple_sdn.Octane.Bytes.{IsMsg}
use simple_sdn.Flow.{FlowEntry, FlowAction, entry_of_msg, action_of_msg, entry_eq, reverse}
use simple_sdn.Flow.Order.{HasKind, IsExact, reverse-HasKind}
use simple_sdn.Flow.Table.Rules.{rule_for}
use simple_sdn.Packet.Header.{ip_p}
use simple_sdn.Packet.Unpack.{Ports, entry_of_packet}
use simple_sdn.Timers.Timeval.{Timeval}
use simple_sdn.Router.{Router, Peer, Sent, udp}
use simple_sdn.Router.Create.{
  create_octane_msg, create_reverse_octane_msg, next_seqno, create_octane_msg_lem,
}
use simple_sdn.Router.Forward.{localhost}
use simple_sdn.Router.Handler.{Stale, Handled, goes_on}
use simple_sdn.Router.Second.{Session}
use simple_sdn.Router.Second.Ruled.{s6_udp}
use simple_sdn.Router.Second.Ruled.Rules.{s6_udp-forwards}
use simple_sdn.Router.Second.Ruled.Pair.{IsFresh, deliver, pair-rules}
use simple_sdn.Router.Primary.{Primary, control_packet}
use simple_sdn.Router.Primary.Stage7.{announce_chain}

-- A message created for a packet and the one that reverses it.
pub record IsPair (e : FlowEntry) (port back : ℕ) (m m' : OctaneControl) : Type 0 where
  pub msg : IsMsg m
  pub rev : IsMsg m'
  pub flow : entry_of_msg m ≡ e
  pub back_flow : entry_of_msg m' ≡ reverse e
  pub action : action_of_msg m ≡ record { fwd_port = port; action = 1 }
  pub back_action : action_of_msg m' ≡ record { fwd_port = back; action = 1 }

created-IsPair :
    (b : Buffer) (ports : Ports) (port back : ℕ) (r : Router)
    → IsExact (entry_of_packet b ports)
    → r.seqno_cnt < 65536
    → port < 65536
    → back < 65536
    → let ((m, n), r') = create_octane_msg b ports 1 port true r in
      let ((m', n'), r'') = create_reverse_octane_msg m back true r' in
      IsPair (entry_of_packet b ports) port back m m'
unfolding create_octane_msg create_reverse_octane_msg entry_of_packet entry_of_msg action_of_msg
    reverse next_seqno
created-IsPair b ports port back r x n p q = record {
  msg = record {
    action = ground arith;
    flags = ground arith;
    seqno = n;
    source_ip = ground (arith, x.src_ip);
    dest_ip = ground (arith, x.dst_ip);
    source_port = ground (arith, x.src_port);
    dest_port = ground (arith, x.dst_port);
    protocol = ground (arith, x.protocol);
    port = p;
  };
  rev = record {
    action = ground arith;
    flags = ground arith;
    seqno = ground arith;
    source_ip = ground (arith, x.dst_ip);
    dest_ip = ground (arith, x.src_ip);
    source_port = ground (arith, x.dst_port);
    dest_port = ground (arith, x.src_port);
    protocol = ground (arith, x.protocol);
    port = q;
  };
  flow = refl;
  back_flow = refl;
  action = refl;
  back_action = refl;
}

-- A secondary router that has got no message installs the rules of such a pair.
pair-installs :
    (stale : Stale) (peer : Peer) (junk port back : ℕ) (e : FlowEntry) (m m' : OctaneControl)
    (s : Session)
    → IsPair e port back m m'
    → IsExact e
    → entry_eq e (reverse e) ≡ false
    → length stale.msg_bytes ≡ 20
    → IsFresh s.router
    → Keys (HasKind false) s.router.flow_table
    → (s' : Session) × (sent : List Sent) × (deliver stale peer
          (control_packet junk m ∷ control_packet junk m' ∷ [])
          s
        ≡ goes_on s' sent)
      × (rule_for e s'.router.flow_table ≡ some (record { fwd_port = port; action = 1 }))
      × (rule_for (reverse e) s'.router.flow_table ≡ some (record { fwd_port = back; action = 1 }))
pair-installs stale peer junk port back e m m' s pair x other bytes f ks =
    let k : HasKind false (entry_of_msg m) = rw pair.flow (inl x) in
    let k' : HasKind false (entry_of_msg m') =
      rw pair.back_flow (reverse-HasKind false e (inl x)) in
    let o : entry_eq (entry_of_msg m) (entry_of_msg m') ≡ false =
      rw pair.flow (rw pair.back_flow other) in
    let (s', sent, runs, one, two) =
      pair-rules false stale peer junk m m' s pair.msg pair.rev bytes f k k' ks o in
    (
      s',
      sent,
      runs,
      ap (λ k. rule_for k s'.router.flow_table) (sym pair.flow) ∙ one ∙ ap some pair.action,
      ap (λ k. rule_for k s'.router.flow_table) (sym pair.back_flow)
          ∙ two
          ∙ ap some pair.back_action,
    )

-- The packet is sent as it is to the port of the same machine, and nothing else is sent.
abbrev pub Forwards : Stale → Peer → Buffer → Session → ℕ → Type 0
Forwards stale peer packet s port =
    (s' : Session) × (s6_udp stale false peer packet s
      ≡ goes_on s' (udp (record { addr = localhost; port = port }) (take 65500 packet) ∷ []))

pub forwards :
    (stale : Stale) (peer : Peer) (packet : Buffer) (s : Session) (port : ℕ)
    → ip_p packet ≢ 253
    → rule_for (entry_of_packet packet stale.ports) s.router.flow_table
      ≡ some (record { fwd_port = port; action = 1 })
    → port ≢ 0
    → Forwards stale peer packet s port
forwards stale peer packet s port p h n = (_, s6_udp-forwards stale peer packet s _ p h refl n)

-- A secondary router, its uninitialised locals and the two peers that it gets packets from.
pub record Node : Type 0 where
  pub stale : Stale
  pub primary : Peer
  pub peer : Peer
  pub session : Session

-- It has got no message, drops none after its first coming, and its table has flows without a field
-- of all bits set and the default rule at most.
pub record IsNew (n : Node) : Type 0 where
  pub msg_bytes : length n.stale.msg_bytes ≡ 20
  pub fresh : IsFresh n.session.router
  pub rules : Keys (HasKind false) n.session.router.flow_table

-- The two messages leave the node with rules that send a flow to `port` and its reverse to `back`.
pub record Linked (n : Node) (m m' : OctaneControl) (junk : ℕ) (e : FlowEntry) (port back : ℕ)
    : Type 0 where
  pub after : Session
  pub acks : List Sent
  pub runs :
      deliver n.stale n.primary (control_packet junk m ∷ control_packet junk m' ∷ []) n.session
      ≡ goes_on after acks
  pub rule : rule_for e after.router.flow_table ≡ some (record { fwd_port = port; action = 1 })
  pub back_rule :
      rule_for (reverse e) after.router.flow_table ≡ some (record { fwd_port = back; action = 1 })

pub linked :
    (n : Node) (m m' : OctaneControl) (junk : ℕ) (e : FlowEntry) (port back : ℕ)
    → IsNew n
    → IsPair e port back m m'
    → IsExact e
    → entry_eq e (reverse e) ≡ false
    → Linked n m m' junk e port back
linked n m m' junk e port back new pair x other =
    let (s', sent, runs, one, two) =
      pair-installs n.stale n.primary junk port back e m m' n.session pair x other new.msg_bytes
        new.fresh new.rules in
    record { after = s'; acks = sent; runs = runs; rule = one; back_rule = two }

pub announced :
    (now : Timeval) (stale : Stale) (port1 port2 : ℕ) (b : Buffer) (junk : ℕ) (p : Primary)
    → IsExact (entry_of_packet b stale.ports)
    → p.router.seqno_cnt < 65536
    → port1 < 65536
    → port2 < 65536
    → let first : Peer = record { addr = localhost; port = port1 } in
      let second : Peer = record { addr = localhost; port = port2 } in
      let e = entry_of_packet b stale.ports in
      (m1 : OctaneControl) × (m2 : OctaneControl) × (m3 : OctaneControl) × (m4 : OctaneControl)
      × ((announce_chain now stale port1 port2 b junk p).1
          ≡ udp first (control_packet junk m1)
            ∷ udp first (control_packet junk m2)
            ∷ udp second (control_packet junk m3)
            ∷ udp second (control_packet junk m4)
            ∷ [])
      × IsPair e port2 (p.port_num % 65536) m1 m2
      × IsPair e 0 port1 m3 m4
unfolding announce_chain
announced now stale port1 port2 b junk p x n q1 q2 =
    let back = p.port_num % 65536 in
    let r2 =
      (create_reverse_octane_msg (create_octane_msg b stale.ports 1 port2 true p.router).0.0 back
        true (create_octane_msg b stale.ports 1 port2 true p.router).1).1 in
    (
      _,
      _,
      _,
      _,
      refl,
      created-IsPair b stale.ports port2 back p.router x n q2 (omega arith),
      created-IsPair b stale.ports 0 port1 r2 x
          ((create_octane_msg_lem b stale.ports 1 port2 back p.router n).5) (omega arith) q1,
    )
