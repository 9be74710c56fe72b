-- ===== src/Router/Second/Ruled/Install.antt =====
-- A control message and the packets of its flow after it.
use simple_sdn.Base.{ℕ, Bool, true, false, ◌≡◌, ◌≢◌, ◌∙◌, ap, [], ◌∷◌, some, Buffer, take, arith}
use simple_sdn.StdMap.Laws.{Keys}
use simple_sdn.Octane.{OctaneControl}
use simple_sdn.Flow.{FlowEntry, entry_of_msg, action_of_msg, entry_eq}
use simple_sdn.Flow.Order.{HasKind}
use simple_sdn.Flow.Table.{insert}
use simple_sdn.Flow.Table.Rules.{rule_for, rule_for-insert}
use simple_sdn.Packet.Header.{ip_p}
use simple_sdn.Packet.Unpack.{entry_of_packet, octane_unpack}
use simple_sdn.Packet.Edit.{octane_reply_edit}
use simple_sdn.Router.{Router, Peer, udp, push_log}
use simple_sdn.Router.Control.{accept_msg, drop_counted}
use simple_sdn.Router.Control.Acks.{is_dropped, control_msg-accepts}
use simple_sdn.Router.Forward.{localhost}
use simple_sdn.Router.Handler.{Stale, goes_on}
use simple_sdn.Router.Second.{Session, on_control}
use simple_sdn.Router.Second.Ruled.{s6_udp}
use simple_sdn.Router.Second.Ruled.Rules.{icmp_unpack-ip_p, s6_udp-forwards}

pub accept_msg-flow_table :
    (m : OctaneControl) (r : Router) → (accept_msg m r).flow_table ≡ (insert m r.flow_table).0
unfolding accept_msg drop_counted push_log
accept_msg-flow_table m r = ground arith

pub same_entry : (e : FlowEntry) → entry_eq e e ≡ true
unfolding entry_eq
same_entry e = ground arith

pub rule_for-accept_msg :
    (w : Bool) (m : OctaneControl) (r : Router)
    → HasKind w (entry_of_msg m)
    → Keys (HasKind w) r.flow_table
    → rule_for (entry_of_msg m) (accept_msg m r).flow_table ≡ some (action_of_msg m)
rule_for-accept_msg w m r k ks =
    ap (rule_for (entry_of_msg m)) (accept_msg-flow_table m r)
    ∙ rule_for-insert w (entry_of_msg m) m r.flow_table k k ks
    ∙ ground (arith, same_entry (entry_of_msg m))

pub on_control-accepts :
    (stale : Stale) (b : Buffer) (s : Session) (seqno : ℕ) (m : OctaneControl)
    → octane_unpack b stale.msg_bytes ≡ some (seqno, m)
    → is_dropped m s.router ≡ false
    → on_control stale b s
      ≡ goes_on
          (record s { router = accept_msg m s.router })
          (udp s.peer (octane_reply_edit b) ∷ [])
unfolding on_control
on_control-accepts stale b s seqno m u d =
    ground (arith, control_msg-accepts stale.msg_bytes b s.router seqno m u d)

pub s6_udp-control :
    (stale : Stale) (peer : Peer) (b : Buffer) (s : Session)
    → ip_p b ≡ 253
    → s6_udp stale false peer b s ≡ on_control stale b (record s { peer = peer; refresh = true })
unfolding s6_udp
s6_udp-control stale peer b s p = ground (arith, icmp_unpack-ip_p b stale.icmp)

-- A control message with the action 1 and a port that is not 0, which is not dropped, is
-- acknowledged, and the next packet of its flow is sent as it is to that port of the same machine,
-- where the message's flow and the table's flows are of one kind.
pub s6_udp-installs :
    (w : Bool) (stale : Stale) (peer : Peer) (b packet : Buffer) (s : Session) (seqno : ℕ)
    (m : OctaneControl)
    → ip_p b ≡ 253
    → octane_unpack b stale.msg_bytes ≡ some (seqno, m)
    → is_dropped m s.router ≡ false
    → m.octane_action ≡ 1
    → m.octane_port ≢ 0
    → HasKind w (entry_of_msg m)
    → Keys (HasKind w) s.router.flow_table
    → ip_p packet ≢ 253
    → entry_of_packet packet stale.ports ≡ entry_of_msg m
    → (s' : Session) × (s6_udp stale false peer b s
        ≡ goes_on s' (udp peer (octane_reply_edit b) ∷ []))
      × ((s'' : Session) × (s6_udp stale false peer packet s'
            ≡ goes_on s''
                (udp (record { addr = localhost; port = m.octane_port }) (take 65500 packet) ∷ [])))
unfolding action_of_msg
s6_udp-installs w stale peer b packet s seqno m p u d act port k ks p' same =
    let s' : Session = record s { peer = peer; refresh = true; router = accept_msg m s.router } in
    (
      s',
      s6_udp-control stale peer b s p
          ∙ on_control-accepts stale b (record s { peer = peer; refresh = true }) seqno m u d,
      (
        _,
        s6_udp-forwards stale peer packet s' (action_of_msg m) p'
            (ap (λ e. rule_for e s'.router.flow_table) same ∙ rule_for-accept_msg w m s.router k ks)
            act port,
      ),
    )
