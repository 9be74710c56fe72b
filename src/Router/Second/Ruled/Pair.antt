-- ===== src/Router/Second/Ruled/Pair.antt =====
-- The two control messages of a flow and its reverse, at a secondary router of stage 6 that has got
-- no message before.
use simple_sdn.Base.{
  map, ℕ, Bool, true, false, ◌≡◌, ◌≢◌, ◌∙◌, ap, refl, List, [], ◌∷◌, ◌++◌, some, Buffer, arith,
  length,
}
use simple_sdn.StdMap
use simple_sdn.StdMap.Laws.{Keys, Keys-assign}
use simple_sdn.Octane.{OctaneControl}
use simple_sdn.Octane.Bytes.{IsMsg}
use simple_sdn.Octane.Order.{octane_lt_irrefl}
use simple_sdn.Flow.{entry_of_msg, action_of_msg, entry_lt, entry_eq}
use simple_sdn.Flow.Order.{HasKind, entry_lt-IsStrictOrder}
use simple_sdn.Flow.Table.{FlowTable, insert}
use simple_sdn.Flow.Table.Rules.{rule_for, rule_for-insert}
use simple_sdn.Packet.Edit.{octane_reply_edit}
use simple_sdn.Router.{Router, Peer, Sent, udp, push_log}
use simple_sdn.Router.Control.{accept_msg, drop_counted, count_msg, subscript}
use simple_sdn.Router.Control.Acks.{is_dropped}
use simple_sdn.Router.Handler.{Stale, Handled, goes_on, run_ready}
use simple_sdn.Router.Second.{Session}
use simple_sdn.Router.Second.Ruled.{s6_udp}
use simple_sdn.Router.Second.Ruled.Install.{
  on_control-accepts, s6_udp-control, accept_msg-flow_table, same_entry,
}
use simple_sdn.Router.Primary.{control_packet}
use simple_sdn.Router.Primary.Message.{control_packet-ip_p, octane_unpack-control_packet}

-- A router that has got no control message, and that drops none after its first coming.
pub record IsFresh (r : Router) : Type 0 where
  pub msg_count : r.msg_count ≡ []
  pub dropped_msg : r.dropped_msg ≡ []
  pub drop_after : r.drop_after ≢ 1

accept_msg-dropped_msg :
    (m : OctaneControl) (r : Router) → IsFresh r → (accept_msg m r).dropped_msg ≡ []
unfolding accept_msg drop_counted count_msg subscript push_log StdMap.find StdMap.assign
accept_msg-dropped_msg m r f =
    ground (arith, f.msg_count, f.dropped_msg, f.drop_after, octane_lt_irrefl m)

not_dropped : (m : OctaneControl) (r : Router) → r.dropped_msg ≡ [] → is_dropped m r ≡ false
unfolding is_dropped StdMap.find
not_dropped m r h = ground arith

abbrev pub accepted : Peer → OctaneControl → Session → Session
accepted peer m s = record s { peer = peer; refresh = true; router = accept_msg m s.router }

pub s6_udp-accepts :
    (stale : Stale) (peer : Peer) (junk : ℕ) (m : OctaneControl) (s : Session)
    → IsMsg m
    → length stale.msg_bytes ≡ 20
    → is_dropped m s.router ≡ false
    → s6_udp stale false peer (control_packet junk m) s
      ≡ goes_on (accepted peer m s) (udp peer (octane_reply_edit (control_packet junk m)) ∷ [])
s6_udp-accepts stale peer junk m s v bytes d =
    s6_udp-control stale peer (control_packet junk m) s (control_packet-ip_p junk m)
    ∙ on_control-accepts stale (control_packet junk m) (record s { peer = peer; refresh = true })
        m.octane_seqno m (octane_unpack-control_packet junk m stale.msg_bytes v bytes) d

-- The packets from a peer, one after the other.
abbrev pub deliver : Stale → Peer → List Buffer → Session → Handled Session
deliver stale peer bs s = run_ready (map (λ b. s6_udp stale false peer b) bs) s

deliver-two :
    (stale : Stale) (peer : Peer) (b b' : Buffer) (s s' s'' : Session) (sent sent' : List Sent)
    → s6_udp stale false peer b s ≡ goes_on s' sent
    → s6_udp stale false peer b' s' ≡ goes_on s'' sent'
    → deliver stale peer (b ∷ b' ∷ []) s ≡ goes_on s'' (sent ++ (sent' ++ []))
unfolding run_ready
deliver-two stale peer b b' s s' s'' sent sent' p q = rw (p, run_ready) (rw (q, run_ready) refl)

insert-Keys :
    (w : Bool) (m : OctaneControl) (t : FlowTable)
    → HasKind w (entry_of_msg m)
    → Keys (HasKind w) t
    → Keys (HasKind w) (insert m t).0
unfolding insert
insert-Keys w m t k ks =
    Keys-assign entry_lt (HasKind w) (entry_lt-IsStrictOrder w) (entry_of_msg m) (action_of_msg m) t
      k ks

-- The rules of both messages, in the table that the second leaves.
rules-two :
    (w : Bool) (m m' : OctaneControl) (r : Router)
    → HasKind w (entry_of_msg m)
    → HasKind w (entry_of_msg m')
    → Keys (HasKind w) r.flow_table
    → entry_eq (entry_of_msg m) (entry_of_msg m') ≡ false
    → (rule_for (entry_of_msg m) (accept_msg m' (accept_msg m r)).flow_table
        ≡ some (action_of_msg m))
      × (rule_for (entry_of_msg m') (accept_msg m' (accept_msg m r)).flow_table
          ≡ some (action_of_msg m'))
rules-two w m m' r k k' ks other =
    let t1 : FlowTable = (insert m r.flow_table).0 in
    let two : (accept_msg m' (accept_msg m r)).flow_table ≡ (insert m' t1).0 =
      accept_msg-flow_table m' (accept_msg m r)
      ∙ ap (λ t. (insert m' t).0) (accept_msg-flow_table m r) in
    let ks1 = insert-Keys w m r.flow_table k ks in
    (
      ap (rule_for (entry_of_msg m)) two
          ∙ rule_for-insert w (entry_of_msg m) m' t1 k k' ks1
          ∙ ground (
            arith,
            other,
            same_entry (entry_of_msg m),
            rule_for-insert w (entry_of_msg m) m r.flow_table k k ks,
          ),
      ap (rule_for (entry_of_msg m')) two
          ∙ rule_for-insert w (entry_of_msg m') m' t1 k' k' ks1
          ∙ ground (arith, same_entry (entry_of_msg m')),
    )

-- A router that has got no message, told to keep no message after its first coming, has the rules of
-- both messages after both packets.
pub pair-rules :
    (w : Bool) (stale : Stale) (peer : Peer) (junk : ℕ) (m m' : OctaneControl) (s : Session)
    → IsMsg m
    → IsMsg m'
    → length stale.msg_bytes ≡ 20
    → IsFresh s.router
    → HasKind w (entry_of_msg m)
    → HasKind w (entry_of_msg m')
    → Keys (HasKind w) s.router.flow_table
    → entry_eq (entry_of_msg m) (entry_of_msg m') ≡ false
    → (s' : Session) × (sent : List Sent) × (deliver stale peer
          (control_packet junk m ∷ control_packet junk m' ∷ [])
          s
        ≡ goes_on s' sent)
      × (rule_for (entry_of_msg m) s'.router.flow_table ≡ some (action_of_msg m))
      × (rule_for (entry_of_msg m') s'.router.flow_table ≡ some (action_of_msg m'))
pair-rules w stale peer junk m m' s v v' bytes f k k' ks other =
    let s1 = accepted peer m s in
    let (one, two) = rules-two w m m' s.router k k' ks other in
    (
      accepted peer m' s1,
      _,
      deliver-two stale peer (control_packet junk m) (control_packet junk m') s s1 _ _ _
          (s6_udp-accepts stale peer junk m s v bytes (not_dropped m s.router f.dropped_msg))
          (s6_udp-accepts stale peer junk m' s1 v' bytes
            (not_dropped m' s1.router (accept_msg-dropped_msg m s.router f))),
      one,
      two,
    )
