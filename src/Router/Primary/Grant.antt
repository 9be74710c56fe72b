-- ===== src/Router/Primary/Grant.antt =====
-- The flow table of stage 9 after the portal's grant.
use simple_sdn.Base.{
  ℕ, Bool, true, ◌≡◌, ◌≢◌, refl, [], ◌∷◌, ◌∙◌, ap, if◌then◌else◌, List, none, some, Text, Buffer,
  arith,
}
use simple_sdn.StdMap.Laws.{Keys}
use simple_sdn.StdMap.Sorted.{IsSorted, erase-IsSorted, Keys-erase}
use simple_sdn.Octane.{OctaneControl}
use simple_sdn.Flow.{FlowEntry, entry_of_msg, action_of_msg, reverse, entry_lt, entry_eq}
use simple_sdn.Flow.Order.{HasKind}
use simple_sdn.Flow.Table.{FlowTable, remove, reverse_action}
use simple_sdn.Flow.Table.Rules.{rule_for, rule_for-db_insert, rule_for-remove}
use simple_sdn.Packet.Unpack.{octane_unpack}
use simple_sdn.Router.{Router, Sent, push_log, router_line}
use simple_sdn.Router.Handler.{Stale, goes_on}
use simple_sdn.Router.Primary.Packets.{log_lines}
use simple_sdn.Router.Primary.Stage9.{
  Gate, grant_rules, granted, on_grant, s9_control, acknowledged_if,
}

remove-Keys :
    (w : Bool) (m : OctaneControl) (t : FlowTable)
    → Keys (HasKind w) t
    → Keys (HasKind w) (remove m t).0
unfolding remove
remove-Keys w m t = Keys-erase entry_lt (HasKind w) (entry_of_msg m) t

remove-IsSorted :
    (m : OctaneControl) (t : FlowTable) → IsSorted entry_lt t → IsSorted entry_lt (remove m t).0
unfolding remove
remove-IsSorted m t = erase-IsSorted entry_lt (entry_of_msg m) t

rule_for-grant_rules :
    (w : Bool) (e : FlowEntry) (msg auth rev : OctaneControl) (t : FlowTable)
    → HasKind w e
    → HasKind w (entry_of_msg msg)
    → HasKind w (entry_of_msg auth)
    → HasKind w (entry_of_msg rev)
    → Keys (HasKind w) t
    → IsSorted entry_lt t
    → rule_for e (grant_rules msg auth rev t).0 ≡ (
        if entry_eq e (reverse (entry_of_msg msg))
        then some (reverse_action msg 0)
        else if entry_eq e (entry_of_msg msg)
        then some (action_of_msg msg)
        else if entry_eq e (entry_of_msg rev)
        then none
        else if entry_eq e (entry_of_msg auth)
        then none
        else rule_for e t)
unfolding grant_rules
rule_for-grant_rules w e msg auth rev t ke km ka kr ks s =
    let t1 : FlowTable = (remove auth t).0 in
    let t2 : FlowTable = (remove rev t1).0 in
    let ks1 = remove-Keys w auth t ks in
    rw (rule_for-db_insert w e msg 0 t2 ke km (remove-Keys w rev t1 ks1)) (
      rw (rule_for-remove w e rev t1 ke kr ks1 (remove-IsSorted auth t s))
        (rw (rule_for-remove w e auth t ke ka ks s)))

pub log_lines-flow_table :
    (ls : List Text) (r : Router) → (log_lines ls r).flow_table ≡ r.flow_table
unfolding log_lines push_log
log_lines-flow_table [] r = refl
log_lines-flow_table (l ∷ ls) r = log_lines-flow_table ls (push_log (router_line r l) r)

granted_table :
    (port1 junk : ℕ) (m : OctaneControl) (g : Gate)
    → (on_grant port1 junk m g).0.primary.router.flow_table
      ≡ (grant_rules (granted m) g.auth_msg g.auth_rev g.primary.router.flow_table).0
unfolding on_grant
granted_table port1 junk m g = log_lines-flow_table _ _

s9_control-grants :
    (stale : Stale) (port1 junk seqno : ℕ) (b : Buffer) (m : OctaneControl) (g : Gate)
    → octane_unpack b stale.msg_bytes ≡ some (seqno, m)
    → m.octane_flags ≢ 1
    → m.octane_action ≡ 5
    → s9_control stale port1 junk b g
      ≡ goes_on (on_grant port1 junk m g).0 (on_grant port1 junk m g).1
unfolding s9_control acknowledged_if
s9_control-grants stale port1 junk seqno b m g u f act = ground arith

granted_user :
    (port1 junk : ℕ) (m : OctaneControl) (g : Gate)
    → (on_grant port1 junk m g).0.is_authenticated ≡ true
unfolding on_grant
granted_user port1 junk m g = refl

-- A control message with the action 5 that is no acknowledgement authenticates the user. Where the
-- flows of the message, of the two kept messages, of the packet and of the sorted table are of one
-- kind, the packet then hits, with the message's flow (its source address brought into network
-- order) and action 1: port 0 on the reverse flow; on the flow itself the message's port; no rule on
-- the two kept flows; and what it hit before on every other flow.
pub s9_control-rules :
    (w : Bool) (stale : Stale) (port1 junk seqno : ℕ) (b : Buffer) (m : OctaneControl) (g : Gate)
    → octane_unpack b stale.msg_bytes ≡ some (seqno, m)
    → m.octane_flags ≢ 1
    → m.octane_action ≡ 5
    → HasKind w (entry_of_msg (granted m))
    → HasKind w (entry_of_msg g.auth_msg)
    → HasKind w (entry_of_msg g.auth_rev)
    → Keys (HasKind w) g.primary.router.flow_table
    → IsSorted entry_lt g.primary.router.flow_table
    → (g' : Gate) × (sent : List Sent) × (s9_control stale port1 junk b g ≡ goes_on g' sent)
      × (g'.is_authenticated ≡ true)
      × ((e : FlowEntry)
          → HasKind w e
          → rule_for e g'.primary.router.flow_table ≡ (
              if entry_eq e (reverse (entry_of_msg (granted m)))
              then some (record { fwd_port = 0; action = 1 })
              else if entry_eq e (entry_of_msg (granted m))
              then some (record { fwd_port = m.octane_port; action = 1 })
              else if entry_eq e (entry_of_msg g.auth_rev)
              then none
              else if entry_eq e (entry_of_msg g.auth_msg)
              then none
              else rule_for e g.primary.router.flow_table))
unfolding granted action_of_msg reverse_action
s9_control-rules w stale port1 junk seqno b m g u f act km ka kr ks s = (
  (on_grant port1 junk m g).0,
  (on_grant port1 junk m g).1,
  s9_control-grants stale port1 junk seqno b m g u f act,
  granted_user port1 junk m g,
  λ e ke.
      ap (rule_for e) (granted_table port1 junk m g)
      ∙ rule_for-grant_rules w e (granted m) g.auth_msg g.auth_rev g.primary.router.flow_table ke km
          ka kr ks s,
)
