-- ===== src/Flow/Table/Rules.antt =====
-- What the operations of the flow table leave for each packet of the kind of their rule.
use simple_sdn.Base.{
  ℕ, Bool, true, false, ◌≡◌, ◌≢◌, Option, none, some, [], ◌∷◌, ◌||◌, if◌then◌else◌, arith,
  Option-cases, inl, inr, ◌↔◌,
}
use simple_sdn.StdMap
use simple_sdn.StdMap.Laws.{Keys, find-assign, Keys-assign, IsStrictOrder}
use simple_sdn.StdMap.Sorted.{IsSorted, find-erase}
use simple_sdn.Octane.{OctaneControl}
use simple_sdn.Flow.{
  FlowEntry, FlowAction, entry_of_msg, action_of_msg, reverse, entry_lt, entry_eq,
}
use simple_sdn.Flow.Order.{HasKind, entry_lt-IsStrictOrder, reverse-HasKind}
use simple_sdn.Flow.Table.{
  FlowTable, table_find, table_assign, flow_check, flow_check_out, contains, insert, db_insert,
  reverse_action, remove,
}

-- The rule that a packet hits, if any: its action.
unfoldable pub rule_for : FlowEntry → FlowTable → Option FlowAction
rule_for e t = elim (table_find e t) [ none ↦ none | some (k, a) ↦ some a ]

module _ (w : Bool) where
  order : IsStrictOrder entry_lt (HasKind w)
  order = entry_lt-IsStrictOrder w

  -- Two entries of one kind that are not ordered are equal, which `entry_eq` decides.
  not_ordered :
      (e k : FlowEntry)
      → HasKind w e
      → HasKind w k
      → (entry_lt e k || entry_lt k e) ≡ (if entry_eq e k then false else true)
  unfolding entry_eq
  not_ordered e k p q = ground (arith, order.irrefl e p, order.irrefl k q, order.connected e k p q)

  pub rule_for-assign :
      (e k : FlowEntry) (a : FlowAction) (t : FlowTable)
      → HasKind w e
      → HasKind w k
      → Keys (HasKind w) t
      → rule_for e (table_assign k a t) ≡ (if entry_eq e k then some a else rule_for e t)
  unfolding rule_for
  rule_for-assign e k a t p q h =
      ground (arith, find-assign entry_lt (HasKind w) order e k a t p q h, not_ordered e k p q)

  -- Where the packet, the message's flow and the table's flows are of one kind (all with a field of
  -- all bits set, or each without one or the default rule's), `insert` gives the message's action to
  -- the message's flow and leaves every other flow as it was.
  pub rule_for-insert :
      (e : FlowEntry) (msg : OctaneControl) (t : FlowTable)
      → HasKind w e
      → HasKind w (entry_of_msg msg)
      → Keys (HasKind w) t
      → rule_for e (insert msg t).0
        ≡ (if entry_eq e (entry_of_msg msg) then some (action_of_msg msg) else rule_for e t)
  unfolding insert
  rule_for-insert e msg t p q h = rule_for-assign e (entry_of_msg msg) (action_of_msg msg) t p q h

  -- Where the packet, the message's flow and the table's flows are of one kind, `dbInsert` gives
  -- the message's action to its flow and, over it, the action with the new port to the reverse
  -- flow, and leaves every other flow as it was.
  pub rule_for-db_insert :
      (e : FlowEntry) (msg : OctaneControl) (port : ℕ) (t : FlowTable)
      → HasKind w e
      → HasKind w (entry_of_msg msg)
      → Keys (HasKind w) t
      → rule_for e (db_insert msg port t).0 ≡ (
          if entry_eq e (reverse (entry_of_msg msg))
          then some (reverse_action msg port)
          else if entry_eq e (entry_of_msg msg)
          then some (action_of_msg msg)
          else rule_for e t)
  unfolding db_insert
  rule_for-db_insert e msg port t p q h =
      let k = entry_of_msg msg in
      let a = action_of_msg msg in
      rw
        (rule_for-assign e (reverse k) (reverse_action msg port) (table_assign k a t) p
          (reverse-HasKind w k q) (Keys-assign entry_lt (HasKind w) order k a t q h))
        (rw (rule_for-assign e k a t p q h))

  -- Where the packet, the message's flow and the flows of the sorted table are of one kind,
  -- `remove` takes the rule of the message's flow away and no other.
  pub rule_for-remove :
      (e : FlowEntry) (msg : OctaneControl) (t : FlowTable)
      → HasKind w e
      → HasKind w (entry_of_msg msg)
      → Keys (HasKind w) t
      → IsSorted entry_lt t
      → rule_for e (remove msg t).0 ≡ (if entry_eq e (entry_of_msg msg) then none else rule_for e t)
  unfolding remove rule_for
  rule_for-remove e msg t p q h s = ground (
    arith,
    find-erase entry_lt (HasKind w) order e (entry_of_msg msg) t p q h s,
    not_ordered e (entry_of_msg msg) p q,
  )

  find-key :
      (e k : FlowEntry) (a : FlowAction) (t : FlowTable)
      → HasKind w e
      → Keys (HasKind w) t
      → table_find e t ≡ some (k, a)
      → k ≡ e
  unfolding StdMap.find
  find-key e k a [] p h f = cc
  find-key e k a ((j, b) ∷ t) p h f =
      ground (arith, find-key e k a t p h.1, order.connected j e h.0 p)

-- The text of `flowCheck` is not empty exactly when the packet hits a rule of the table.
pub flow_check-rule_for :
    (e : FlowEntry) (t : FlowTable)
    → (flow_check e t ≢ [] ↔ ((a : FlowAction) × (rule_for e t ≡ some a)))
unfolding flow_check rule_for
flow_check-rule_for e t = elim (Option-cases (table_find e t)) [
  | inl miss ↦ (λ n. absurd (n (ground arith)), λ h. ground arith)
  | inr (x, hit) ↦ (λ n. (x.1, ground arith), λ h e'. ground arith)
]

-- Where the packet and the table's flows are of one kind, both overloads of `flowCheck` return the
-- same text, and the output parameter is the packet's own flow if a rule is hit and else keeps
-- its value.
pub flow_check_out-flow_check :
    (w : Bool) (e stale : FlowEntry) (t : FlowTable)
    → HasKind w e
    → Keys (HasKind w) t
    → flow_check_out e stale t ≡ (flow_check e t, if contains e t then e else stale)
unfolding flow_check_out flow_check
flow_check_out-flow_check w e stale t p h = elim (Option-cases (table_find e t)) [
  | inl miss ↦ ground arith
  | inr ((k, a), hit) ↦ ground (arith, find-key w e k a t p h hit)
]
