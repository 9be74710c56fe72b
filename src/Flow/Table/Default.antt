-- ===== src/Flow/Table/Default.antt =====
-- What fields with all bits set do in the table: the default rule, and rules for ICMP flows.
use simple_sdn.Base.{Bool, true, false, ◌≡◌, ◌<◌, refl, some, [], ◌∷◌, arith}
use simple_sdn.StdMap
use simple_sdn.StdMap.Laws.{Keys, find-assign}
use simple_sdn.Octane.{any_port}
use simple_sdn.Flow.{FlowEntry, FlowAction, is_wild, entry_lt, default_entry}
use simple_sdn.Flow.Order.{entry_lt-IsStrictOrder}
use simple_sdn.Flow.Table.{FlowTable, table_find, default_action, default_insert}

-- A protocol number from a packet is one byte.
abbrev pub FromPacket : FlowEntry → Type 0
FromPacket e = e.protocol < 256

-- Whether an entry has a field with all bits set.
abbrev pub HasWild : Bool → FlowEntry → Type 0
HasWild w e = is_wild e ≡ w

exact-lt-default :
    (e : FlowEntry) → FromPacket e → HasWild false e → entry_lt e default_entry ≡ true
unfolding entry_lt
exact-lt-default e p h = ground arith

-- Into a table of flows without such fields the default rule goes last, and no packet reaches it.
default_unreached_exact :
    (e : FlowEntry) (t : FlowTable)
    → FromPacket e
    → HasWild false e
    → Keys (λ k. HasWild false k × FromPacket k) t
    → table_find e (default_insert t).0 ≡ table_find e t
unfolding default_insert StdMap.find StdMap.assign
default_unreached_exact e [] p h ks = ground (arith, exact-lt-default e p h)
default_unreached_exact e ((k, a) ∷ t) p h ks =
    ground (arith, exact-lt-default k ks.0.1 ks.0.0, default_unreached_exact e t p h ks.1)

default-is_wild : is_wild default_entry ≡ true
unfolding is_wild
default-is_wild = refl

-- ICMP flows have ports with all bits set; the default rule is another key for them.
default_unreached_wild :
    (e : FlowEntry) (t : FlowTable)
    → FromPacket e
    → HasWild true e
    → Keys (HasWild true) t
    → table_find e (default_insert t).0 ≡ table_find e t
unfolding default_insert
default_unreached_wild e t p h ks = ground (
  arith,
  find-assign entry_lt (HasWild true) (entry_lt-IsStrictOrder true) e default_entry default_action t
      h default-is_wild ks,
  (entry_lt-IsStrictOrder true).connected e default_entry h default-is_wild,
)

-- Installing the default rule changes the lookup of no packet, where the packet and the table's
-- flows all have a field with all bits set or all have none and their protocol numbers fit a byte:
-- no such lookup ends at the default rule.
pub default_unreached :
    (w : Bool) (e : FlowEntry) (t : FlowTable)
    → FromPacket e
    → HasWild w e
    → Keys (λ k. HasWild w k × FromPacket k) t
    → table_find e (default_insert t).0 ≡ table_find e t
default_unreached false e t p h ks = default_unreached_exact e t p h ks
default_unreached true e t p h ks = default_unreached_wild e t p h (only_kind t ks)
  where
    only_kind :
        (t : FlowTable) → Keys (λ k. HasWild true k × FromPacket k) t → Keys (HasWild true) t
    only_kind [] ks = tt
    only_kind (x ∷ t) ks = (ks.0.0, only_kind t ks.1)

-- A TCP packet whose fields are below their maximum.
pub record IsTcp (e : FlowEntry) : Type 0 where
  pub protocol : e.protocol ≡ 6
  pub src_ip : e.src_ip < 0xFFFFFFFF
  pub dst_ip : e.dst_ip < 0xFFFFFFFF
  pub src_port : e.src_port < 0xFFFF
  pub dst_port : e.dst_port < 0xFFFF

-- The ICMP flow from the source of a packet to its destination.
abbrev pub icmp_flow : FlowEntry → FlowEntry
icmp_flow e = record e { src_port = any_port; dst_port = any_port; protocol = 1 }

-- `operator<` does not tell a TCP flow from the ICMP flow between the same hosts.
icmp_flow-unordered :
    (e : FlowEntry)
    → IsTcp e
    → (entry_lt e (icmp_flow e) ≡ false) × (entry_lt (icmp_flow e) e ≡ false)
unfolding entry_lt
icmp_flow-unordered e h = ground arith

-- With the rule for the ICMP flow between two hosts first in the table, every TCP packet from the
-- one host to the other whose fields are below their maximum hits the ICMP rule.
pub tcp_hits_icmp_rule :
    (e : FlowEntry) (a : FlowAction) (t : FlowTable)
    → IsTcp e
    → table_find e ((icmp_flow e, a) ∷ t) ≡ some (icmp_flow e, a)
unfolding StdMap.find
tcp_hits_icmp_rule e a t h = ground (arith, icmp_flow-unordered e h)

-- `operator<` is no strict weak ordering: of two TCP flows between the same two hosts whose fields
-- are below their maximum and whose source ports differ, both are unordered with the hosts' ICMP
-- flow, and the one with the smaller port is less than the other.
pub equivalence_not_transitive :
    (e f : FlowEntry)
    → IsTcp e
    → IsTcp f
    → icmp_flow e ≡ icmp_flow f
    → e.src_port < f.src_port
    → (entry_lt e (icmp_flow e) ≡ false)
      × (entry_lt (icmp_flow e) e ≡ false)
      × (entry_lt f (icmp_flow e) ≡ false)
      × (entry_lt (icmp_flow e) f ≡ false)
      × (entry_lt e f ≡ true)
unfolding entry_lt
equivalence_not_transitive e f p q same lt = ground arith
