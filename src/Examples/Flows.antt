-- ===== src/Examples/Flows.antt =====
-- The flow table at concrete flows: an echo request from 10.0.2.15 to 10.5.51.4 and TCP flows.
use simple_sdn.Base.{ℕ, true, false, ◌≡◌, refl, [], ◌∷◌, some, none, arith}
use simple_sdn.StdMap.Laws.{IsStrictOrder}
use simple_sdn.Octane.{OctaneControl, octane_lt}
use simple_sdn.Octane.Order.{octane_lt-both}
use simple_sdn.Octane.Bytes.{IsMsg}
use simple_sdn.Flow.{
  FlowEntry, FlowAction, entry_of_msg, action_of_msg, reverse, entry_lt, entry_eq, is_wild,
}
use simple_sdn.Flow.Order.{HasKind, entry_lt-IsStrictOrder}
use simple_sdn.Flow.Table.{FlowTable, table_find, db_insert, remove, reverse_action, default_insert}
use simple_sdn.StdMap.Tree.{Tree, node, leaf}
use simple_sdn.Flow.Table.Rules.{rule_for, rule_for-db_insert, rule_for-remove}
use simple_sdn.Flow.Table.Default.{
  default_unreached, tcp_hits_icmp_rule, equivalence_not_transitive, IsTcp,
}

abbrev pub ping : FlowEntry
ping = record {
  src_ip = 0x0F02000A;
  dst_ip = 0x0433050A;
  src_port = 0xFFFF;
  dst_port = 0xFFFF;
  protocol = 1;
}

abbrev pub ping_back : FlowEntry
ping_back = record {
  src_ip = 0x0433050A;
  dst_ip = 0x0F02000A;
  src_port = 0xFFFF;
  dst_port = 0xFFFF;
  protocol = 1;
}

abbrev pub ping_msg : OctaneControl
ping_msg = record {
  octane_action = 1;
  octane_flags = 0;
  octane_seqno = 7;
  octane_source_ip = 0x0F02000A;
  octane_dest_ip = 0x0433050A;
  octane_source_port = 0xFFFF;
  octane_dest_port = 0xFFFF;
  octane_protocol = 1;
  octane_port = 5000;
}

abbrev pub to_5000 : FlowAction
to_5000 = record { fwd_port = 5000; action = 1 }

abbrev dropped : FlowAction
dropped = record { fwd_port = 65535; action = 3 }

abbrev one_rule : FlowTable
one_rule = (ping_back, dropped) ∷ []

rule_for-db_insert_example :
    rule_for ping_back (db_insert ping_msg 6000 one_rule).0
    ≡ some (record { fwd_port = 6000; action = 1 })
unfolding is_wild entry_of_msg action_of_msg entry_eq reverse reverse_action
rule_for-db_insert_example =
    rule_for-db_insert true ping_back ping_msg 6000 one_rule refl refl (refl, tt)

rule_for-remove_example : rule_for ping (remove ping_msg ((ping, to_5000) ∷ [])).0 ≡ none
unfolding is_wild entry_of_msg entry_eq
rule_for-remove_example =
    rule_for-remove true ping ping_msg ((ping, to_5000) ∷ []) refl refl (refl, tt) (tt, tt)

entry_lt-IsStrictOrder_example : IsStrictOrder entry_lt (HasKind true)
entry_lt-IsStrictOrder_example = entry_lt-IsStrictOrder true

default_unreached_example : table_find ping (default_insert one_rule).0 ≡ table_find ping one_rule
unfolding is_wild
default_unreached_example =
    default_unreached true ping one_rule (ground arith) refl ((refl, ground arith), tt)

abbrev web : ℕ → FlowEntry
web port = record {
  src_ip = 0x0F02000A;
  dst_ip = 0x0433050A;
  src_port = port;
  dst_port = 80;
  protocol = 6;
}

web-IsTcp_1 : IsTcp (web 4001)
web-IsTcp_1 = record {
  protocol = refl;
  src_ip = ground arith;
  dst_ip = ground arith;
  src_port = ground arith;
  dst_port = ground arith;
}

web-IsTcp_2 : IsTcp (web 4002)
web-IsTcp_2 = record {
  protocol = refl;
  src_ip = ground arith;
  dst_ip = ground arith;
  src_port = ground arith;
  dst_port = ground arith;
}

tcp_hits_icmp_rule_example : table_find (web 4001) ((ping, to_5000) ∷ []) ≡ some (ping, to_5000)
tcp_hits_icmp_rule_example = tcp_hits_icmp_rule (web 4001) to_5000 [] web-IsTcp_1

equivalence_not_transitive_example :
    (entry_lt (web 4001) ping ≡ false)
    × (entry_lt ping (web 4001) ≡ false)
    × (entry_lt (web 4002) ping ≡ false)
    × (entry_lt ping (web 4002) ≡ false)
    × (entry_lt (web 4001) (web 4002) ≡ true)
equivalence_not_transitive_example =
    equivalence_not_transitive (web 4001) (web 4002) web-IsTcp_1 web-IsTcp_2 refl (ground arith)

pub ping_msg-IsMsg : IsMsg ping_msg
ping_msg-IsMsg = record {
  action = ground arith;
  flags = ground arith;
  seqno = ground arith;
  source_ip = ground arith;
  dest_ip = ground arith;
  source_port = ground arith;
  dest_port = ground arith;
  protocol = ground arith;
  port = ground arith;
}

octane_lt-both_example :
    (octane_lt ping_msg (record ping_msg { octane_action = 2; octane_port = 80 }) ≡ true)
    × (octane_lt (record ping_msg { octane_action = 2; octane_port = 80 }) ping_msg ≡ true)
octane_lt-both_example = octane_lt-both ping_msg 2 80 (ground arith) (ground arith)

-- A tree of two rules.
abbrev ping_tree : Tree FlowEntry FlowAction
ping_tree = node (node leaf ping_back to_5000 leaf) ping to_5000 leaf
