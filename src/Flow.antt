-- ===== src/Flow.antt =====
-- Flow entries, flow actions and the flow table of cRouter.h and cRouter.cpp.
pub mod Order
pub mod Table
use simple_sdn.Base.{ℕ, ◌==◌, ◌/=◌, ◌&&◌, ◌||◌, Bool, ltb, if◌then◌else◌}
use simple_sdn.Octane.{OctaneControl, any_ip, any_port}

pub record FlowEntry : Type 0 where
  pub src_ip : ℕ
  pub dst_ip : ℕ
  pub src_port : ℕ
  pub dst_port : ℕ
  pub protocol : ℕ

pub record FlowAction : Type 0 where
  pub fwd_port : ℕ
  pub action : ℕ

-- `flow_entry(octane_control)`.
unfoldable pub entry_of_msg : OctaneControl → FlowEntry
entry_of_msg msg = record {
  src_ip = msg.octane_source_ip;
  dst_ip = msg.octane_dest_ip;
  src_port = msg.octane_source_port;
  dst_port = msg.octane_dest_port;
  protocol = msg.octane_protocol;
}

unfoldable pub reverse : FlowEntry → FlowEntry
reverse e = record {
  src_ip = e.dst_ip;
  dst_ip = e.src_ip;
  src_port = e.dst_port;
  dst_port = e.src_port;
  protocol = e.protocol;
}

-- `flow_action(octane_control)`.
unfoldable pub action_of_msg : OctaneControl → FlowAction
action_of_msg msg = record { fwd_port = msg.octane_port; action = msg.octane_action }

-- Some field of the entry has all bits set.
unfoldable pub is_wild : FlowEntry → Bool
is_wild e =
    e.src_ip == any_ip || e.src_port == any_port || e.dst_ip == any_ip || e.dst_port == any_port

-- The first branch of `operator<`.
unfoldable pub less_exact : FlowEntry → FlowEntry → Bool
less_exact a b =
    if a.src_ip /= b.src_ip
    then ltb a.src_ip b.src_ip
    else if a.src_port /= b.src_port
    then ltb a.src_port b.src_port
    else if a.dst_ip /= b.dst_ip
    then ltb a.dst_ip b.dst_ip
    else if a.dst_port /= b.dst_port
    then ltb a.dst_port b.dst_port
    else ltb a.protocol b.protocol

-- The second branch: a field with all bits set on either side is passed over.
unfoldable pub less_masked : FlowEntry → FlowEntry → Bool
less_masked a b =
    if a.src_ip /= b.src_ip && a.src_ip /= any_ip && b.src_ip /= any_ip
    then ltb a.src_ip b.src_ip
    else if a.src_port /= b.src_port && a.src_port /= any_port && b.src_port /= any_port
    then ltb a.src_port b.src_port
    else if a.dst_ip /= b.dst_ip && a.dst_ip /= any_ip && b.dst_ip /= any_ip
    then ltb a.dst_ip b.dst_ip
    else if a.dst_port /= b.dst_port && a.dst_port /= any_port && b.dst_port /= any_port
    then ltb a.dst_port b.dst_port
    else ltb a.protocol b.protocol

-- `flow_entry::operator<`. The source writes the same test on `*this` twice.
unfoldable pub entry_lt : FlowEntry → FlowEntry → Bool
unfolding is_wild less_exact less_masked
entry_lt a b = if is_wild a && is_wild a then less_exact a b else less_masked a b

-- `flow_entry::operator==`.
unfoldable pub entry_eq : FlowEntry → FlowEntry → Bool
entry_eq a b =
    a.src_ip == b.src_ip
    && a.dst_ip == b.dst_ip
    && a.src_port == b.src_port
    && a.dst_port == b.dst_port
    && a.protocol == b.protocol

-- The entry of `defaultInsert`.
abbrev pub default_entry : FlowEntry
default_entry = record {
  src_ip = 0xFFFFFFFF;
  src_port = 0xFFFF;
  dst_ip = 0xFFFFFFFF;
  dst_port = 0xFFFF;
  protocol = 0xFFFF;
}
