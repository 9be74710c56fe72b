-- ===== src/Flow/Table.antt =====
-- `flow_table` of cRouter.cpp. Each operation returns the table that it leaves and the text that
-- the caller logs.
pub mod Rules
pub mod Default
pub mod Search
use simple_sdn.Base.{
  ℕ, Bool, true, false, List, [], ◌∷◌, ◌++◌, Option, none, some, ◌/=◌, if◌then◌else◌, Text, text,
  to_string, inet_ntoa, htons, String,
}
use simple_sdn.StdMap.{StdMap}
use simple_sdn.StdMap
use simple_sdn.Octane.{OctaneControl}
use simple_sdn.Flow.{
  FlowEntry, FlowAction, entry_of_msg, action_of_msg, reverse, entry_lt, entry_eq, default_entry,
}

abbrev pub FlowTable : Type 0
FlowTable = StdMap FlowEntry FlowAction

-- `m_mTable.find(entry)`.
abbrev pub table_find : FlowEntry → FlowTable → Option (FlowEntry × FlowAction)
table_find = StdMap.find entry_lt

abbrev pub table_assign : FlowEntry → FlowAction → FlowTable → FlowTable
table_assign = StdMap.assign entry_lt

-- "(<src ip>, <src port>, <dst ip>, <dst port>, <protocol>)".
unfoldable pub entry_text : FlowEntry → Text
unfolding inet_ntoa to_string htons
entry_text e =
    text "("
    ++ inet_ntoa e.src_ip
    ++ text ", "
    ++ to_string (htons e.src_port)
    ++ text ", "
    ++ inet_ntoa e.dst_ip
    ++ text ", "
    ++ to_string (htons e.dst_port)
    ++ text ", "
    ++ to_string e.protocol
    ++ text ")"

unfoldable pub installed_text : FlowEntry → FlowAction → Text
unfolding entry_text to_string
installed_text e a =
    text ", rule installed " ++ entry_text e ++ text " action " ++ to_string a.action

abbrev pub is_end : Option (FlowEntry × FlowAction) → Bool
is_end none = true
is_end (some x) = false

-- `contains(flow_entry)`.
unfoldable pub contains : FlowEntry → FlowTable → Bool
contains e t = if is_end (table_find e t) then false else true

-- `contains(flow_entry, flow_entry &output)`: `output` keeps its value when nothing is found.
unfoldable pub contains_out : FlowEntry → FlowEntry → FlowTable → Bool × FlowEntry
contains_out e output t = elim (table_find e t) [
  | none ↦ (false, output)
  | some (key, a) ↦ (true, key)
]

abbrev pub default_action : FlowAction
default_action = record { fwd_port = 0xFFFF; action = 3 }

-- `contains(octane_control)`: a hit of the default rule does not count.
unfoldable pub contains_msg : OctaneControl → FlowTable → Bool
unfolding entry_of_msg entry_eq
contains_msg msg t = elim (table_find (entry_of_msg msg) t) [
  | none ↦ false
  | some (key, a) ↦ if entry_eq key default_entry then false else true
]

-- `flowCheck(entry)`: empty if no rule is hit.
unfoldable pub flow_check : FlowEntry → FlowTable → Text
unfolding contains entry_text
flow_check e t = if contains e t then text ", rule hit " ++ entry_text e else []

-- `flowCheck(entry, filterEntryOut)`: `stale` is what the uninitialised local `filterEntry` holds.
unfoldable pub flow_check_out : FlowEntry → FlowEntry → FlowTable → Text × FlowEntry
unfolding contains_out entry_text
flow_check_out e stale t =
    let (hit, filter_entry) = contains_out e stale t in
    (if hit then text ", rule hit " ++ entry_text filter_entry else [], filter_entry)

unfoldable pub default_insert : FlowTable → FlowTable × Text
unfolding installed_text
default_insert t =
    (table_assign default_entry default_action t, installed_text default_entry default_action)

-- `insert(msg)`; the warning about a replaced entry goes to the terminal only.
unfoldable pub insert : OctaneControl → FlowTable → FlowTable × Text
unfolding entry_of_msg action_of_msg installed_text
insert msg t =
    let entry = entry_of_msg msg in
    let action = action_of_msg msg in (table_assign entry action t, installed_text entry action)

-- The action of the reverse rule of `dbInsert`.
unfoldable pub reverse_action : OctaneControl → ℕ → FlowAction
unfolding action_of_msg
reverse_action msg new_fwd_port =
    if new_fwd_port /= 65535
    then record (action_of_msg msg) { fwd_port = new_fwd_port }
    else action_of_msg msg

-- `dbInsert(msg, newFwdPort)`: the rule and then the rule of the reverse flow.
unfoldable pub db_insert : OctaneControl → ℕ → FlowTable → FlowTable × List Text
unfolding entry_of_msg action_of_msg reverse reverse_action installed_text
db_insert msg new_fwd_port t =
    let entry = entry_of_msg msg in
    let action = action_of_msg msg in
    let entry_rev = reverse entry in
    let action_rev = reverse_action msg new_fwd_port in
    let t' = table_assign entry_rev action_rev (table_assign entry action t) in
    (t', installed_text entry action ∷ installed_text entry_rev action_rev ∷ [])

-- `find(msg)` of the class: a stub that returns the empty string.
unfoldable pub table_find_msg : OctaneControl → Text
table_find_msg msg = []

-- `remove(msg)`.
unfoldable pub remove : OctaneControl → FlowTable → FlowTable × Text
unfolding entry_of_msg action_of_msg entry_text
remove msg t =
    let entry = entry_of_msg msg in
    let action = action_of_msg msg in
    (
      StdMap.erase entry_lt entry t,
      text ", rule erased " ++ entry_text entry ++ text " action " ++ to_string action.action,
    )
