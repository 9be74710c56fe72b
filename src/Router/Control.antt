-- ===== src/Router/Control.antt =====
-- The secondary router's handling of a control message, the same in stages 4, 5 and 6.
pub mod Acks
pub mod Counts
use simple_sdn.Base.{
  ℕ, ◌+◌, ◌==◌, if◌then◌else◌, List, [], ◌∷◌, ◌++◌, Option, none, some, Buffer, Bool, true, false,
}
use simple_sdn.StdMap
use simple_sdn.StdMap.{StdMap}
use simple_sdn.Octane.{OctaneControl, octane_lt}
use simple_sdn.Flow.{action_of_msg}
use simple_sdn.Flow.Table.{insert}
use simple_sdn.Packet.Unpack.{octane_unpack}
use simple_sdn.Packet.Edit.{octane_reply_edit}
use simple_sdn.Router.{Router, push_log, router_line}

-- `m_MsgCount[m]`: the value, and the map, in which a missing key gets the value 0.
unfoldable pub subscript : OctaneControl → StdMap OctaneControl ℕ → ℕ × StdMap OctaneControl ℕ
subscript m c = elim (StdMap.find octane_lt m c) [
  | none ↦ (0, StdMap.assign octane_lt m 0 c)
  | some (k, n) ↦ (n, c)
]

-- The counting of a message.
unfoldable pub count_msg : OctaneControl → StdMap OctaneControl ℕ → StdMap OctaneControl ℕ
unfolding subscript
count_msg m c = elim (StdMap.find octane_lt m c) [
  | none ↦ StdMap.assign octane_lt m 1 c
  | some x ↦ let (n, c') = subscript m c in StdMap.assign octane_lt m (n + 1) c'
]

-- The test of the count: after `m_iDropAfter` messages the message is dropped from then on.
unfoldable pub drop_counted : OctaneControl → Router → Router
unfolding subscript
drop_counted m r =
    let (n, c) = subscript m r.msg_count in
    if n == r.drop_after
    then record r {
      msg_count = StdMap.erase octane_lt m c;
      dropped_msg = StdMap.assign octane_lt m (action_of_msg m) r.dropped_msg;
    }
    else record r { msg_count = c }

-- The rule is installed and logged, and the message counted.
unfoldable pub accept_msg : OctaneControl → Router → Router
accept_msg m r =
    let (t, line) = insert m r.flow_table in
    let r' = push_log (router_line r line) (record r { flow_table = t }) in
    drop_counted m (record r' { msg_count = count_msg m r'.msg_count })

-- The branch of a control message: the router and the acknowledgement to send back, if any.
-- `stale` are the bytes of the uninitialised `octMsg`; `none` is a copy that overruns it.
unfoldable pub control_msg : List ℕ → Buffer → Router → Option (Router × Option Buffer)
control_msg stale b r = elim (octane_unpack b stale) [
  | none ↦ none
  | some (seqno, m) ↦ elim (StdMap.find octane_lt m r.dropped_msg) [
    | none ↦ some (accept_msg m r, some (octane_reply_edit b))
    | some x ↦ some (r, none)
  ]
]
