-- ===== src/Router/Second.antt =====
-- The secondary router's session in stages 4, 5 and 6 (RouterSecond.cpp): what its handlers keep
-- between packets.
pub mod Plain
pub mod Ruled
pub mod Stage2
pub mod Loop
pub mod Counting
pub mod Served
use simple_sdn.Base.{
  ℕ, Bool, true, false, ◌==◌, ◌/=◌, if◌then◌else◌, List, [], ◌∷◌, ◌++◌, Option, none, some, Text,
  text, Buffer, Option,
}
use simple_sdn.Flow.{FlowEntry, FlowAction}
use simple_sdn.Packet.Unpack.{Ports, IcmpOut}
use simple_sdn.Router.{Router, Peer, Sent, udp, push_log, router_line}
use simple_sdn.Router.Handler.{Stale, Handled, goes_on, overrun}
use simple_sdn.Router.Control.{control_msg}

-- `Router`, `oriSrcAddr`, `rou1Addr` and `bRefreshTimeout`.
pub record Session : Type 0 where
  pub router : Router
  pub ori_src_addr : ℕ
  pub peer : Peer
  pub refresh : Bool

-- The branch of a control message, which sends the acknowledgement to the peer.
unfoldable pub on_control : Stale → Buffer → Session → Handled Session
on_control stale b s = elim (control_msg stale.msg_bytes b s.router) [
  | none ↦ overrun
  | some (r, none) ↦ goes_on (record s { router = r }) []
  | some (r, some reply) ↦ goes_on (record s { router = r }) (udp s.peer reply ∷ [])
]
