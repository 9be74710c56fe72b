-- ===== src/Router.antt =====
-- `cRouter` (cRouter.h) as the routers of RouterPrim.cpp and RouterSecond.cpp use it, and what they
-- send.
pub mod Create
pub mod Handler
pub mod Round
pub mod Logging
pub mod Control
pub mod Forward
pub mod Second
pub mod Primary
pub mod Chain
pub mod Ping
pub mod Handshake
pub mod Launch
use simple_sdn.Base.{ℕ, List, [], ◌∷◌, ◌++◌, Text, text, to_string, Buffer}
use simple_sdn.StdMap.{StdMap}
use simple_sdn.Octane.{OctaneControl}
use simple_sdn.Flow.{FlowAction}
use simple_sdn.Flow.Table.{FlowTable}

-- The members that the routers use while packets flow. Counters are ints of the source; they are
-- not negative, and overflow of an int is not modelled.
pub record Router : Type 0 where
  pub stage : ℕ
  pub router_id : ℕ
  pub seqno_cnt : ℕ
  pub log : List Text
  pub flow_table : FlowTable
  pub msg_count : StdMap OctaneControl ℕ
  pub dropped_msg : StdMap OctaneControl FlowAction
  pub drop_after : ℕ

-- `sockaddr_in`: the address as it stands in memory and the port in host order.
pub record Peer : Type 0 where
  pub addr : ℕ
  pub port : ℕ

-- What leaves a router: `sendMsg` to a peer, `sendmsg` to an address on the ICMP and on the TCP raw
-- socket, and `cwrite` to the tunnel.
pub data Sent : Type 0 where
  udp : Peer → Buffer → Sent
  raw_icmp raw_tcp : ℕ → Buffer → Sent
  tunnel : Buffer → Sent

-- `vLog.push_back`.
unfoldable pub push_log : Text → Router → Router
push_log line r = record r { log = r.log ++ line ∷ [] }

-- "router: <id><text>".
unfoldable pub router_line : Router → Text → Text
unfolding to_string
router_line r t = text "router: " ++ to_string r.router_id ++ t
