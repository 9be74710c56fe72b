-- ===== src/Router/Second/Ruled.antt =====
-- `secondRouter_s6`: packets are handled by the rules of the flow table.
pub mod Rules
pub mod Install
pub mod Pair
use simple_sdn.Base.{
  ℕ, Bool, true, false, ◌==◌, ◌/=◌, if◌then◌else◌, List, [], ◌∷◌, ◌++◌, Option, none, some, Text,
  text, Buffer, take,
}
use simple_sdn.Flow.{FlowEntry, FlowAction}
use simple_sdn.Flow.Table.{flow_check_out}
use simple_sdn.Packet.Unpack.{Ports, IcmpOut, icmp_unpack, get_icmp_type, entry_of_packet}
use simple_sdn.Packet.Edit.{icmp_replace_addr, tcp_reply_edit, from_udp, from_raw_sock}
use simple_sdn.Router.{Router, Peer, Sent, udp, push_log, router_line}
use simple_sdn.Router.Logging.{icmp_forward_log}
use simple_sdn.Router.Forward.{
  Ruled, sent_out, sent_to, handled, wrong, Ruling, octane_rules_controller,
}
use simple_sdn.Router.Handler.{Stale, Handled, goes_on, returns, exits, overrun, non_empty}
use simple_sdn.Router.Second.{Session, on_control}

-- `inet_addr` of the address that the router's interface has: an id beyond 3 leaves it unset.
unfoldable pub external_addr : ℕ → ℕ → ℕ
external_addr stale id =
    if id == 1
    then 0x02C9A8C0
    else if id == 2
    then 0x02CAA8C0
    else if id == 3
    then 0x02CBA8C0
    else stale

abbrev pub is_sent_out : Ruled → Bool
is_sent_out sent_out = true
is_sent_out (sent_to port) = false
is_sent_out handled = false
is_sent_out wrong = false

-- The branch of a packet from a peer that hits a rule; the copy of the flow table is given up.
unfoldable pub on_hit : Stale → Text → Buffer → Session → Handled Session
on_hit stale check b s =
    let out = (icmp_unpack b stale.icmp).1 in
    let (a, r) = icmp_forward_log b stale.ports stale.icmp from_udp s.peer.port s.router in
    let own = external_addr stale.addr r.router_id in
    let entry = entry_of_packet b stale.ports in
    elim (octane_rules_controller stale.action stale.icmp entry r b 65500 s.peer own) [
      | none ↦ overrun
      | some ruling ↦
          goes_on
            (record s {
              router = push_log (router_line r check) r;
              ori_src_addr = if is_sent_out ruling.ruled then out.src_addr else s.ori_src_addr;
            })
            ruling.sent
    ]

-- The handler of a packet from `peer` in a buffer of 65500 bytes; `failed` is `nread < 0`.
unfoldable pub s6_udp : Stale → Bool → Peer → Buffer → Session → Handled Session
s6_udp stale failed peer b s =
    let s' = record s { peer = peer; refresh = true } in
    let check =
      (flow_check_out (entry_of_packet b stale.ports) stale.entry s.router.flow_table).0 in
    let proto = (icmp_unpack b stale.icmp).0 in
    if failed
    then exits
    else if proto == 253
    then on_control stale b s'
    else if non_empty check
    then on_hit stale check b s'
    else goes_on (record s' { refresh = false }) []

-- What the two raw handlers do with the edited packet, of `size` bytes, for a packet received as
-- `b`.
unfoldable pub on_raw_packet : Stale → Buffer → Buffer → ℕ → Session → Handled Session
on_raw_packet stale b edited size s =
    let entry = entry_of_packet edited stale.ports in
    let check = (flow_check_out entry stale.entry s.router.flow_table).0 in
    let (a, r) = icmp_forward_log b stale.ports stale.icmp from_raw_sock stale.peer.port s.router in
    let r' = push_log (router_line r check) r in
    if non_empty check
    then elim (octane_rules_controller stale.action stale.icmp entry r' edited size stale.peer
        stale.addr) [
          | none ↦ overrun
          | some ruling ↦ goes_on (record s { router = r'; refresh = true }) ruling.sent
        ]
    else goes_on (record s { refresh = false }) []

-- The handler of the ICMP raw socket, in a buffer of 2048 bytes.
unfoldable pub s6_raw_icmp : Stale → Buffer → Session → Handled Session
s6_raw_icmp stale b s =
    let edited = (icmp_replace_addr s.ori_src_addr b from_raw_sock stale.addr).0 in
    on_raw_packet stale b edited 2048 s

-- The handler of the TCP raw socket, in a buffer of 65535 bytes.
unfoldable pub s6_raw_tcp : Stale → Buffer → Session → Handled Session
s6_raw_tcp stale b s = elim (tcp_reply_edit s.ori_src_addr b) [
  | none ↦ overrun
  | some (edited, size) ↦ on_raw_packet stale b edited size s
]
