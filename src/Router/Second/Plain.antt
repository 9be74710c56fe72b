-- ===== src/Router/Second/Plain.antt =====
-- `secondRouter_s4` and `secondRouter_s5`: echo requests are answered or sent out, and replies go
-- back to the primary router. Buffers have 2048 bytes.
use simple_sdn.Base.{
  ℕ, Bool, true, false, ◌==◌, ◌/=◌, if◌then◌else◌, [], ◌∷◌, none, some, Text, text, Buffer, take,
}
use simple_sdn.Flow.Table.{flow_check, default_insert}
use simple_sdn.Packet.Unpack.{icmp_unpack, get_icmp_type, entry_of_packet}
use simple_sdn.Packet.Edit.{icmp_replace_addr, from_udp, from_raw_sock}
use simple_sdn.Router.{Peer, udp, push_log, router_line}
use simple_sdn.Router.Logging.{icmp_forward_log}
use simple_sdn.Router.Forward.{packet_dst_check, icmp_reply, icmp_forward}
use simple_sdn.Router.Handler.{Stale, Handled, goes_on, returns, exits, overrun, log_check}
use simple_sdn.Router.Second.{Session, on_control}

-- `inet_aton("255.255.255.0")`.
abbrev pub mask_24 : ℕ
mask_24 = 0x00FFFFFF

-- The branch of an ICMP packet: `check` is the text that stage 5 logs at its end.
unfoldable pub on_icmp : Stale → Text → Buffer → Session → Handled Session
on_icmp stale check b s =
    let (proto, out) = icmp_unpack b stale.icmp in
    let s' = record s { router = log_check check s.router } in
    if get_icmp_type b /= 8
    then returns s
    else if packet_dst_check out.dst_addr (text "10.5.51.0") mask_24 == 1
    then goes_on s' (icmp_reply b 2048 s.peer)
    else elim (icmp_forward stale.icmp b) [
      | none ↦ overrun
      | some sent ↦ goes_on (record s' { ori_src_addr = out.src_addr }) sent
    ]

-- The handler of a packet from `peer`, where `logged` tells stage 5, which logs the hit of a rule,
-- from stage 4, which only prints it. `failed` is `nread < 0`.
unfoldable pub on_udp : Bool → Stale → Bool → Peer → Buffer → Session → Handled Session
on_udp logged stale failed peer b s =
    let check = flow_check (entry_of_packet b stale.ports) s.router.flow_table in
    let (a, r) = icmp_forward_log b stale.ports stale.icmp from_udp peer.port s.router in
    let s' = record s { router = r; peer = peer; refresh = true } in
    let proto = (icmp_unpack b stale.icmp).0 in
    if failed
    then exits
    else if proto == 1
    then on_icmp stale (if logged then check else []) b s'
    else if proto == 253
    then on_control stale b s'
    else goes_on (record s' { refresh = false }) []

unfoldable pub s4_udp : Stale → Bool → Peer → Buffer → Session → Handled Session
s4_udp = on_udp false

unfoldable pub s5_udp : Stale → Bool → Peer → Buffer → Session → Handled Session
s5_udp = on_udp true

-- The handler of a packet on the ICMP raw socket: an echo reply gets the address of the request's
-- sender and goes to the primary router.
unfoldable pub on_raw : Bool → Stale → Buffer → Session → Handled Session
on_raw logged stale b s =
    let (a, r) = icmp_forward_log b stale.ports stale.icmp from_raw_sock stale.peer.port s.router in
    let (b', replaced) = icmp_replace_addr s.ori_src_addr b from_raw_sock stale.addr in
    let check = flow_check (entry_of_packet b' stale.ports) r.flow_table in
    if get_icmp_type b == 0
    then goes_on (record s { router = log_check (if logged then check else []) r; refresh = true })
        (udp s.peer (take 2048 b') ∷ [])
    else goes_on (record s { refresh = false }) []

unfoldable pub s4_raw : Stale → Buffer → Session → Handled Session
s4_raw = on_raw false

unfoldable pub s5_raw : Stale → Buffer → Session → Handled Session
s5_raw = on_raw true

-- `defaultInsert` at the start of stages 5 and 6.
unfoldable pub second_start : Session → Session
second_start s =
    let (t, line) = default_insert s.router.flow_table in
    record s { router = push_log (router_line s.router line) (record s.router { flow_table = t }) }
