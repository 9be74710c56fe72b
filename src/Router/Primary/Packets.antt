-- ===== src/Router/Primary/Packets.antt =====
-- The handlers of `primaryRouter_s4` and `primaryRouter_s5`, for packets from the tunnel and from
-- the secondary router. Buffers have 2048 bytes, zeroed before each packet is read.
use simple_sdn.Base.{
  ℕ, Bool, true, false, ◌==◌, ◌%◌, ◌&&◌, not, if◌then◌else◌, List, [], ◌∷◌, ◌++◌, Text, text,
  Buffer, take,
}
use simple_sdn.Flow.Table.{flow_check, db_insert}
use simple_sdn.Packet.Unpack.{entry_of_packet}
use simple_sdn.Packet.Edit.{from_tunnel, from_udp}
use simple_sdn.Timers.Timeval.{Timeval}
use simple_sdn.Router.{Router, Peer, Sent, udp, tunnel, push_log, router_line}
use simple_sdn.Router.Create.{create_octane_msg, create_reverse_octane_msg}
use simple_sdn.Router.Logging.{icmp_forward_log}
use simple_sdn.Router.Forward.{packet_dst_check}
use simple_sdn.Router.Handler.{Stale, Handled, goes_on, exits, non_empty, log_check}
use simple_sdn.Router.Primary.{Primary, control_packet, watch, on_ack}

-- The log lines of `dbInsert`.
unfoldable pub log_lines : List Text → Router → Router
log_lines [] r = r
log_lines (l ∷ ls) r = log_lines ls (push_log (router_line r l) r)

-- The rule of a new flow and of its reverse, in the primary router's own table.
unfoldable pub own_rules : Stale → Peer → Buffer → Router → Router
own_rules stale rou2 b r =
    let ((m, seq), r') = create_octane_msg b stale.ports 1 rou2.port false r in
    let (t, ls) = db_insert m 65535 r'.flow_table in log_lines ls (record r' { flow_table = t })

-- The control message to a destination of the secondary router's own net.
unfoldable pub announce : Timeval → Stale → ℕ → Peer → Buffer → ℕ → Primary → Primary × List Sent
announce now stale action rou2 b junk p =
    let ((m, seq), r) = create_octane_msg b stale.ports action 65535 true p.router in
    (watch now rou2 m seq (record p { router = r }), udp rou2 (control_packet junk m) ∷ [])

-- The two control messages to a destination outside: the flow goes out by the raw socket and the
-- reverse flow back to the primary router's port.
unfoldable pub announce_both : Timeval → Stale → Peer → Buffer → ℕ → Primary → Primary × List Sent
announce_both now stale rou2 b junk p =
    let ((m, seq), r) = create_octane_msg b stale.ports 1 0 true p.router in
    let ((back, seq'), r') = create_reverse_octane_msg m (p.port_num % 65536) true r in
    (
      watch now rou2 back seq' (watch now rou2 m seq (record p { router = r' })),
      udp rou2 (control_packet junk m) ∷ udp rou2 (control_packet junk back) ∷ [],
    )

-- A packet of a flow without a rule. The destination that the checks read is the uninitialised
-- `dstAddr`. Stage 5 is told by `logged`: it knows no host that drops, and logs the new rule's hit.
unfoldable pub new_flow : Bool → Timeval → Stale → Peer → Buffer → ℕ → Primary → Primary × List Sent
new_flow logged now stale rou2 b junk p =
    let p' = record p { router = own_rules stale rou2 b p.router } in
    let inside = packet_dst_check stale.addr (text "10.5.51.0") 0x00FFFFFF == 1 in
    let drops = not logged && packet_dst_check stale.addr (text "10.5.51.4") 0xFFFFFFFF == 1 in
    let (q, sent) =
      if inside
      then announce now stale (if drops then 3 else 2) rou2 b junk p'
      else announce_both now stale rou2 b junk p' in
    let check = flow_check (entry_of_packet b stale.ports) q.router.flow_table in
    (if logged then record q { router = log_check check q.router } else q, sent)

-- The handler of a packet from the tunnel; `failed` is `nread < 0`.
unfoldable pub on_tunnel :
    Bool → Timeval → Stale → Bool → Peer → Buffer → ℕ → Primary → Handled Primary
on_tunnel logged now stale failed rou2 b junk p =
    let check = flow_check (entry_of_packet b stale.ports) p.router.flow_table in
    let (a, r) = icmp_forward_log b stale.ports stale.icmp from_tunnel rou2.port p.router in
    let p' = record p { router = r; refresh = true } in
    let (q, sent) =
      if non_empty check
      then (if logged then record p' { router = log_check check r } else p', [])
      else new_flow logged now stale rou2 b junk p' in
    if failed
    then exits
    else if a == 1
    then goes_on q (sent ++ udp rou2 (take 2048 b) ∷ [])
    else goes_on (record p' { refresh = false }) []

-- The handler of a packet of `nread` bytes from the secondary router.
unfoldable pub on_reply : Bool → Stale → Bool → ℕ → Peer → Buffer → Primary → Handled Primary
on_reply logged stale failed nread rou2 b p =
    let check = flow_check (entry_of_packet b stale.ports) p.router.flow_table in
    let (a, r) = icmp_forward_log b stale.ports stale.icmp from_udp rou2.port p.router in
    let r' = if logged then log_check check r else r in
    let p' = record p { router = r'; refresh = true } in
    if failed
    then exits
    else if a == 1
    then goes_on p' (tunnel (take nread b) ∷ [])
    else if a == 253
    then on_ack stale b p'
    else goes_on (record p' { refresh = false }) []

unfoldable pub s4_tunnel : Timeval → Stale → Bool → Peer → Buffer → ℕ → Primary → Handled Primary
s4_tunnel = on_tunnel false

unfoldable pub s5_tunnel : Timeval → Stale → Bool → Peer → Buffer → ℕ → Primary → Handled Primary
s5_tunnel = on_tunnel true

unfoldable pub s4_reply : Stale → Bool → ℕ → Peer → Buffer → Primary → Handled Primary
s4_reply = on_reply false

unfoldable pub s5_reply : Stale → Bool → ℕ → Peer → Buffer → Primary → Handled Primary
s5_reply = on_reply true
