-- ===== src/Router/Primary/Stage9.antt =====
-- The handlers of `primaryRouter_s9`: web flows go to a captive portal, the third secondary router,
-- until the portal's control message says that the user is authenticated.
use simple_sdn.Base.{
  ℕ, Bool, true, false, ◌==◌, ◌||◌, ◌&&◌, ◌%◌, not, if◌then◌else◌, List, [], ◌∷◌, Option, none,
  some, Buffer, take, htonl,
}
use simple_sdn.Octane.{OctaneControl}
use simple_sdn.Flow.Table.{FlowTable, flow_check_out, db_insert, remove}
use simple_sdn.Packet.Unpack.{entry_of_packet, tcp_unpack, octane_unpack}
use simple_sdn.Packet.Edit.{from_tunnel, from_udp}
use simple_sdn.Timers.Timeval.{Timeval}
use simple_sdn.Router.{Peer, Sent, udp, tunnel}
use simple_sdn.Router.Create.{create_octane_msg, create_reverse_octane_msg}
use simple_sdn.Router.Logging.{icmp_forward_log}
use simple_sdn.Router.Forward.{localhost}
use simple_sdn.Router.Handler.{
  Stale, Handled, goes_on, returns, exits, overrun, non_empty, log_check,
}
use simple_sdn.Router.Primary.{Primary, control_packet, acknowledged}
use simple_sdn.Router.Primary.Packets.{log_lines}
use simple_sdn.Router.Primary.Stage6.{new_flow_to, tunnel_packet}

-- The state of stage 9: `isAuthenticated`, `authOctMsg` and `authOctMsgRev` beside the router's.
pub record Gate : Type 0 where
  pub primary : Primary
  pub is_authenticated : Bool
  pub auth_msg : OctaneControl
  pub auth_rev : OctaneControl

-- The router of a TCP packet.
unfoldable pub s9_target : Stale → Bool → ℕ → ℕ → ℕ → Buffer → Peer
s9_target stale is_authenticated port1 port2 port3 b = record {
  addr = localhost;
  port =
      if tcp_unpack b == 80
      then if is_authenticated then port1 else port3
      else if tcp_unpack b == 443
      then port2
      else stale.peer.port;
}

-- The rules of a captive flow are kept, to be removed later.
unfoldable pub save_auth : Stale → Peer → Buffer → Gate → Gate
save_auth stale target b g =
    let p = g.primary in
    let msg = (create_octane_msg b stale.ports 1 target.port false p.router).0.0 in
    let rev = (create_reverse_octane_msg msg (p.port_num % 65536) false p.router).0.0 in
    record g { auth_msg = msg; auth_rev = rev }

-- They are kept for a new flow to port 80 of a user who is not authenticated.
unfoldable pub captive_gate : Stale → ℕ → Peer → Buffer → Gate → Gate
captive_gate stale port1 target b g =
    let r = g.primary.router in
    let check = (flow_check_out (entry_of_packet b stale.ports) stale.entry r.flow_table).0 in
    let a = (icmp_forward_log b stale.ports stale.icmp from_tunnel port1 r).0 in
    let captive = a == 6 && not (non_empty check) && tcp_unpack b == 80 && not g.is_authenticated in
    if captive then save_auth stale target b g else g

abbrev pub with_primary : Gate → Handled Primary → Handled Gate
with_primary g (goes_on p sent) = goes_on (record g { primary = p }) sent
with_primary g (returns p) = returns (record g { primary = p })
with_primary g exits = exits
with_primary g overrun = overrun

-- The handler of a packet from the tunnel.
unfoldable pub s9_tunnel : Timeval → Stale → Bool → ℕ → ℕ → ℕ → Buffer → ℕ → Gate → Handled Gate
s9_tunnel now stale failed port1 port2 port3 b junk g =
    let p = g.primary in
    let target = s9_target stale g.is_authenticated port1 port2 port3 b in
    let entry = entry_of_packet b stale.ports in
    let check = (flow_check_out entry stale.entry p.router.flow_table).0 in
    with_primary (captive_gate stale port1 target b g) (
      tunnel_packet now stale failed check port1 port2 target (new_flow_to now stale target b junk)
        b junk p)

-- The rules that a grant leaves in the flow table, and their log lines.
unfoldable pub grant_rules :
    OctaneControl → OctaneControl → OctaneControl → FlowTable → FlowTable × List (List ℕ)
grant_rules msg auth_msg auth_rev t =
    let t1 : FlowTable = (remove auth_msg t).0 in
    let t2 : FlowTable = (remove auth_rev t1).0 in db_insert msg 0 t2

-- The message of a grant: the portal sends the source address in host order.
unfoldable pub granted : OctaneControl → OctaneControl
granted m = record m { octane_source_ip = htonl m.octane_source_ip; octane_action = 1 }

-- The branch of the action 5: the captive flow's rules are removed, the flow's own are set, and the
-- first secondary router gets both messages, which are not watched.
unfoldable pub on_grant : ℕ → ℕ → OctaneControl → Gate → Gate × List Sent
on_grant port1 junk m g =
    let p = g.primary in
    let msg = granted m in
    let (t, lines) = grant_rules msg g.auth_msg g.auth_rev p.router.flow_table in
    let r = log_lines lines (record p.router { flow_table = t }) in
    let out = record msg { octane_port = 0 } in
    let rev = (create_reverse_octane_msg out (p.port_num % 65536) false r).0.0 in
    let first : Peer = record { addr = localhost; port = port1 } in
    (
      record g { primary = record p { router = r }; is_authenticated = true },
      udp first (control_packet junk out) ∷ udp first (control_packet junk rev) ∷ [],
    )

-- The acknowledgement in a message, if it is one; `none` is `exit(1)`.
unfoldable pub acknowledged_if : ℕ → OctaneControl → Primary → Option Primary
acknowledged_if seq m p = if m.octane_flags == 1 then acknowledged seq p else some p

-- The branch of a control packet: an acknowledgement, a grant or both.
unfoldable pub s9_control : Stale → ℕ → ℕ → Buffer → Gate → Handled Gate
s9_control stale port1 junk b g = elim (octane_unpack b stale.msg_bytes) [
  | none ↦ overrun
  | some (seq, m) ↦ elim (acknowledged_if seq m g.primary) [
    | none ↦ exits
    | some p ↦
        let g' = record g { primary = p } in
        let (h, sent) = on_grant port1 junk m g' in
        if m.octane_action == 5 then goes_on h sent else goes_on g' []
  ]
]

-- The handler of a packet of `nread` bytes from a secondary router, in a buffer of 65535 bytes.
unfoldable pub s9_reply : Stale → ℕ → ℕ → ℕ → Peer → Buffer → Gate → Handled Gate
s9_reply stale nread port1 junk rou2 b g =
    let p = g.primary in
    let entry = entry_of_packet b stale.ports in
    let check = (flow_check_out entry stale.entry p.router.flow_table).0 in
    let (a, r) = icmp_forward_log b stale.ports stale.icmp from_udp rou2.port p.router in
    let p' = record p { router = log_check check r; refresh = true } in
    let g' = record g { primary = p' } in
    if a == 1 || a == 6
    then goes_on g' (tunnel (take nread b) ∷ [])
    else if a == 253
    then s9_control stale port1 junk b g'
    else goes_on (record g { primary = record p' { refresh = false } }) []
