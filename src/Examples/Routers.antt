-- ===== src/Examples/Routers.antt =====
-- The routers at concrete packets.
use simple_sdn.Base.{
  true, false, ◌≡◌, ◌≢◌, ◌<◌, refl, [], ◌∷◌, some, arith, Buffer, replicate, take,
}
use simple_sdn.Octane.Bytes.{bytes_of_msg}
use simple_sdn.Flow.{FlowEntry, FlowAction, entry_of_msg, reverse}
use simple_sdn.Flow.Table.{flow_check_out}
use simple_sdn.Packet.Build.{build_ip_packet, octane_unpack-build_ip_packet}
use simple_sdn.Packet.Unpack.{Ports, IcmpOut, entry_of_packet, octane_unpack}
use simple_sdn.Packet.Edit.{from_udp}
use simple_sdn.Router.{Router, Peer, Sent, udp, push_log, router_line}
use simple_sdn.Router.Create.{create_octane_msg, create_reverse_octane_msg, create_octane_msg_lem}
use simple_sdn.Router.Logging.{icmp_forward_log}
use simple_sdn.Router.Control.Acks.{is_dropped}
use simple_sdn.Router.Handler.{Stale, goes_on}
use simple_sdn.Router.Forward.{localhost}
use simple_sdn.Router.Second.{Session}
use simple_sdn.Router.Second.Ruled.{s6_udp}
use simple_sdn.Router.Second.Ruled.Rules.{s6_udp-keeps}
use simple_sdn.Router.Second.Ruled.Install.{s6_udp-installs}
use simple_sdn.Packet.Edit.{octane_reply_edit}
use simple_sdn.Examples.Flows.{ping, ping_msg, ping_msg-IsMsg, to_5000}
use simple_sdn.Examples.Packets.{request}

abbrev pub router : Router
router = record {
  stage = 6;
  router_id = 1;
  seqno_cnt = 65535;
  log = [];
  flow_table = [];
  msg_count = [];
  dropped_msg = [];
  drop_after = 3;
}

abbrev pub ports : Ports
ports = record { src_port = 0; dst_port = 0 }

abbrev pub peer : Peer
peer = record { addr = localhost; port = 4000 }

abbrev pub stale : Stale
stale = record {
  ports = ports;
  icmp = record { src_addr = 0; dst_addr = 0; icmp_type = 0 };
  msg_bytes = replicate 20 0;
  entry = ping;
  action = to_5000;
  peer = peer;
  addr = 0;
}

create_octane_msg_lem_example :
    let ((msg, seqno), r') = create_octane_msg request ports 1 0 true router in
    let ((rev, seqno'), r'') = create_reverse_octane_msg msg 4000 true r' in
    (entry_of_msg msg ≡ entry_of_packet request ports)
    × (entry_of_msg rev ≡ reverse (entry_of_packet request ports))
    × (msg.octane_seqno ≡ seqno)
    × (rev.octane_seqno ≡ seqno')
    × (seqno ≢ seqno')
    × (r''.seqno_cnt < 65536)
create_octane_msg_lem_example = create_octane_msg_lem request ports 1 0 4000 router (ground arith)

abbrev pub control : Buffer
control = build_ip_packet (replicate 40 0) 40 253 localhost localhost (bytes_of_msg ping_msg) 0

pub control_unpacks : octane_unpack control (replicate 20 0) ≡ some (7, ping_msg)
control_unpacks =
    octane_unpack-build_ip_packet (replicate 40 0) 40 localhost localhost 0 ping_msg
      (replicate 20 0) ping_msg-IsMsg (ground arith) (ground arith) refl

abbrev session : Session
session = record {
  router = record router { flow_table = (ping, to_5000) ∷ [] };
  ori_src_addr = 0;
  peer = peer;
  refresh = false;
}

abbrev pub quiet : Session
quiet = record { router = router; ori_src_addr = 0; peer = peer; refresh = false }

-- A rule to remove the rule.
abbrev removing : Session
removing = record session {
  router = record router { flow_table = (ping, record { fwd_port = 0; action = 4 }) ∷ [] };
}

abbrev removing_end : Session
removing_end = record removing {
  router =
      push_log
        (router_line removing.router
          (flow_check_out (entry_of_packet request ports) ping removing.router.flow_table).0)
        (icmp_forward_log request ports stale.icmp from_udp 4000 removing.router).1;
  refresh = true;
}

removing-runs : s6_udp stale false peer request removing ≡ goes_on removing_end []
unfolding s6_udp simple_sdn.Router.Second.Ruled.on_hit
    simple_sdn.Router.Forward.octane_rules_controller simple_sdn.StdMap.find
    simple_sdn.Flow.entry_lt simple_sdn.Flow.less_masked simple_sdn.Flow.less_exact
    simple_sdn.Flow.is_wild entry_of_packet simple_sdn.Packet.Unpack.ip_unpack flow_check_out
    simple_sdn.Flow.Table.contains_out simple_sdn.Packet.Unpack.icmp_unpack icmp_forward_log
    push_log router_line
removing-runs = refl

s6_udp-keeps_example :
    (removing_end.router.flow_table ≡ removing.router.flow_table)
    × (removing_end.router.msg_count ≡ removing.router.msg_count)
    × (removing_end.router.dropped_msg ≡ removing.router.dropped_msg)
s6_udp-keeps_example =
    s6_udp-keeps stale false peer request removing removing_end [] (ground arith) removing-runs

s6_udp-installs_example :
    (s' : Session) × (s6_udp stale false peer control quiet
      ≡ goes_on s' (udp peer (octane_reply_edit control) ∷ []))
    × ((s'' : Session) × (s6_udp stale false peer request s'
          ≡ goes_on s'' (udp (record { addr = localhost; port = 5000 }) (take 65500 request) ∷ [])))
unfolding build_ip_packet simple_sdn.Packet.Build.ip_header simple_sdn.Base.memcpy is_dropped
    simple_sdn.StdMap.find simple_sdn.Flow.is_wild entry_of_msg entry_of_packet
    simple_sdn.Packet.Unpack.ip_unpack bytes_of_msg
s6_udp-installs_example =
    s6_udp-installs true stale peer control request quiet 7 ping_msg refl control_unpacks refl refl
      (ground arith) refl tt (ground arith) refl
