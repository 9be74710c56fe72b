-- ===== src/Examples/Handshakes.antt =====
-- A control message of a ping and its acknowledgement.
use simple_sdn.Base.{ℕ, false, ◌==◌, if◌then◌else◌, [], ◌∷◌, none, ◌≡◌, refl, Buffer, arith}
use simple_sdn.Octane.{OctaneControl}
use simple_sdn.Octane.Bytes.{IsMsg}
use simple_sdn.Timers.Manager.Handles.{timer_of}
use simple_sdn.Router.{push_log, udp}
use simple_sdn.Router.Control.Acks.{is_dropped}
use simple_sdn.Router.Handler.{goes_on}
use simple_sdn.Router.Second.{Session}
use simple_sdn.Router.Second.Ruled.{s6_udp}
use simple_sdn.Router.Primary.{Primary, control_packet, watch}
use simple_sdn.Router.Primary.Packets.{on_tunnel}
use simple_sdn.Router.Primary.Stage6.{s6_reply}
use simple_sdn.Router.Primary.Watch.{handle_of}
use simple_sdn.Router.Handshake.{answered_once}
use simple_sdn.Examples.Flows.{ping_msg}
use simple_sdn.Examples.Routers.{peer, stale, quiet}
use simple_sdn.Examples.Primary.{state_of, new_ping, new_ping-Reached}

abbrev message : OctaneControl
message = record ping_msg { octane_seqno = 65535 }

message-IsMsg : IsMsg message
message-IsMsg = record {
  action = ground arith;
  flags = ground arith;
  seqno = ground arith;
  source_ip = ground arith;
  dest_ip = ground arith;
  source_port = ground arith;
  dest_port = ground arith;
  protocol = ground arith;
  port = ground arith;
}

abbrev pinged : Primary
pinged = state_of new_ping

answered_once_example :
    (s' : Session) × (reply : Buffer) × (p' : Primary) × (s6_udp stale false peer
        (control_packet 0 message)
        quiet
      ≡ goes_on s' (udp peer reply ∷ []))
    × (s6_reply stale 2048 peer reply pinged ≡ goes_on p' [])
    × (timer_of 1 p'.timers.eq ≡ none)
    × ((n : ℕ) → handle_of n p'.un_ack ≡ (if 65535 == n then none else handle_of n pinged.un_ack))
unfolding on_tunnel simple_sdn.Router.Logging.icmp_forward_log simple_sdn.Packet.Unpack.icmp_unpack
    handle_of simple_sdn.StdMap.find simple_sdn.Flow.Table.flow_check
    simple_sdn.Router.Primary.Packets.new_flow simple_sdn.Router.Forward.packet_dst_check
    simple_sdn.Config.Entries.text_eq simple_sdn.Router.Primary.Packets.announce_both watch
    simple_sdn.StdMap.assign simple_sdn.Router.Create.create_octane_msg
    simple_sdn.Router.Primary.Packets.own_rules simple_sdn.Router.Primary.Packets.log_lines
    simple_sdn.Flow.Table.db_insert push_log simple_sdn.Router.Create.create_reverse_octane_msg
    simple_sdn.Timers.Manager.add_timer simple_sdn.Timers.Queue.eq_add_after
    simple_sdn.Timers.Timeval.timeval_cmp is_dropped
answered_once_example =
    answered_once stale stale peer peer 2048 0 1 message quiet pinged message-IsMsg refl refl refl
      new_ping-Reached refl
