-- ===== src/Examples/Primary.antt =====
-- The primary router at concrete states.
use simple_sdn.Base.{
  List, ℕ, true, false, ◌≡◌, ◌==◌, refl, [], ◌∷◌, none, some, arith, if◌then◌else◌,
}
use simple_sdn.Packet.Unpack.{Ports, IcmpOut, entry_of_packet, octane_unpack}
use simple_sdn.Timers.Timeval.{Timeval}
use simple_sdn.Timers.Queue.{Event, TimerEntry}
use simple_sdn.Timers.Manager.{Timers}
use simple_sdn.Timers.Manager.Handles.{timer_of}
use simple_sdn.Router.{Router, Peer, Sent, udp, push_log, router_line}
use simple_sdn.Router.Logging.{icmp_forward_log}
use simple_sdn.Router.Primary.{OctaneTimer, Primary, watch, acknowledged, expire}
use simple_sdn.Router.Primary.Watch.{IsWatched, handle_of}
use simple_sdn.Router.Primary.Acked.{acknowledged_lem}
use simple_sdn.Router.Primary.Timing.{
  Wait, before_select, on_timeout, fires_twice, fire_expired, is_zero,
}
use simple_sdn.Examples.Flows.{ping_msg}
use simple_sdn.Examples.Packets.{request}
use simple_sdn.Router.Primary.Drain.{fire_expired_ends}
use simple_sdn.Router.Handler.{Handled, goes_on, returns, exits, overrun}
use simple_sdn.Timers.Manager.{timers_start, next_timer_time}
use simple_sdn.Router.Primary.Packets.{on_tunnel}
use simple_sdn.Router.Primary.Resend.{Holds, Reached-resends}
use simple_sdn.Router.Primary.Steps.{Reached, from_tunnel, started, stepped}
use simple_sdn.Router.Primary.Origin.{Among}
use simple_sdn.Router.Primary.Origin.History.{history, waiting_resends}
use simple_sdn.Examples.Routers.{router, peer, stale}

abbrev pub now : Timeval
now = record { tv_sec = 100; tv_usec = 0 }

abbrev event : Event OctaneTimer
event = record {
  tv = now;
  event_type = 1;
  payload = record {
    hdl = 1;
    timeout = 2000;
    cb = record { msg = ping_msg; seq = 7; rou2_addr = peer };
  };
}

abbrev primary : Primary
primary = record {
  router = router;
  port_num = 4000;
  un_ack = (7, 1) ∷ [];
  timers = record { next_handle = 2; eq = event ∷ [] };
  refresh = true;
}

primary-IsWatched : IsWatched primary
unfolding handle_of simple_sdn.StdMap.find timer_of
primary-IsWatched = record {
  timers = record { sorted = (tt, tt); distinct = (tt, tt); given = ((refl, ground arith), tt) };
  no_zero = refl;
  next = ground arith;
  sorted = (tt, tt);
  delay = λ g e k. ground arith;
  watched = λ s h k. (event.payload, ground arith, ground arith);
}

acknowledged_lem_example :
    (p' : Primary) × (acknowledged 7 primary ≡ some p')
    × (timer_of 1 p'.timers.eq ≡ none)
    × ((s : ℕ) → handle_of s p'.un_ack ≡ (if 7 == s then none else handle_of s primary.un_ack))
    × IsWatched p'
unfolding handle_of simple_sdn.StdMap.find
acknowledged_lem_example = acknowledged_lem 7 1 primary primary-IsWatched refl

fires_twice_example :
    (q : Primary) × (wait : Wait) × (before_select 0 now now primary
      ≡ some ((q, expire 0 event.payload.cb ∷ []), wait))
    × ((q' : Primary) × (on_timeout 0 now (now ∷ []) wait q
          ≡ some (q', some (expire 0 event.payload.cb ∷ []))))
unfolding simple_sdn.Timers.Manager.next_timer_time simple_sdn.Timers.Queue.eq_next_timer
    simple_sdn.Timers.Timeval.timeval_sub simple_sdn.Timers.Timeval.timeval_cmp
fires_twice_example = fires_twice 0 now now primary event (ground arith) refl refl refl

-- The handler of a new ICMP flow from an empty start.
abbrev pub start : Primary
start = record {
  router = router;
  port_num = 4000;
  un_ack = [];
  timers = timers_start;
  refresh = true;
}

abbrev pub state_of : Handled Primary → Primary
state_of (goes_on p sent) = p
state_of (returns p) = p
state_of exits = start
state_of overrun = start

abbrev sent_of : Handled Primary → List Sent
sent_of (goes_on p sent) = sent
sent_of (returns p) = []
sent_of exits = []
sent_of overrun = []

abbrev pub new_ping : Handled Primary
new_ping = on_tunnel true now stale false peer request 0 start

new_ping-goes_on : new_ping ≡ goes_on (state_of new_ping) (sent_of new_ping)
unfolding on_tunnel simple_sdn.Router.Logging.icmp_forward_log simple_sdn.Packet.Unpack.icmp_unpack
new_ping-goes_on = refl

pub new_ping-Reached : Reached (state_of new_ping)
new_ping-Reached =
    stepped (started router 4000 true)
      (from_tunnel true now stale false peer request 0 (sent_of new_ping) new_ping-goes_on)

waiting_resends_example :
    (x : TimerEntry OctaneTimer) × (timer_of 1 (state_of new_ping).timers.eq ≡ some x)
    × (x.cb.msg.octane_seqno ≡ 65535)
    × ((junk : ℕ) × Among (expire junk x.cb) (history new_ping-Reached))
unfolding on_tunnel simple_sdn.Router.Logging.icmp_forward_log simple_sdn.Packet.Unpack.icmp_unpack
    handle_of simple_sdn.StdMap.find simple_sdn.Flow.Table.flow_check
    simple_sdn.Router.Primary.Packets.new_flow simple_sdn.Router.Forward.packet_dst_check
    simple_sdn.Config.Entries.text_eq simple_sdn.Router.Primary.Packets.announce_both watch
    simple_sdn.StdMap.assign simple_sdn.Router.Create.create_octane_msg
    simple_sdn.Router.Primary.Packets.own_rules simple_sdn.Router.Primary.Packets.log_lines
    simple_sdn.Flow.Table.db_insert push_log simple_sdn.Router.Create.create_reverse_octane_msg
    simple_sdn.Timers.Manager.add_timer simple_sdn.Timers.Queue.eq_add_after
    simple_sdn.Timers.Timeval.timeval_cmp
waiting_resends_example = waiting_resends (state_of new_ping) new_ping-Reached 65535 1 refl

abbrev later : Timeval
later = record { tv_sec = 102; tv_usec = 0 }

abbrev waits : Wait
waits = record { timeout = later; event_timeout = true }

Reached-resends_example :
    (x : TimerEntry OctaneTimer) × (x.cb.msg.octane_seqno ≡ 65535)
    × ((before : ℕ) × Among (expire before x.cb) (history new_ping-Reached))
    × ((p' : Primary) × (sent : List Sent) × (on_timeout 0 later
            (later ∷ later ∷ [])
            waits
            (state_of new_ping)
          ≡ some (p', some sent))
        × Holds (expire 0 x.cb) sent)
unfolding on_tunnel simple_sdn.Router.Logging.icmp_forward_log simple_sdn.Packet.Unpack.icmp_unpack
    handle_of simple_sdn.StdMap.find simple_sdn.Flow.Table.flow_check
    simple_sdn.Router.Primary.Packets.new_flow simple_sdn.Router.Forward.packet_dst_check
    simple_sdn.Config.Entries.text_eq simple_sdn.Router.Primary.Packets.announce_both watch
    simple_sdn.StdMap.assign simple_sdn.Router.Create.create_octane_msg
    simple_sdn.Router.Primary.Packets.own_rules simple_sdn.Router.Primary.Packets.log_lines
    simple_sdn.Flow.Table.db_insert push_log simple_sdn.Router.Create.create_reverse_octane_msg
    simple_sdn.Timers.Manager.add_timer simple_sdn.Timers.Queue.eq_add_after
    simple_sdn.Timers.Timeval.timeval_cmp
Reached-resends_example =
    Reached-resends 0 later waits (state_of new_ping) 65535 1 new_ping-Reached refl refl
      (ground arith) (ground arith, (ground arith, tt))

fire_expired_ends_example :
    (p' : Primary) × (sent : List Sent) × (fire_expired 0 (now ∷ now ∷ []) primary
      ≡ some (p', sent))
    × (is_zero (next_timer_time now p'.timers) ≡ false)
fire_expired_ends_example = fire_expired_ends 0 now primary (ground arith) (refl, tt)
