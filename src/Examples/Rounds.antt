-- ===== src/Examples/Rounds.antt =====
-- Rounds of the routers' loops at concrete packets.
use simple_sdn.Base.{ℕ, List, [], none, some, ◌≡◌, ◌∷◌, refl, false, true, replicate, arith}
use simple_sdn.Router.{Sent}
use simple_sdn.Router.Handler.{Handled, goes_on, returns, exits, overrun}
use simple_sdn.Router.Round.{Loop, FromTunnel, FromSocket, fifteen}
use simple_sdn.Router.Control.Acks.{acks, is_dropped, count_of}
use simple_sdn.Router.Control.Counts.{IsCounting}
use simple_sdn.Router.Primary.{Primary}
use simple_sdn.Router.Primary.Watch.{handle_of}
use simple_sdn.Router.Primary.Steps.{Steps, IsReading, tunnel_in, started}
use simple_sdn.Router.Primary.Loop.{timed_out, primary_round, s5_round, same, instead}
use simple_sdn.Router.Primary.Refines.{round5, Round-Steps}
use simple_sdn.Router.Primary.Idle.{returns_idle}
use simple_sdn.Router.Second.{Session}
use simple_sdn.Router.Second.Loop.{second_s6_round}
use simple_sdn.Router.Second.Served.{Served, served6, Served-IsCounting, Served-acks}
use simple_sdn.Examples.Flows.{ping_msg}
use simple_sdn.Examples.Packets.{request}
use simple_sdn.Examples.Routers.{router, peer, stale, quiet, control, control_unpacks}
use simple_sdn.Examples.Primary.{start, now}

abbrev after : {S : Type 0} → Loop S → Handled (Loop S) → Loop S
after l (goes_on l' sent) = l'
after l (returns l') = l
after l exits = l
after l overrun = l

abbrev sent_in : {S : Type 0} → Handled (Loop S) → List Sent
sent_in (goes_on l sent) = sent
sent_in (returns l) = []
sent_in exits = []
sent_in overrun = []

abbrev before : Loop Primary
before = record { state = start; timeout = fifteen }

abbrev from_tunnel : FromTunnel
from_tunnel = record { now = now; stale = stale; failed = false; packet = request }

abbrev ping_round : Handled (Loop Primary)
ping_round = s5_round 0 now now peer (some from_tunnel) none before

ping_round-goes_on : ping_round ≡ goes_on (after before ping_round) (sent_in ping_round)
unfolding s5_round primary_round simple_sdn.Router.Primary.Timing.before_select
    simple_sdn.Timers.Manager.next_timer_time simple_sdn.Timers.Queue.eq_next_timer
    simple_sdn.Router.Primary.Loop.after_select simple_sdn.Router.Handler.run_ready
    simple_sdn.Router.Primary.Packets.s5_tunnel simple_sdn.Router.Primary.Packets.on_tunnel
    simple_sdn.Router.Logging.icmp_forward_log simple_sdn.Packet.Unpack.icmp_unpack
ping_round-goes_on = refl

Round-Steps_example :
    Steps
      (IsReading (now ∷ []))
      start
      (tunnel_in 5 request ∷ [])
      (sent_in ping_round)
      (after before ping_round).state
Round-Steps_example =
    Round-Steps start (after before ping_round).state (now ∷ []) (tunnel_in 5 request ∷ [])
      (sent_in ping_round)
      (round5 before (after before ping_round) 0 now now peer (some from_tunnel) none
        (sent_in ping_round) ping_round-goes_on)

idle-returns : primary_round same instead 0 now (timed_out now []) before ≡ returns before
unfolding primary_round simple_sdn.Router.Primary.Timing.before_select
    simple_sdn.Timers.Manager.next_timer_time simple_sdn.Timers.Queue.eq_next_timer
    simple_sdn.Router.Primary.Loop.after_select simple_sdn.Router.Primary.Timing.on_timeout
idle-returns = refl

returns_idle_example :
    (start.timers.eq ≡ []) × ((s : ℕ) → handle_of s start.un_ack ≡ none) × (start ≡ start)
returns_idle_example =
    returns_idle 0 now now [] before before (started router 4000 true) tt idle-returns

abbrev listening : Loop Session
listening = record { state = quiet; timeout = fifteen }

abbrev from_primary : FromSocket
from_primary = record { stale = stale; failed = false; nread = 40; sender = peer; packet = control }

abbrev control_round : Handled (Loop Session)
control_round = second_s6_round (some now) (some from_primary) none none listening

abbrev told : Session
told = (after listening control_round).state

control_round-goes_on :
    control_round ≡ goes_on (after listening control_round) (sent_in control_round)
unfolding second_s6_round simple_sdn.Router.Round.idle_round simple_sdn.Router.Handler.run_ready
    simple_sdn.Router.Second.Ruled.s6_udp simple_sdn.Router.Second.on_control
    simple_sdn.Router.Control.control_msg simple_sdn.Packet.Unpack.icmp_unpack
    simple_sdn.Packet.Unpack.octane_unpack simple_sdn.StdMap.find
    simple_sdn.Packet.Build.build_ip_packet simple_sdn.Octane.Bytes.bytes_of_msg
control_round-goes_on = refl

told-Served : Served told
told-Served =
    served6 listening (after listening control_round) (some now) (some from_primary) none none
      (sent_in control_round) (Served.started quiet refl (ground arith)) control_round-goes_on

Served-IsCounting_example : IsCounting told.router
Served-IsCounting_example = Served-IsCounting told told-Served

Served-acks_example : acks 5 (replicate 20 0) control told.router ≡ some 2
unfolding is_dropped simple_sdn.StdMap.find second_s6_round simple_sdn.Router.Round.idle_round
    simple_sdn.Router.Handler.run_ready simple_sdn.Router.Second.Ruled.s6_udp
    simple_sdn.Packet.Unpack.icmp_unpack simple_sdn.Packet.Build.build_ip_packet
    simple_sdn.Octane.Bytes.bytes_of_msg simple_sdn.Router.Second.on_control
    simple_sdn.Router.Control.control_msg simple_sdn.Packet.Unpack.octane_unpack
    simple_sdn.Router.Control.accept_msg simple_sdn.Router.Control.drop_counted
    simple_sdn.Router.Control.count_msg simple_sdn.Router.push_log simple_sdn.StdMap.assign
    simple_sdn.StdMap.erase simple_sdn.Router.Control.subscript count_of simple_sdn.Octane.octane_lt
    simple_sdn.Octane.Bytes.msg_of_bytes simple_sdn.Packet.Build.ip_header
    simple_sdn.Packet.Checksum.checksum
Served-acks_example =
    Served-acks 5 (replicate 20 0) control told 7 ping_msg told-Served control_unpacks refl
