-- ===== src/Router/Second/Loop.antt =====
-- One round of the loops of `secondRouter_s2` to `secondRouter_s6`.
use simple_sdn.Base.{Bool, true, false, ◌==◌, ◌/=◌, if◌then◌else◌, [], ◌++◌, Option, none, some}
use simple_sdn.Timers.Timeval.{Timeval}
use simple_sdn.Packet.Unpack.{icmp_unpack}
use simple_sdn.Router.Handler.{Handled}
use simple_sdn.Router.Round.{Loop, FromSocket, FromRaw, if_ready, idle_round}
use simple_sdn.Router.Second.{Session}
use simple_sdn.Router.Second.Stage2.{s2_udp, s3_raw}
use simple_sdn.Router.Second.Plain.{s4_udp, s4_raw, s5_udp, s5_raw}
use simple_sdn.Router.Second.Ruled.{s6_udp, s6_raw_icmp, s6_raw_tcp}

-- A packet that is no ICMP packet begins the next round of `secondRouter_s2` at once.
abbrev pub socket_continues : Option FromSocket → Bool
socket_continues none = false
socket_continues (some p) = (icmp_unpack p.packet p.stale.icmp).0 /= 1

-- The rounds; `left` is the time that `select` leaves. Stage 2 has no raw socket.
unfoldable pub second_s2_round :
    Option Timeval → Option FromSocket → Option FromRaw → Loop Session → Handled (Loop Session)
second_s2_round left socket raw l =
    idle_round (λ s. s.refresh) left
      (if_ready (λ p. s2_udp p.stale p.failed p.sender p.packet) socket
        ++ (if socket_continues socket
            then []
            else if l.state.router.stage == 3
            then if_ready (λ p. s3_raw p.stale p.packet) raw
            else []))
      (record l { state = record l.state { refresh = true } })

unfoldable pub second_s4_round :
    Option Timeval → Option FromSocket → Option FromRaw → Loop Session → Handled (Loop Session)
second_s4_round left socket raw =
    idle_round (λ s. s.refresh) left
      (if_ready (λ p. s4_udp p.stale p.failed p.sender p.packet) socket
        ++ if_ready (λ p. s4_raw p.stale p.packet) raw)

unfoldable pub second_s5_round :
    Option Timeval → Option FromSocket → Option FromRaw → Loop Session → Handled (Loop Session)
second_s5_round left socket raw =
    idle_round (λ s. s.refresh) left
      (if_ready (λ p. s5_udp p.stale p.failed p.sender p.packet) socket
        ++ if_ready (λ p. s5_raw p.stale p.packet) raw)

-- Stage 6 has a raw socket for ICMP and one for TCP.
unfoldable pub second_s6_round :
    Option Timeval
    → Option FromSocket
    → Option FromRaw
    → Option FromRaw
    → Loop Session
    → Handled (Loop Session)
second_s6_round left socket icmp tcp =
    idle_round (λ s. s.refresh) left
      (if_ready (λ p. s6_udp p.stale p.failed p.sender p.packet) socket
        ++ (if_ready (λ p. s6_raw_icmp p.stale p.packet) icmp
            ++ if_ready (λ p. s6_raw_tcp p.stale p.packet) tcp))
