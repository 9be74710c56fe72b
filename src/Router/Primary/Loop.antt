-- ===== src/Router/Primary/Loop.antt =====
-- One round of the loops of `primaryRouter_s2` to `primaryRouter_s10`, around the handlers.
use simple_sdn.Base.{ℕ, Bool, true, false, if◌then◌else◌, List, [], ◌++◌, ◌/=◌, Option, none, some}
use simple_sdn.Timers.Timeval.{Timeval}
use simple_sdn.Packet.Edit.{from_tunnel}
use simple_sdn.Router.{Router, Peer}
use simple_sdn.Router.Logging.{icmp_forward_log}
use simple_sdn.Router.Primary.Stage2.{s2_tunnel, s2_reply}
use simple_sdn.Router.Handler.{Handled, goes_on, returns, overrun, with_sent, run_ready}
use simple_sdn.Router.Round.{Loop, fifteen, refreshed, FromTunnel, FromSocket, if_ready, idle_round}
use simple_sdn.Router.Primary.{Primary}
use simple_sdn.Router.Primary.Timing.{Wait, before_select, on_timeout}
use simple_sdn.Router.Primary.Packets.{s4_tunnel, s4_reply, s5_tunnel, s5_reply}
use simple_sdn.Router.Primary.Stage6.{s6_tunnel, s6_reply}
use simple_sdn.Router.Primary.Stage7.{s7_tunnel, s7_reply}
use simple_sdn.Router.Primary.Stage9.{Gate, s9_tunnel, s9_reply}
use simple_sdn.Router.Primary.Stage10.{s10_tunnel, s10_reply}

-- What `select` does: it times out, and the clock then reads `now` and the readings; or it leaves
-- some of the time, with the handlers of the descriptors that are ready.
pub data Select (S : Type 0) : Type 0 where
  timed_out : Timeval → List Timeval → Select S
  woken : Timeval → List (S → Handled S) → Select S

-- The round after `before_select`. The state holds a primary router's, which `get` and `put` read
-- and write.
unfoldable pub after_select :
    {S : Type 0} → (S → Primary) → (Primary → S → S) → ℕ → Wait → Select S → S → Handled (Loop S)
after_select get put junk wait (timed_out now readings) s =
    elim (on_timeout junk now readings wait (get s)) [
      | none ↦ overrun
      | some (p, none) ↦ returns (record { state = put p s; timeout = wait.timeout })
      | some (p, some sent) ↦ goes_on (record { state = put p s; timeout = fifteen }) sent
    ]
after_select get put junk wait (woken left ready) s =
    refreshed (λ s. (get s).refresh) left (run_ready ready s)

-- A round that begins at the time `now`; `overrun` is also the access to a null pointer.
unfoldable pub primary_round :
    {S : Type 0}
    → (S → Primary)
    → (Primary → S → S)
    → ℕ
    → Timeval
    → Select S
    → Loop S
    → Handled (Loop S)
primary_round get put junk now select l = elim (before_select junk now l.timeout (get l.state)) [
  | none ↦ overrun
  | some ((p, sent), wait) ↦ with_sent sent (after_select get put junk wait select (put p l.state))
]

abbrev pub same : Primary → Primary
same p = p

abbrev pub instead : Primary → Primary → Primary
instead p q = p

-- The rounds of the stages; `rou2` is the secondary router of stages 4 and 5, `port1` to `port3` are
-- the ports of the first three.
unfoldable pub s4_round :
    ℕ
    → Timeval
    → Timeval
    → Peer
    → Option FromTunnel
    → Option FromSocket
    → Loop Primary
    → Handled (Loop Primary)
s4_round junk now left rou2 tunnel socket = primary_round same instead junk now (
    woken left (
      if_ready (λ t. s4_tunnel t.now t.stale t.failed rou2 t.packet junk) tunnel
      ++ if_ready (λ s. s4_reply s.stale s.failed s.nread s.sender s.packet) socket))

unfoldable pub s5_round :
    ℕ
    → Timeval
    → Timeval
    → Peer
    → Option FromTunnel
    → Option FromSocket
    → Loop Primary
    → Handled (Loop Primary)
s5_round junk now left rou2 tunnel socket = primary_round same instead junk now (
    woken left (
      if_ready (λ t. s5_tunnel t.now t.stale t.failed rou2 t.packet junk) tunnel
      ++ if_ready (λ s. s5_reply s.stale s.failed s.nread s.sender s.packet) socket))

unfoldable pub s6_round :
    ℕ
    → Timeval
    → Timeval
    → ℕ
    → ℕ
    → Option FromTunnel
    → Option FromSocket
    → Loop Primary
    → Handled (Loop Primary)
s6_round junk now left port1 port2 tunnel socket = primary_round same instead junk now (
    woken left (
      if_ready (λ t. s6_tunnel t.now t.stale t.failed port1 port2 t.packet junk) tunnel
      ++ if_ready (λ s. s6_reply s.stale s.nread s.sender s.packet) socket))

unfoldable pub s7_round :
    ℕ
    → Timeval
    → Timeval
    → ℕ
    → ℕ
    → Option FromTunnel
    → Option FromSocket
    → Loop Primary
    → Handled (Loop Primary)
s7_round junk now left port1 port2 tunnel socket = primary_round same instead junk now (
    woken left (
      if_ready (λ t. s7_tunnel t.now t.stale t.failed port1 port2 t.packet junk) tunnel
      ++ if_ready (λ s. s7_reply s.stale s.nread s.sender s.packet) socket))

unfoldable pub s9_round :
    ℕ
    → Timeval
    → Timeval
    → ℕ
    → ℕ
    → ℕ
    → Option FromTunnel
    → Option FromSocket
    → Loop Gate
    → Handled (Loop Gate)
s9_round junk now left port1 port2 port3 tunnel socket =
    primary_round (λ g. g.primary) (λ p g. record g { primary = p }) junk now
      (woken left (
        if_ready (λ t. s9_tunnel t.now t.stale t.failed port1 port2 port3 t.packet junk) tunnel
        ++ if_ready (λ s. s9_reply s.stale s.nread port1 junk s.sender s.packet) socket))

unfoldable pub s10_round :
    ℕ
    → Timeval
    → Timeval
    → ℕ
    → ℕ
    → Option FromTunnel
    → Option FromSocket
    → Loop Primary
    → Handled (Loop Primary)
s10_round junk now left port1 port2 tunnel socket = primary_round same instead junk now (
    woken left (
      if_ready (λ t. s10_tunnel t.now t.stale t.failed port1 port2 t.packet junk) tunnel
      ++ if_ready (λ s. s10_reply s.stale s.nread s.sender s.packet) socket))

-- The handlers of `primaryRouter_s2`: a packet from the tunnel that is no ICMP packet begins the next
-- round at once, without a new timeout.
abbrev tunnel_continues : Peer → Option FromTunnel → Router → Bool
tunnel_continues rou2 none r = false
tunnel_continues rou2 (some t) r =
    (icmp_forward_log t.packet t.stale.ports t.stale.icmp from_tunnel rou2.port r).0 /= 1

unfoldable pub s2_round :
    Option Timeval
    → Peer
    → Option FromTunnel
    → Option FromSocket
    → Loop Router
    → Handled (Loop Router)
s2_round left rou2 tunnel socket l =
    let again = tunnel_continues rou2 tunnel l.state in
    idle_round (λ r. if again then false else true) left
      (if_ready (λ t. s2_tunnel t.stale t.failed rou2 t.packet) tunnel
        ++ (if again
            then []
            else if_ready (λ s. s2_reply s.stale s.failed s.nread s.sender s.packet) socket))
      l
