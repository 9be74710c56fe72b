-- ===== src/Router/Primary/Refines.antt =====
-- The loops of the primary router refine the state machine of Router/Primary/Steps.
use simple_sdn.Base.{ℕ, true, false, List, [], ◌∷◌, ◌++◌, Option, ◌≡◌, refl, inl, inr}
use simple_sdn.Timers.Timeval.{Timeval}
use simple_sdn.Router.{Peer, Sent}
use simple_sdn.Router.Handler.{goes_on}
use simple_sdn.Router.Primary.{Primary}
use simple_sdn.Router.Primary.Steps.{
  Reached, Steps-Reached, Input, tunnel_in, socket_in, Steps, IsReading, handled, from_tunnel,
  from_router, from_tunnel6, from_router6, from_tunnel7, from_tunnel9, from_router9, from_tunnel10,
}
use simple_sdn.Router.Primary.Stage7.{s7_reply}
use simple_sdn.Router.Primary.Stage10.{s10_reply}
use simple_sdn.Router.Primary.Packets.{s4_tunnel, s4_reply, s5_tunnel, s5_reply}
use simple_sdn.Router.Primary.Stage9.{Gate}
use simple_sdn.Router.Round.{Loop, FromTunnel, FromSocket}
use simple_sdn.Router.Primary.Loop.{
  timed_out, primary_round, s4_round, s5_round, s6_round, s7_round, s9_round, s10_round, same,
  instead,
}
use simple_sdn.Router.Primary.Makes.{packet_in, SelectMakes, primary_round-Steps, packets-Steps}

-- The rounds that go on, of stages 4, 5, 6 (and 8), 7, 9 and 10, and those without a packet, with the
-- readings of the clock (before `select`, and after it for the timers), the packets of the descriptors
-- that are ready and what the round sends.
pub data Round : Primary → List Timeval → List Input → List Sent → Primary → Type 0 where
  round4 :
      (l l' : Loop Primary) (junk : ℕ) (now left : Timeval) (rou2 : Peer)
      (tunnel : Option FromTunnel) (socket : Option FromSocket) (sent : List Sent)
      → s4_round junk now left rou2 tunnel socket l ≡ goes_on l' sent
      → Round l.state
          (now ∷ [])
          (packet_in (λ t. tunnel_in 4 t.packet) tunnel
            ++ packet_in (λ t. socket_in 4 t.packet) socket)
          sent
          l'.state
  round5 :
      (l l' : Loop Primary) (junk : ℕ) (now left : Timeval) (rou2 : Peer)
      (tunnel : Option FromTunnel) (socket : Option FromSocket) (sent : List Sent)
      → s5_round junk now left rou2 tunnel socket l ≡ goes_on l' sent
      → Round l.state
          (now ∷ [])
          (packet_in (λ t. tunnel_in 5 t.packet) tunnel
            ++ packet_in (λ t. socket_in 5 t.packet) socket)
          sent
          l'.state
  round6 :
      (l l' : Loop Primary) (junk : ℕ) (now left : Timeval) (port1 port2 : ℕ)
      (tunnel : Option FromTunnel) (socket : Option FromSocket) (sent : List Sent)
      → s6_round junk now left port1 port2 tunnel socket l ≡ goes_on l' sent
      → Round l.state
          (now ∷ [])
          (packet_in (λ t. tunnel_in 6 t.packet) tunnel
            ++ packet_in (λ t. socket_in 6 t.packet) socket)
          sent
          l'.state
  round7 :
      (l l' : Loop Primary) (junk : ℕ) (now left : Timeval) (port1 port2 : ℕ)
      (tunnel : Option FromTunnel) (socket : Option FromSocket) (sent : List Sent)
      → s7_round junk now left port1 port2 tunnel socket l ≡ goes_on l' sent
      → Round l.state
          (now ∷ [])
          (packet_in (λ t. tunnel_in 7 t.packet) tunnel
            ++ packet_in (λ t. socket_in 6 t.packet) socket)
          sent
          l'.state
  round9 :
      (l l' : Loop Gate) (junk : ℕ) (now left : Timeval) (port1 port2 port3 : ℕ)
      (tunnel : Option FromTunnel) (socket : Option FromSocket) (sent : List Sent)
      → s9_round junk now left port1 port2 port3 tunnel socket l ≡ goes_on l' sent
      → Round l.state.primary
          (now ∷ [])
          (packet_in (λ t. tunnel_in 9 t.packet) tunnel
            ++ packet_in (λ t. socket_in 9 t.packet) socket)
          sent
          l'.state.primary
  round10 :
      (l l' : Loop Primary) (junk : ℕ) (now left : Timeval) (port1 port2 : ℕ)
      (tunnel : Option FromTunnel) (socket : Option FromSocket) (sent : List Sent)
      → s10_round junk now left port1 port2 tunnel socket l ≡ goes_on l' sent
      → Round l.state
          (now ∷ [])
          (packet_in (λ t. tunnel_in 10 t.packet) tunnel
            ++ packet_in (λ t. socket_in 6 t.packet) socket)
          sent
          l'.state
  no_packet :
      (l l' : Loop Primary) (junk : ℕ) (now later : Timeval) (readings : List Timeval)
      (sent : List Sent)
      → primary_round same instead junk now (timed_out later readings) l ≡ goes_on l' sent
      → Round l.state (now ∷ later ∷ readings) [] sent l'.state
  no_packet9 :
      (l l' : Loop Gate) (junk : ℕ) (now later : Timeval) (readings : List Timeval)
      (sent : List Sent)
      → primary_round
          (λ g. g.primary)
          (λ p g. record g { primary = p })
          junk
          now
          (timed_out later readings)
          l
        ≡ goes_on l' sent
      → Round l.state.primary (now ∷ later ∷ readings) [] sent l'.state.primary

-- The loops of the primary router refine the state machine of its steps: a round that goes on is a
-- sequence of steps from the state before it to the state after it, in which the packets of the
-- ready descriptors are handled by the stage's handlers (those of stage 6 for the secondary routers'
-- packets in stages 7 and 10), each once, the tunnel's first, and which sends what the round sends,
-- in the same order; the other steps are timers that expire, at the round's readings of the clock.
pub Round-Steps :
    (p p' : Primary) (readings : List Timeval) (input : List Input) (out : List Sent)
    → Round p readings input out p'
    → Steps (IsReading readings) p input out p'
unfolding s4_round s5_round s6_round s7_round s9_round s10_round s4_tunnel s4_reply s5_tunnel
    s5_reply s7_reply s10_reply SelectMakes
Round-Steps p p' clock input out (round4 l l' junk now left rou2 tunnel socket sent e) =
    packets-Steps (IsReading clock) same instead (λ p s. refl) _ _ tunnel socket 4 4 junk now left l
      l' sent (inl refl)
      (λ t q q' out h. handled (from_tunnel false t.now t.stale t.failed rou2 t.packet junk out h))
      (λ s q q' out h. handled (from_router false s.stale s.failed s.nread s.sender s.packet out h))
      e
Round-Steps p p' clock input out (round5 l l' junk now left rou2 tunnel socket sent e) =
    packets-Steps (IsReading clock) same instead (λ p s. refl) _ _ tunnel socket 5 5 junk now left l
      l' sent (inl refl)
      (λ t q q' out h. handled (from_tunnel true t.now t.stale t.failed rou2 t.packet junk out h))
      (λ s q q' out h. handled (from_router true s.stale s.failed s.nread s.sender s.packet out h))
      e
Round-Steps p p' clock input out (round6 l l' junk now left port1 port2 tunnel socket sent e) =
    packets-Steps (IsReading clock) same instead (λ p s. refl) _ _ tunnel socket 6 6 junk now left l
      l' sent (inl refl)
      (λ t q q' out h.
        handled (from_tunnel6 t.now t.stale t.failed port1 port2 t.packet junk out h))
      (λ s q q' out h. handled (from_router6 s.stale s.nread s.sender s.packet out h)) e
Round-Steps p p' clock input out (round7 l l' junk now left port1 port2 tunnel socket sent e) =
    packets-Steps (IsReading clock) same instead (λ p s. refl) _ _ tunnel socket 7 6 junk now left l
      l' sent (inl refl)
      (λ t q q' out h.
        handled (from_tunnel7 t.now t.stale t.failed port1 port2 t.packet junk out h))
      (λ s q q' out h. handled (from_router6 s.stale s.nread s.sender s.packet out h)) e
Round-Steps p p' clock input out
      (round9 l l' junk now left port1 port2 port3 tunnel socket sent e) =
    packets-Steps (IsReading clock) (λ g. g.primary) (λ p g. record g { primary = p }) (λ p g. refl)
      _ _ tunnel socket 9 9 junk now left l l' sent (inl refl)
      (λ t q q' out h.
        handled (from_tunnel9 q q' t.now t.stale t.failed port1 port2 port3 t.packet junk out h))
      (λ s q q' out h.
        handled (from_router9 q q' s.stale s.nread port1 junk s.sender s.packet out h))
      e
Round-Steps p p' clock input out (round10 l l' junk now left port1 port2 tunnel socket sent e) =
    packets-Steps (IsReading clock) same instead (λ p s. refl) _ _ tunnel socket 10 6 junk now left
      l l' sent (inl refl)
      (λ t q q' out h.
        handled (from_tunnel10 t.now t.stale t.failed port1 port2 t.packet junk out h))
      (λ s q q' out h. handled (from_router6 s.stale s.nread s.sender s.packet out h)) e
Round-Steps p p' clock input out (no_packet l l' junk now later readings sent e) =
    primary_round-Steps (IsReading clock) same instead (λ p s. refl) [] junk now
      (timed_out later readings) l l' sent (inl refl) (refl, λ t r. inr r) e
Round-Steps p p' clock input out (no_packet9 l l' junk now later readings sent e) =
    primary_round-Steps (IsReading clock) (λ g. g.primary) (λ p g. record g { primary = p })
      (λ p g. refl) [] junk now (timed_out later readings) l l' sent (inl refl) (refl, λ t r. inr r)
      e

-- A round that goes on leads from a state that the router comes to by steps to another.
Round-Reached :
    (p p' : Primary) (readings : List Timeval) (input : List Input) (out : List Sent)
    → Round p readings input out p'
    → Reached p
    → Reached p'
Round-Reached p p' readings input out round r =
    Steps-Reached (Round-Steps p p' readings input out round) r
