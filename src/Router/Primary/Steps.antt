-- ===== src/Router/Primary/Steps.antt =====
-- The primary router of stages 4 to 10 as a state machine: packets from the tunnel and from the
-- secondary routers, and timers that expire.
use simple_sdn.Base.{
  ℕ, Bool, true, false, if◌then◌else◌, List, [], ◌∷◌, ◌++◌, subst, none, some, ◌≡◌, refl, arith,
  ◌⊎◌, Buffer,
}
use simple_sdn.StdMap
use simple_sdn.StdMap.{StdMap}
use simple_sdn.Timers.Timeval.{Timeval}
use simple_sdn.Timers.Queue.{TimerEntry}
use simple_sdn.Timers.Manager.{timers_start}
use simple_sdn.Timers.Manager.Handles.{timer_of}
use simple_sdn.Router.{Router, Peer, Sent}
use simple_sdn.Router.Handler.{Stale, goes_on}
use simple_sdn.Router.Primary.{Primary, OctaneTimer, fire}
use simple_sdn.Router.Primary.Packets.{on_tunnel, on_reply}
use simple_sdn.Router.Primary.Stage6.{s6_tunnel, s6_reply}
use simple_sdn.Router.Primary.Stage7.{s7_tunnel}
use simple_sdn.Router.Primary.Stage9.{Gate, s9_tunnel, s9_reply}
use simple_sdn.Router.Primary.Stage10.{s10_tunnel}
use simple_sdn.Router.Primary.Chained.{s7_tunnel-IsWatched, s10_tunnel-IsWatched}
use simple_sdn.Router.Primary.Gated.{s9_tunnel-IsWatched, s9_reply-IsWatched}
use simple_sdn.Router.Primary.Watch.{IsWatched, handle_of, Sends}
use simple_sdn.Router.Primary.Tunnel.{on_tunnel-IsWatched, s6_tunnel-IsWatched}
use simple_sdn.Router.Primary.Replies.{on_reply-IsWatched, s6_reply-IsWatched}
use simple_sdn.Router.Primary.Firing.{fire-IsWatched}

-- A packet that a handler gets: the stage whose handler it is, whether it comes from the tunnel, and
-- its bytes.
pub record Input : Type 0 where
  pub stage : ℕ
  pub tunnelled : Bool
  pub bytes : Buffer

abbrev pub tunnel_in : ℕ → Buffer → Input
tunnel_in stage b = record { stage = stage; tunnelled = true; bytes = b }

abbrev pub socket_in : ℕ → Buffer → Input
socket_in stage b = record { stage = stage; tunnelled = false; bytes = b }

-- A step of a router in stage 4, 5 (`logged`), 6 (and 8), 7, 9 or 10. Stages 7 and 10 handle the
-- packets of the secondary routers as stage 6 does. A step is labelled with the packet that it
-- handles, none for a timer, and with what it sends.
pub data Step : Primary → List Input → List Sent → Primary → Type 0 where
  from_tunnel :
      {p p' : Primary} (logged : Bool) (now : Timeval) (stale : Stale) (failed : Bool) (rou2 : Peer)
      (b : Buffer) (junk : ℕ) (sent : List Sent)
      → on_tunnel logged now stale failed rou2 b junk p ≡ goes_on p' sent
      → Step p (tunnel_in (if logged then 5 else 4) b ∷ []) sent p'
  from_tunnel6 :
      {p p' : Primary} (now : Timeval) (stale : Stale) (failed : Bool) (port1 port2 : ℕ)
      (b : Buffer) (junk : ℕ) (sent : List Sent)
      → s6_tunnel now stale failed port1 port2 b junk p ≡ goes_on p' sent
      → Step p (tunnel_in 6 b ∷ []) sent p'
  from_router :
      {p p' : Primary} (logged : Bool) (stale : Stale) (failed : Bool) (nread : ℕ) (rou2 : Peer)
      (b : Buffer) (sent : List Sent)
      → on_reply logged stale failed nread rou2 b p ≡ goes_on p' sent
      → Step p (socket_in (if logged then 5 else 4) b ∷ []) sent p'
  from_router6 :
      {p p' : Primary} (stale : Stale) (nread : ℕ) (rou2 : Peer) (b : Buffer) (sent : List Sent)
      → s6_reply stale nread rou2 b p ≡ goes_on p' sent
      → Step p (socket_in 6 b ∷ []) sent p'
  from_tunnel7 :
      {p p' : Primary} (now : Timeval) (stale : Stale) (failed : Bool) (port1 port2 : ℕ)
      (b : Buffer) (junk : ℕ) (sent : List Sent)
      → s7_tunnel now stale failed port1 port2 b junk p ≡ goes_on p' sent
      → Step p (tunnel_in 7 b ∷ []) sent p'
  from_tunnel9 :
      (g g' : Gate) (now : Timeval) (stale : Stale) (failed : Bool) (port1 port2 port3 : ℕ)
      (b : Buffer) (junk : ℕ) (sent : List Sent)
      → s9_tunnel now stale failed port1 port2 port3 b junk g ≡ goes_on g' sent
      → Step g.primary (tunnel_in 9 b ∷ []) sent g'.primary
  from_router9 :
      (g g' : Gate) (stale : Stale) (nread port1 junk : ℕ) (rou2 : Peer) (b : Buffer)
      (sent : List Sent)
      → s9_reply stale nread port1 junk rou2 b g ≡ goes_on g' sent
      → Step g.primary (socket_in 9 b ∷ []) sent g'.primary
  from_tunnel10 :
      {p p' : Primary} (now : Timeval) (stale : Stale) (failed : Bool) (port1 port2 : ℕ)
      (b : Buffer) (junk : ℕ) (sent : List Sent)
      → s10_tunnel now stale failed port1 port2 b junk p ≡ goes_on p' sent
      → Step p (tunnel_in 10 b ∷ []) sent p'
  expired :
      {p p' : Primary} (junk : ℕ) (now : Timeval) (sent : List Sent)
      → fire junk now p ≡ some (p', sent)
      → Step p [] sent p'

-- The states that a router comes to from a start without messages that wait.
pub data Reached : Primary → Type 0 where
  started :
      (r : Router) (port : ℕ) (f : Bool)
      → Reached
          (record { router = r; port_num = port; un_ack = []; timers = timers_start; refresh = f })
  stepped :
      {p p' : Primary} {input : List Input} {sent : List Sent}
      → Reached p
      → Step p input sent p'
      → Reached p'

-- The time is one of these readings of the clock.
abbrev pub IsReading : List Timeval → Timeval → Type 0
IsReading [] t = ⊥
IsReading (r ∷ readings) t = (t ≡ r) ⊎ IsReading readings t

-- Steps one after the other, with the packets that they handle and what they send, in order. Timers
-- expire at times of the clock.
pub data Steps (Clock : Timeval → Type 0)
    : Primary → List Input → List Sent → Primary → Type 0 where
  stay : {p : Primary} → Steps Clock p [] [] p
  handled :
      {p q : Primary} {packet : Input} {sent : List Sent}
      → Step p (packet ∷ []) sent q
      → Steps Clock p (packet ∷ []) sent q
  fired :
      {p q : Primary} (junk : ℕ) (now : Timeval) (sent : List Sent)
      → Clock now
      → fire junk now p ≡ some (q, sent)
      → Steps Clock p [] sent q
  both :
      {p q r : Primary} {input input' : List Input} {sent sent' : List Sent}
      → Steps Clock p input sent q
      → Steps Clock q input' sent' r
      → Steps Clock p (input ++ input') (sent ++ sent') r

module _ {Clock : Timeval → Type 0} where
  pub Steps-Reached :
      {p q : Primary} {input : List Input} {sent : List Sent}
      → Steps Clock p input sent q
      → Reached p
      → Reached q
  Steps-Reached stay r = r
  Steps-Reached (handled s) r = stepped r s
  Steps-Reached (fired junk now sent c f) r = stepped r (expired junk now sent f)
  Steps-Reached (both s t) r = Steps-Reached t (Steps-Reached s r)

  pub Steps-same :
      {p q q' : Primary} {input : List Input} {sent sent' : List Sent}
      → Steps Clock p input sent q
      → sent ≡ sent'
      → q ≡ q'
      → Steps Clock p input sent' q'
  Steps-same {p} {q' = q'} {input = i} {sent = o} s e f =
      subst (λ o'. Steps Clock p i o' q') e (subst (Steps Clock p i o) f s)

nothing : (g : ℕ) → timer_of {C = OctaneTimer} g [] ≡ none
unfolding timer_of
nothing g = refl

no_timer : (g : ℕ) (e : TimerEntry OctaneTimer) → timer_of g [] ≡ some e → e.timeout ≡ 2000
unfolding timer_of
no_timer g e k = ground arith

waits : (s h : ℕ) → handle_of s [] ≡ some h → Sends s h timers_start
unfolding handle_of StdMap.find
waits s h k = ground arith

-- In every state that a primary router of stages 4 to 10 comes to, each number that waits for an
-- acknowledgement has a scheduled timer of that number.
pub Reached-IsWatched : (p : Primary) → Reached p → IsWatched p
Reached-IsWatched p (started r port f) = record {
  timers = record { sorted = tt; distinct = tt; given = tt };
  no_zero = nothing 0;
  next = ground arith;
  sorted = tt;
  delay = λ g e k. no_timer g e k;
  watched = λ s h k. waits s h k;
}
Reached-IsWatched p (stepped x (from_tunnel {p = q} logged now stale failed rou2 b junk sent e)) =
    on_tunnel-IsWatched logged now stale failed rou2 b junk q p sent (Reached-IsWatched q x) e
Reached-IsWatched p (stepped x (from_tunnel6 {p = q} now stale failed port1 port2 b junk sent e)) =
    s6_tunnel-IsWatched now stale failed port1 port2 b junk q p sent (Reached-IsWatched q x) e
Reached-IsWatched p (stepped x (from_router {p = q} logged stale failed nread rou2 b sent e)) =
    on_reply-IsWatched logged stale failed nread rou2 b q p sent (Reached-IsWatched q x) e
Reached-IsWatched p (stepped x (from_router6 {p = q} stale nread rou2 b sent e)) =
    s6_reply-IsWatched stale nread rou2 b q p sent (Reached-IsWatched q x) e
Reached-IsWatched p (stepped x (expired {p = q} junk now sent e)) =
    fire-IsWatched junk now q p sent (Reached-IsWatched q x) e
Reached-IsWatched p (stepped x (from_tunnel7 {p = q} now stale failed port1 port2 b junk sent e)) =
    s7_tunnel-IsWatched now stale failed port1 port2 b junk q p sent (Reached-IsWatched q x) e
Reached-IsWatched p (stepped x (from_tunnel9 g g' now stale f port1 port2 port3 b junk sent e)) =
    s9_tunnel-IsWatched now stale f port1 port2 port3 b junk g g' sent
      (Reached-IsWatched g.primary x) e
Reached-IsWatched p (stepped x (from_router9 g g' stale nread port1 junk rou2 b sent e)) =
    s9_reply-IsWatched stale nread port1 junk rou2 b g g' sent (Reached-IsWatched g.primary x) e
Reached-IsWatched p (stepped x (from_tunnel10 {p = q} now stale failed port1 port2 b junk sent e)) =
    s10_tunnel-IsWatched now stale failed port1 port2 b junk q p sent (Reached-IsWatched q x) e
