-- ===== src/Router/Primary/Origin/History.antt =====
-- The messages that wait for an acknowledgement and the packets that the primary router has sent.
use simple_sdn.Base.{ℕ, List, [], ◌∷◌, ◌++◌, some, ◌≡◌, ◌∙◌, subst}
use simple_sdn.Timers.Queue.{Event, TimerEntry}
use simple_sdn.Timers.Manager.Handles.{timer_of}
use simple_sdn.Router.{Sent}
use simple_sdn.Router.Primary.{Primary, OctaneTimer, expire}
use simple_sdn.Router.Primary.Watch.{handle_of}
use simple_sdn.Router.Primary.Steps.{
  Input, Step, Reached, started, stepped, expired, from_tunnel, from_tunnel6, from_tunnel7,
  from_tunnel9, from_tunnel10, from_router, from_router6, from_router9, Reached-IsWatched,
}
use simple_sdn.Router.Primary.Origin.{
  Among, Announced, Announced-left, Announced-right, AllTimers, Are, Are-timer_of, fire-Are,
}
use simple_sdn.Router.Primary.Origin.Handlers.{AreFine, on_tunnel-AreFine}
use simple_sdn.Router.Primary.Origin.Stages.{
  s6_tunnel-AreFine, s7_tunnel-AreFine, s10_tunnel-AreFine,
}
use simple_sdn.Router.Primary.Origin.Replies.{on_reply-AreFine, s6_reply-AreFine}
use simple_sdn.Router.Primary.Origin.Portal.{GateFine, s9_tunnel-GateFine, s9_reply-GateFine}

-- What the router has sent on the way to a state.
unfoldable pub history : {p : Primary} → Reached p → List Sent
history (started r port f) = []
history (stepped {sent = out} x s) = history x ++ out

Step-Are :
    {p p' : Primary} {input : List Input} {sent : List Sent} (Q : OctaneTimer → Type 0)
    → Step p input sent p'
    → Are Q p
    → ((c : OctaneTimer) → Announced c sent → Q c)
    → Are Q p'
Step-Are Q (from_tunnel {p = p} logged now stale failed rou2 b junk sent e) a =
    subst (AreFine Q) e (on_tunnel-AreFine Q logged now stale failed rou2 b junk p a)
Step-Are Q (from_tunnel6 {p = p} now stale failed port1 port2 b junk sent e) a =
    subst (AreFine Q) e (s6_tunnel-AreFine Q now stale failed port1 port2 b junk p a)
Step-Are Q (from_router {p = p} logged stale failed nread rou2 b sent e) a =
    subst (AreFine Q) e (on_reply-AreFine Q logged stale failed nread rou2 b p a)
Step-Are Q (from_router6 {p = p} stale nread rou2 b sent e) a =
    subst (AreFine Q) e (s6_reply-AreFine Q stale nread rou2 b p a)
Step-Are Q (from_tunnel7 {p = p} now stale failed port1 port2 b junk sent e) a =
    subst (AreFine Q) e (s7_tunnel-AreFine Q now stale failed port1 port2 b junk p a)
Step-Are Q (from_tunnel9 g g' now stale failed port1 port2 port3 b junk sent e) a =
    subst (GateFine Q) e (s9_tunnel-GateFine Q now stale failed port1 port2 port3 b junk g a)
Step-Are Q (from_router9 g g' stale nread port1 junk rou2 b sent e) a =
    subst (GateFine Q) e (s9_reply-GateFine Q stale nread port1 junk rou2 b g a)
Step-Are Q (from_tunnel10 {p = p} now stale failed port1 port2 b junk sent e) a =
    subst (AreFine Q) e (s10_tunnel-AreFine Q now stale failed port1 port2 b junk p a)
Step-Are Q (expired {p = p} {p' = p'} junk now sent e) a = λ new. fire-Are Q junk now p p' sent a e

weaken :
    (Q R : OctaneTimer → Type 0) (q : List (Event OctaneTimer))
    → ((c : OctaneTimer) → Q c → R c)
    → AllTimers Q q
    → AllTimers R q
weaken Q R [] f a = tt
weaken Q R (e ∷ q) f a = (f e.payload.cb a.0, weaken Q R q f a.1)

all-Announced : (p : Primary) (r : Reached p) → Are (λ c. Announced c (history r)) p
unfolding history
all-Announced p (started r port f) = tt
all-Announced p' (stepped {p = p} {sent = out} x s) =
    Step-Are (λ c. Announced c (history x ++ out)) s
      (weaken (λ c. Announced c (history x)) (λ c. Announced c (history x ++ out)) p.timers.eq
        (λ c n. Announced-left c (history x) out n) (all-Announced p x))
      (λ c n. Announced-right c (history x) out n)

-- In every state that a primary router of stages 4 to 10 comes to: under the handle of each number
-- that waits for an acknowledgement a timer is scheduled, its message carries that number, and what
-- the timer sends has been sent before, to the same router (up to the uninitialised checksum field).
pub waiting_resends :
    (p : Primary) (r : Reached p) (s h : ℕ)
    → handle_of s p.un_ack ≡ some h
    → (x : TimerEntry OctaneTimer) × (timer_of h p.timers.eq ≡ some x)
      × (x.cb.msg.octane_seqno ≡ s)
      × ((junk : ℕ) × Among (expire junk x.cb) (history r))
waiting_resends p r s h k =
    let (x, found, seq) = (Reached-IsWatched p r).watched s h k in
    let a = Are-timer_of (λ c. Announced c (history r)) h x p.timers.eq (all-Announced p r) found in
    (x, found, a.number ∙ seq, (a.junk, a.sent))
