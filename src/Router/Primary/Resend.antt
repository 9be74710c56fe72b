-- ===== src/Router/Primary/Resend.antt =====
-- A message that is not acknowledged is sent again.
use simple_sdn.Base.{
  ℕ, suc, ◌<◌, true, false, ◌==◌, ◌&&◌, Bool-cases, inl, inr, List, [], ◌∷◌, ◌++◌, some, ◌≡◌, refl,
  ◌∙◌, ap, arith, length, replicate,
}
use simple_sdn.Timers.Timeval.{
  Timeval, timeval_sub, timeval_cmp, timeval_addmsecs, timeval_addusecs, more,
}
use simple_sdn.Timers.Queue.{Event, TimerEntry, eq_add, eq_next_timer}
use simple_sdn.Timers.Queue.Order.{AllEvents, AllEvents-add, NotAfter}
use simple_sdn.Timers.Manager.{next_timer_time}
use simple_sdn.Timers.Manager.Handles.{timer_of, IsDistinct}
use simple_sdn.Timers.Manager.Removal.{missing}
use simple_sdn.Router.{Sent}
use simple_sdn.Router.Primary.{Primary, OctaneTimer, expire, fire}
use simple_sdn.Router.Primary.Timing.{is_zero, again, fire_expired, Wait, on_timeout}
use simple_sdn.Router.Primary.Drain.{due, Is2000, with_queue, fire-again, again-due}
use simple_sdn.Router.Primary.Watch.{handle_of}
use simple_sdn.Router.Primary.Steps.{Reached, Reached-IsWatched}
use simple_sdn.Router.Primary.Origin.{Among}
use simple_sdn.Router.Primary.Origin.History.{history, waiting_resends}

-- What the timers of the queue send when each expires once.
abbrev sends : ℕ → List (Event OctaneTimer) → List Sent
sends junk [] = []
sends junk (e ∷ q) = expire junk e.payload.cb ∷ sends junk q

past-due : (now x : Timeval) → NotAfter x now → is_zero (timeval_sub x now) ≡ true
unfolding timeval_sub timeval_cmp
past-due now x h = ground arith

-- A timer that is scheduled again goes behind all that have expired.
again-after :
    (now x : Timeval)
    → now.tv_usec < 1000000
    → NotAfter x now
    → timeval_cmp (timeval_addmsecs now 2000) x ≡ more
unfolding timeval_cmp timeval_addmsecs timeval_addusecs
again-after now x n h = ground arith

again-behind :
    (now : Timeval) (e : Event OctaneTimer) (d u : List (Event OctaneTimer))
    → now.tv_usec < 1000000
    → Is2000 e
    → AllEvents (λ x. NotAfter x.tv now) d
    → eq_add (again now e) (d ++ u) ≡ d ++ eq_add (again now e) u
unfolding eq_add again
again-behind now e [] u n h a = refl
again-behind now e (x ∷ d) u n h a =
    ground (arith, again-behind now e d u n h a.1, again-after now x.tv n a.0)

behind-all :
    (now : Timeval) (e : Event OctaneTimer) (d : List (Event OctaneTimer))
    → now.tv_usec < 1000000
    → Is2000 e
    → AllEvents (λ x. NotAfter x.tv now) d
    → eq_add (again now e) d ≡ d ++ again now e ∷ []
unfolding eq_add again
behind-all now e [] n h a = refl
behind-all now e (x ∷ d) n h a =
    ground (arith, behind-all now e d n h a.1, again-after now x.tv n a.0)

head-later :
    (now : Timeval) (p : Primary) (u : List (Event OctaneTimer))
    → AllEvents (λ e. due now e ≡ false) u
    → is_zero (next_timer_time now (with_queue p u).timers) ≡ false
unfolding next_timer_time eq_next_timer
head-later now p [] a = ground arith
head-later now p (e ∷ u) a = a.0

head-due :
    (now : Timeval) (p : Primary) (e : Event OctaneTimer) (q : List (Event OctaneTimer))
    → NotAfter e.tv now
    → is_zero (next_timer_time now (with_queue p (e ∷ q)).timers) ≡ true
unfolding next_timer_time eq_next_timer
head-due now p e q h = past-due now e.tv h

one_round :
    (junk n : ℕ) (now : Timeval) (p q q' : Primary) (out rest : List Sent)
    → is_zero (next_timer_time now p.timers) ≡ true
    → fire junk now p ≡ some (q, out)
    → fire_expired junk (replicate n now) q ≡ some (q', rest)
    → fire_expired junk (replicate (suc n) now) p ≡ some (q', out ++ rest)
unfolding fire_expired
one_round junk n now p q q' out rest z f k = ground arith

no_round :
    (junk n : ℕ) (now : Timeval) (p : Primary)
    → is_zero (next_timer_time now p.timers) ≡ false
    → fire_expired junk (replicate (suc n) now) p ≡ some (p, [])
unfolding fire_expired
no_round junk n now p z = ground arith

-- The loop sends what the expired timers at the queue's head send, each once, in their order.
drain-sends :
    (junk : ℕ) (now : Timeval) (p : Primary) (d u : List (Event OctaneTimer))
    → now.tv_usec < 1000000
    → AllEvents (λ e. NotAfter e.tv now) d
    → AllEvents Is2000 d
    → AllEvents (λ e. due now e ≡ false) u
    → (p' : Primary) × (fire_expired junk (replicate (suc (length d)) now) (with_queue p (d ++ u))
        ≡ some (p', sends junk d))
drain-sends junk now p [] u n a b c =
    (with_queue p u, no_round junk 0 now (with_queue p u) (head-later now p u c))
drain-sends junk now p (e ∷ d) u n a b c =
    let later = AllEvents-add (λ x. due now x ≡ false) (again now e) u (again-due now e n b.0) c in
    let (p', k) = drain-sends junk now p d (eq_add (again now e) u) n a.1 b.1 later in
    (
      p',
      one_round junk (suc (length d)) now (with_queue p (e ∷ (d ++ u))) _ p' _ (sends junk d)
          (head-due now p e (d ++ u) a.0)
          (fire-again junk now p e (d ++ u)
            ∙ ap (λ q. some (with_queue p q, expire junk e.payload.cb ∷ []))
                (again-behind now e d u n b.0 a.1))
          k,
    )

every-Is2000 :
    (next : ℕ) (q : List (Event OctaneTimer))
    → IsDistinct q
    → AllEvents (λ e. (e.event_type ≡ 1) × (e.payload.hdl < next)) q
    → ((g : ℕ) (x : TimerEntry OctaneTimer) → timer_of g q ≡ some x → x.timeout ≡ 2000)
    → AllEvents Is2000 q
unfolding timer_of
every-Is2000 next [] d k h = tt
every-Is2000 next (e ∷ q) d k h = (
  h e.payload.hdl e.payload (ground arith),
  every-Is2000 next q d.1 k.1 (λ g x f. h g x (ground (arith, f, missing e.payload.hdl q d.0))),
)

-- The list holds the packet.
abbrev pub Holds : Sent → List Sent → Type 0
Holds s out = (before : List Sent) × (after : List Sent) × (out ≡ before ++ s ∷ after)

sends-Holds :
    (junk g : ℕ) (x : TimerEntry OctaneTimer) (q : List (Event OctaneTimer))
    → timer_of g q ≡ some x
    → Holds (expire junk x.cb) (sends junk q)
unfolding timer_of
sends-Holds junk g x [] f = ground arith
sends-Holds junk g x (e ∷ q) f = elim (Bool-cases (e.event_type == 1 && e.payload.hdl == g)) [
  | inl here ↦ ([], sends junk q, ground arith)
  | inr there ↦
      let (before, after, k) = sends-Holds junk g x q (ground arith) in
      (expire junk e.payload.cb ∷ before, after, ap (λ out. expire junk e.payload.cb ∷ out) k)
]

on_timeout-fires :
    (junk : ℕ) (now : Timeval) (readings : List Timeval) (wait : Wait) (p q q' : Primary)
    (out rest : List Sent)
    → wait.event_timeout ≡ true
    → fire junk now p ≡ some (q, out)
    → fire_expired junk readings q ≡ some (q', rest)
    → on_timeout junk now readings wait p ≡ some (q', some (out ++ rest))
unfolding on_timeout
on_timeout-fires junk now readings wait p q q' out rest w f k = ground arith

timeout-sends :
    (junk : ℕ) (now : Timeval) (wait : Wait) (p : Primary) (e : Event OctaneTimer)
    (d : List (Event OctaneTimer))
    → wait.event_timeout ≡ true
    → now.tv_usec < 1000000
    → AllEvents (λ e. NotAfter e.tv now) (e ∷ d)
    → AllEvents Is2000 (e ∷ d)
    → (p' : Primary) × (on_timeout junk now
          (replicate (length (e ∷ d)) now)
          wait
          (with_queue p (e ∷ d))
        ≡ some (p', some (sends junk (e ∷ d))))
timeout-sends junk now wait p e d w n a b =
    let (p', k) =
      drain-sends junk now p d (again now e ∷ []) n a.1 b.1 (again-due now e n b.0, tt) in
    (
      p',
      on_timeout-fires junk now (replicate (suc (length d)) now) wait (with_queue p (e ∷ d)) _ p' _
          (sends junk d) w
          (fire-again junk now p e d
            ∙ ap (λ q. some (with_queue p q, expire junk e.payload.cb ∷ []))
                (behind-all now e d n b.0 a.1))
          k,
    )

all-sent :
    (junk : ℕ) (now : Timeval) (wait : Wait) (p : Primary) (q : List (Event OctaneTimer)) (h : ℕ)
    (x : TimerEntry OctaneTimer)
    → wait.event_timeout ≡ true
    → now.tv_usec < 1000000
    → AllEvents (λ e. NotAfter e.tv now) q
    → AllEvents Is2000 q
    → timer_of h q ≡ some x
    → (p' : Primary) × (sent : List Sent) × (on_timeout junk now
          (replicate (length q) now)
          wait
          (with_queue p q)
        ≡ some (p', some sent))
      × Holds (expire junk x.cb) sent
unfolding timer_of
all-sent junk now wait p [] h x w n a b f = absurd (ground arith)
all-sent junk now wait p (e ∷ d) h x w n a b f =
    let (p', k) = timeout-sends junk now wait p e d w n a b in
    (p', sends junk (e ∷ d), k, sends-Holds junk h x (e ∷ d) f)

-- In every state that a primary router of stages 4 to 10 comes to: when `select` times out for a
-- timer, at a time of less than a million microseconds that no timer expires after and at which the
-- clock stands still, the loop of the timers ends, and for each number that waits for an
-- acknowledgement it sends a message with this number that was sent before, to the same router (up
-- to the uninitialised checksum field).
pub Reached-resends :
    (junk : ℕ) (now : Timeval) (wait : Wait) (p : Primary) (s h : ℕ) (r : Reached p)
    → handle_of s p.un_ack ≡ some h
    → wait.event_timeout ≡ true
    → now.tv_usec < 1000000
    → AllEvents (λ e. NotAfter e.tv now) p.timers.eq
    → (x : TimerEntry OctaneTimer) × (x.cb.msg.octane_seqno ≡ s)
      × ((before : ℕ) × Among (expire before x.cb) (history r))
      × ((p' : Primary) × (sent : List Sent) × (on_timeout junk now
              (replicate (length p.timers.eq) now)
              wait
              p
            ≡ some (p', some sent))
          × Holds (expire junk x.cb) sent)
Reached-resends junk now wait p s h r k w n a =
    let watch = Reached-IsWatched p r in
    let (x, found, number, before) = waiting_resends p r s h k in
    (
      x,
      number,
      before,
      all-sent junk now wait p p.timers.eq h x w n a
          (every-Is2000 p.timers.next_handle p.timers.eq watch.timers.distinct watch.timers.given
            watch.delay)
          found,
    )
