-- ===== src/Router/Primary/Timing.antt =====
-- The timers in the loop of `primaryRouter_s4` and `primaryRouter_s5`, around `select`.
use simple_sdn.Base.{
  ap, ◌∙◌, ℕ, Bool, true, false, ◌==◌, ◌&&◌, if◌then◌else◌, List, [], ◌∷◌, ◌++◌, Option, none, some,
  ◌≡◌, refl, arith, ◌<◌,
}
use simple_sdn.Timers.Timeval.{
  Timeval, timeval_cmp, timeval_addmsecs, timeval_addusecs, timeval_sub,
}
use simple_sdn.Timers.Queue.{Event, eq_add_after, eq_add, eq_pop, eq_next_timer}
use simple_sdn.Timers.Manager.{next_timer_time, execute_next_timer, reschedule}
use simple_sdn.Router.{Sent}
use simple_sdn.Router.Primary.{Primary, OctaneTimer, expire, fire}

-- `tv_sec == 0 && tv_usec == 0`.
abbrev pub is_zero : Timeval → Bool
is_zero t = t.tv_sec == 0 && t.tv_usec == 0

abbrev pub is_never : Timeval → Bool
is_never t = t.tv_sec == 0x7ffffff && t.tv_usec == 0

-- `timeout` as `select` gets it, and `bEventTimeout`.
pub record Wait : Type 0 where
  pub timeout : Timeval
  pub event_timeout : Bool

-- From the head of the loop to `select`, with `timeout` as the last round left it. `none` is the
-- access to a null pointer, here and below.
unfoldable pub before_select :
    ℕ → Timeval → Timeval → Primary → Option ((Primary × List Sent) × Wait)
before_select junk now timeout p =
    let next = next_timer_time now p.timers in
    let wait : Wait =
      if is_never next
      then record { timeout = timeout; event_timeout = false }
      else record { timeout = next; event_timeout = true } in
    if is_zero next
    then elim (fire junk now p) [ none ↦ none | some q ↦ some (q, wait) ]
    else some ((p, []), wait)

-- The loop that executes the timers that have expired. Each round reads the time once more; `none`
-- for the sent packets' state is the end of the readings.
unfoldable pub fire_expired : ℕ → List Timeval → Primary → Option (Primary × List Sent)
fire_expired junk [] p = none
fire_expired junk (now ∷ readings) p =
    if is_zero (next_timer_time now p.timers)
    then elim (fire junk now p) [
      | none ↦ none
      | some (q, sent) ↦ elim (fire_expired junk readings q) [
        | none ↦ none
        | some (q', sent') ↦ some (q', sent ++ sent')
      ]
    ]
    else some (p, [])

-- The branch `iSelect == 0`. The second part of the result is `none` for the return of the
-- function.
unfoldable pub on_timeout :
    ℕ → Timeval → List Timeval → Wait → Primary → Option (Primary × Option (List Sent))
on_timeout junk now readings wait p =
    if wait.event_timeout
    then elim (fire junk now p) [
      | none ↦ none
      | some (q, sent) ↦ elim (fire_expired junk readings q) [
        | none ↦ none
        | some (q', sent') ↦ some (q', some (sent ++ sent'))
      ]
    ]
    else some (p, none)

-- The event of a timer that is scheduled again at the time `now`.
unfoldable pub again : Timeval → Event OctaneTimer → Event OctaneTimer
again now e = record {
  tv = timeval_addmsecs now e.payload.timeout;
  event_type = 1;
  payload = e.payload;
}

only : Primary → Event OctaneTimer → Primary
only p e = record p { timers = record { next_handle = p.timers.next_handle; eq = e ∷ [] } }

fire-only :
    (junk : ℕ) (now : Timeval) (p : Primary) (e : Event OctaneTimer)
    → fire junk now (only p e) ≡ some (only p (again now e), expire junk e.payload.cb ∷ [])
unfolding fire only again execute_next_timer reschedule eq_add_after eq_add eq_pop
fire-only junk now p e = refl

again-later :
    (now : Timeval) (p : Primary) (e : Event OctaneTimer)
    → now.tv_usec < 1000000
    → e.payload.timeout ≡ 2000
    → is_zero (next_timer_time now (only p (again now e)).timers) ≡ false
unfolding only again next_timer_time eq_next_timer timeval_addmsecs timeval_addusecs timeval_sub
    timeval_cmp
again-later now p e n h = ground arith

fire-single :
    (junk : ℕ) (now : Timeval) (p : Primary) (e : Event OctaneTimer)
    → p.timers.eq ≡ e ∷ []
    → fire junk now p ≡ some (only p (again now e), expire junk e.payload.cb ∷ [])
unfolding only
fire-single junk now p e s =
    ap
      (λ q.
        fire junk now (record p { timers = record { next_handle = p.timers.next_handle; eq = q } }))
      s
    ∙ fire-only junk now p e

before_select-expired :
    (junk : ℕ) (now timeout : Timeval) (p q : Primary) (sent : List Sent)
    → is_zero (next_timer_time now p.timers) ≡ true
    → fire junk now p ≡ some (q, sent)
    → before_select junk now timeout p
      ≡ some ((q, sent), record { timeout = next_timer_time now p.timers; event_timeout = true })
unfolding before_select
before_select-expired junk now timeout p q sent z f = ground arith

on_timeout-once :
    (junk : ℕ) (now : Timeval) (wait : Wait) (p q : Primary) (sent : List Sent)
    → wait.event_timeout ≡ true
    → fire junk now p ≡ some (q, sent)
    → is_zero (next_timer_time now q.timers) ≡ false
    → on_timeout junk now (now ∷ []) wait p ≡ some (q, some (sent ++ []))
unfolding on_timeout fire_expired
on_timeout-once junk now wait p q sent w f z = ground arith

-- Where the queue holds one timer, of 2000 milliseconds, that has expired at the head of the loop
-- (at a time with less than a million microseconds), its message is sent there and, when `select`
-- then finds no packet, once more at the same time.
pub fires_twice :
    (junk : ℕ) (now timeout : Timeval) (p : Primary) (e : Event OctaneTimer)
    → now.tv_usec < 1000000
    → p.timers.eq ≡ e ∷ []
    → e.payload.timeout ≡ 2000
    → is_zero (next_timer_time now p.timers) ≡ true
    → (q : Primary) × (wait : Wait) × (before_select junk now timeout p
        ≡ some ((q, expire junk e.payload.cb ∷ []), wait))
      × ((q' : Primary) × (on_timeout junk now (now ∷ []) wait q
            ≡ some (q', some (expire junk e.payload.cb ∷ []))))
unfolding again
fires_twice junk now timeout p e n s h z =
    let wait : Wait = record { timeout = next_timer_time now p.timers; event_timeout = true } in
    let q = only p (again now e) in
    (
      q,
      wait,
      before_select-expired junk now timeout p q _ z (fire-single junk now p e s),
      (
        only p (again now (again now e)),
        on_timeout-once junk now wait q _ _ refl (fire-only junk now p (again now e))
            (again-later now p (again now e) n h),
      ),
    )
