-- ===== src/Router/Primary/Idle.antt =====
-- The return of the functions `primaryRouter_s4` to `primaryRouter_s10` when nothing happens.
use simple_sdn.Base.{
  ◌∙◌, ℕ, true, false, List, [], ◌∷◌, Option, none, some, ◌≡◌, ◌≢◌, refl, sym, arith, ◌<◌, ◌+◌, inl,
  inr, Bool-cases, Option-cases,
}
use simple_sdn.Timers.Timeval.{Timeval, timeval_cmp, timeval_sub}
use simple_sdn.Timers.Queue.{Event, eq_next_timer}
use simple_sdn.Timers.Manager.{next_timer_time}
use simple_sdn.Timers.Manager.Handles.{timer_of}
use simple_sdn.Timers.Queue.Order.{AllEvents}
use simple_sdn.Router.{Sent}
use simple_sdn.Router.Handler.{Handled, goes_on, returns, exits, overrun, with_sent}
use simple_sdn.Router.Primary.{Primary, OctaneTimer, fire}
use simple_sdn.Router.Primary.Timing.{Wait, fire_expired, before_select, on_timeout, is_never}
use simple_sdn.Router.Primary.Watch.{IsWatched, handle_of}
use simple_sdn.Router.Primary.Steps.{Reached, Reached-IsWatched}
use simple_sdn.Router.Round.{Loop, fifteen}
use simple_sdn.Router.Primary.Loop.{timed_out, after_select, primary_round, same, instead}

-- The event expires less than 0x7ffffff seconds after the time.
unfoldable pub IsNear : Timeval → Event OctaneTimer → Type 0
IsNear now e = e.tv.tv_sec < now.tv_sec + 0x7ffffff

never_empty :
    (now : Timeval) (q : List (Event OctaneTimer))
    → AllEvents (IsNear now) q
    → is_never (eq_next_timer now q) ≡ true
    → q ≡ []
unfolding eq_next_timer timeval_sub timeval_cmp IsNear
never_empty now [] n h = refl
never_empty now (e ∷ q) n h = absurd (ground (arith, n.0))

with_sent-returns :
    {S : Type 0}
    → (before : List Sent) (x : Handled S) (s : S) → with_sent before x ≡ returns s
    → x ≡ returns s
with_sent-returns before (goes_on q out) s e = ground arith
with_sent-returns before (returns q) s e = e
with_sent-returns before exits s e = ground arith
with_sent-returns before overrun s e = ground arith

timed_out-returns :
    (x : Option (Primary × Option (List Sent))) (wait : Wait) (l : Loop Primary)
    → (elim x [
      | none ↦ overrun
      | some (p, none) ↦ returns (record { state = p; timeout = wait.timeout })
      | some (p, some out) ↦ goes_on (record { state = p; timeout = fifteen }) out
    ])
      ≡ returns l
    → x ≡ some (l.state, none)
timed_out-returns none wait l e = absurd (ground arith)
timed_out-returns (some (p, none)) wait l e = ground arith
timed_out-returns (some (p, some out)) wait l e = absurd (ground arith)

expired_first :
    (junk : ℕ) (now : Timeval) (readings : List Timeval) (wait : Wait) (p q : Primary)
    → wait.event_timeout ≡ true
    → on_timeout junk now readings wait p ≢ some (q, none)
unfolding on_timeout
expired_first junk now readings wait p q w e = elim (Option-cases (fire junk now p)) [
  | inl fails ↦ ground arith
  | inr ((p', out), f) ↦ elim (Option-cases (fire_expired junk readings p')) [
    | inl fails ↦ ground arith
    | inr ((q', out'), k) ↦ ground arith
  ]
]

on_timeout-returns :
    (junk : ℕ) (now : Timeval) (readings : List Timeval) (wait : Wait) (p : Primary)
    (l : Loop Primary)
    → after_select same instead junk wait (timed_out now readings) p ≡ returns l
    → (wait.event_timeout ≡ false) × (p ≡ l.state)
unfolding after_select on_timeout
on_timeout-returns junk now readings wait p l e =
    let r = timed_out-returns (on_timeout junk now readings wait p) wait l e in
    elim (Bool-cases wait.event_timeout) [
      | inl event ↦ absurd (expired_first junk now readings wait p l.state event r)
      | inr idle ↦ (idle, ground arith)
    ]

idle_wait :
    (junk : ℕ) (now timeout : Timeval) (p q : Primary) (sent : List Sent) (wait : Wait)
    → before_select junk now timeout p ≡ some ((q, sent), wait)
    → wait.event_timeout ≡ false
    → (is_never (next_timer_time now p.timers) ≡ true) × (p ≡ q)
unfolding before_select
idle_wait junk now timeout p q sent wait b w = ground arith

none_waits : (p : Primary) (s : ℕ) → IsWatched p → p.timers.eq ≡ [] → handle_of s p.un_ack ≡ none
unfolding timer_of
none_waits p s w q = elim (Option-cases (handle_of s p.un_ack)) [
  | inl gone ↦ gone
  | inr (h, k) ↦ let (x, found, seq) = w.watched s h k in absurd (ground arith)
]

-- In every state that a primary router of stages 4 to 10 comes to, where each timer expires less
-- than 0x7ffffff seconds after the time at which a round begins: the function returns when `select`
-- times out in that round only if no timer is scheduled and no message waits for an
-- acknowledgement, and the round changes nothing.
pub returns_idle :
    (junk : ℕ) (now later : Timeval) (readings : List Timeval) (l l' : Loop Primary)
    → Reached l.state
    → AllEvents (IsNear now) l.state.timers.eq
    → primary_round same instead junk now (timed_out later readings) l ≡ returns l'
    → (l.state.timers.eq ≡ [])
      × ((s : ℕ) → handle_of s l.state.un_ack ≡ none)
      × (l'.state ≡ l.state)
unfolding primary_round next_timer_time
returns_idle junk now later readings l l' r n e =
    elim (Option-cases (before_select junk now l.timeout l.state)) [
      | inl fails ↦ absurd (ground arith)
      | inr (((p, before), wait), b) ↦
          let (w, k) = on_timeout-returns junk later readings wait p l' (
            with_sent-returns before
              (after_select same instead junk wait (timed_out later readings) p) l'
              (ground arith)) in
          let (never, kept) = idle_wait junk now l.timeout l.state p before wait b w in
          let q = never_empty now l.state.timers.eq n never in
          (q, λ s. none_waits l.state s (Reached-IsWatched l.state r) q, sym k ∙ sym kept)
    ]
