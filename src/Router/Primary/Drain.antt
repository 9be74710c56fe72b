-- ===== src/Router/Primary/Drain.antt =====
-- The loop that executes the timers that have expired, while the clock stands still.
use simple_sdn.Base.{
  ℕ, zero, suc, ◌+◌, ◌<◌, ◌≤◌, Bool, true, false, if◌then◌else◌, List, [], ◌∷◌, ◌++◌, some, ◌≡◌,
  refl, ◌∙◌, ap, arith, length, replicate, Bool-cases, inl, inr,
}
use simple_sdn.Timers.Timeval.{
  Timeval, timeval_sub, timeval_cmp, timeval_addmsecs, timeval_addusecs,
}
use simple_sdn.Timers.Queue.{Event, eq_add, eq_pop, eq_add_after, eq_next_timer}
use simple_sdn.Timers.Queue.Order.{AllEvents, AllEvents-add}
use simple_sdn.Timers.Manager.{next_timer_time, execute_next_timer, reschedule}
use simple_sdn.Router.{Sent}
use simple_sdn.Router.Primary.{Primary, OctaneTimer, expire, fire}
use simple_sdn.Router.Primary.Timing.{is_zero, again, fire_expired}

-- The event expires at once.
abbrev pub due : Timeval → Event OctaneTimer → Bool
due now e = is_zero (timeval_sub e.tv now)

count_due : Timeval → List (Event OctaneTimer) → ℕ
count_due now [] = 0
count_due now (e ∷ q) = if due now e then count_due now q + 1 else count_due now q

count_due-length : (now : Timeval) (q : List (Event OctaneTimer)) → count_due now q ≤ length q
unfolding count_due
count_due-length now [] = ground arith
count_due-length now (e ∷ q) = ground (arith, count_due-length now q)

count_due-eq_add :
    (now : Timeval) (n : Event OctaneTimer) (q : List (Event OctaneTimer))
    → due now n ≡ false
    → count_due now (eq_add n q) ≡ count_due now q
unfolding count_due eq_add
count_due-eq_add now n [] h = ground arith
count_due-eq_add now n (e ∷ q) h = ground (arith, count_due-eq_add now n q h)

pub not_due :
    (now : Timeval)
    → now.tv_usec < 1000000
    → is_zero (timeval_sub (timeval_addmsecs now 2000) now) ≡ false
unfolding timeval_addmsecs timeval_addusecs timeval_sub timeval_cmp
not_due now n = ground arith

abbrev pub with_queue : Primary → List (Event OctaneTimer) → Primary
with_queue p q = record p { timers = record { next_handle = p.timers.next_handle; eq = q } }

pub fire-again :
    (junk : ℕ) (now : Timeval) (p : Primary) (e : Event OctaneTimer) (q : List (Event OctaneTimer))
    → fire junk now (with_queue p (e ∷ q))
      ≡ some (with_queue p (eq_add (again now e) q), expire junk e.payload.cb ∷ [])
unfolding fire again execute_next_timer reschedule eq_add_after eq_pop
fire-again junk now p e q = refl

abbrev pub Is2000 : Event OctaneTimer → Type 0
Is2000 e = e.payload.timeout ≡ 2000

-- The loop ends, and the next timer has not expired.
Ends : ℕ → Timeval → ℕ → Primary → Type 0
Ends junk now n p =
    (p' : Primary) × (sent : List Sent) × (fire_expired junk (replicate n now) p ≡ some (p', sent))
    × (is_zero (next_timer_time now p'.timers) ≡ false)

stops :
    (junk n : ℕ) (now : Timeval) (p : Primary)
    → is_zero (next_timer_time now p.timers) ≡ false
    → Ends junk now (suc n) p
unfolding Ends fire_expired
stops junk n now p z = (p, [], ground arith, z)

goes :
    (junk n : ℕ) (now : Timeval) (p q : Primary) (out : List Sent)
    → is_zero (next_timer_time now p.timers) ≡ true
    → fire junk now p ≡ some (q, out)
    → Ends junk now n q
    → Ends junk now (suc n) p
unfolding Ends fire_expired
goes junk n now p q out z f (p', sent, runs, stop) = (p', out ++ sent, ground arith, stop)

pub again-due :
    (now : Timeval) (e : Event OctaneTimer)
    → now.tv_usec < 1000000
    → Is2000 e
    → due now (again now e) ≡ false
unfolding again
again-due now e n h =
    ap (λ ms. is_zero (timeval_sub (timeval_addmsecs now ms) now)) h ∙ not_due now n

drains :
    (junk n : ℕ) (now : Timeval) (p : Primary) (q : List (Event OctaneTimer))
    → now.tv_usec < 1000000
    → AllEvents Is2000 q
    → count_due now q < n
    → Ends junk now n (with_queue p q)
unfolding next_timer_time eq_next_timer count_due again
drains junk zero now p q u a h = absurd (ground arith)
drains junk (suc n) now p [] u a h = stops junk n now (with_queue p []) (ground arith)
drains junk (suc n) now p (e ∷ q) u a h = elim (Bool-cases (due now e)) [
  | inl past ↦ goes junk n now (with_queue p (e ∷ q)) _ _ past (fire-again junk now p e q) (
      drains junk n now p (eq_add (again now e) q) u (AllEvents-add Is2000 (again now e) q a.0 a.1)
        (ground (arith, count_due-eq_add now (again now e) q (again-due now e u a.0))))
  | inr later ↦ stops junk n now (with_queue p (e ∷ q)) later
]

-- Where every timer of the queue has 2000 milliseconds and the clock reads the same time, with less
-- than a million microseconds, throughout, the loop that executes expired timers ends within one
-- round more than there are timers, and the next timer has then not expired.
pub fire_expired_ends :
    (junk : ℕ) (now : Timeval) (p : Primary)
    → now.tv_usec < 1000000
    → AllEvents (λ e. e.payload.timeout ≡ 2000) p.timers.eq
    → (p' : Primary) × (sent : List Sent) × (fire_expired junk
          (replicate (length p.timers.eq + 1) now)
          p
        ≡ some (p', sent))
      × (is_zero (next_timer_time now p'.timers) ≡ false)
unfolding Ends
fire_expired_ends junk now p u a =
    drains junk (length p.timers.eq + 1) now p p.timers.eq u a
      (ground (arith, count_due-length now p.timers.eq))
