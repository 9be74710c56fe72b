-- ===== src/Timers/Manager/Execution.antt =====
-- `ExecuteNextTimer` and `NextTimerTime` on a queue that is in order.
use simple_sdn.Base.{
  ℕ, zero, suc, ◌-◌, true, ◌==◌, ◌≤◌, List, [], ◌∷◌, Option, none, some, ◌≡◌, ◌≢◌, ◌↔◌, refl, arith,
  if◌then◌else◌,
}
use simple_sdn.Timers.Timeval.{
  Timeval, timeval_cmp_lem, timeval_sub, timeval_sub_lem, total, IsNormal,
}
use simple_sdn.Timers.Queue.{
  TimerEntry, Event, eq_add, eq_pop, eq_add_after, eq_next_timer, eq_top_in_past,
}
use simple_sdn.Timers.Queue.Order.{AllEvents, AllEvents-add, IsSorted, eq_add-IsSorted, NotAfter}
use simple_sdn.Timers.Manager.{
  Timers, ℤ, pos, negsuc, executed, execute_next_timer, reschedule, next_timer_time,
}
use simple_sdn.Timers.Manager.Handles.{timer_of, IsTimers, timer_of-eq_add, IsDistinct-eq_add}

module _ {C : Type 0} where
  -- What is scheduled under the handle of a timer after its callback has returned.
  unfoldable pub kept : ℤ → TimerEntry C → Option (TimerEntry C)
  kept (negsuc n) entry = none
  kept (pos zero) entry = some entry
  kept (pos (suc n)) entry = some (record entry { timeout = suc n })

  -- `t'` is `t` with the timer under the handle `h` replaced by `kept`.
  abbrev pub Updates : Timers C → ℕ → Option (TimerEntry C) → Timers C → Type 0
  Updates t h entry t' =
      ((g : ℕ) → timer_of g t'.eq ≡ (if h == g then entry else timer_of g t.eq))
      × (t'.next_handle ≡ t.next_handle)
      × IsTimers t'

  missing :
      (g : ℕ) (q : List (Event C)) → AllEvents (λ x. x.payload.hdl ≢ g) q → timer_of g q ≡ none
  unfolding timer_of
  missing g [] h = refl
  missing g (e ∷ q) h = ground (arith, missing g q h.1)

  added_lookup :
      (g : ℕ) (n e : Event C) (q : List (Event C))
      → AllEvents (λ x. x.payload.hdl ≢ n.payload.hdl) q
      → n.event_type ≡ 1
      → n.payload.hdl ≡ e.payload.hdl
      → timer_of g (eq_add n q)
        ≡ (if n.payload.hdl == g then some n.payload else timer_of g (e ∷ q))
  unfolding timer_of
  added_lookup g n e q d t h = ground (arith, timer_of-eq_add g n q d t)

  dropped_lookup :
      (g : ℕ) (e : Event C) (q : List (Event C))
      → AllEvents (λ x. x.payload.hdl ≢ e.payload.hdl) q
      → timer_of g q ≡ (if e.payload.hdl == g then none else timer_of g (e ∷ q))
  unfolding timer_of
  dropped_lookup g e q d = ground (arith, missing e.payload.hdl q d)

  added :
      (now : Timeval) (e : Event C) (q : List (Event C)) (next delay : ℕ)
      → IsTimers (record { next_handle = next; eq = e ∷ q })
      → Updates
          (record { next_handle = next; eq = e ∷ q })
          e.payload.hdl
          (some (record e.payload { timeout = delay }))
          (record {
            next_handle = next;
            eq = eq_add_after now 1 (record e.payload { timeout = delay }) delay q;
          })
  unfolding eq_add_after
  added now e q next delay h = (
    λ g. added_lookup g _ e q h.distinct.0 refl refl,
    refl,
    record {
      sorted = eq_add-IsSorted _ q h.sorted.1;
      distinct = IsDistinct-eq_add _ q h.distinct.0 h.distinct.1;
      given = AllEvents-add _ _ q (refl, h.given.0.1) h.given.1;
    },
  )

  rescheduled :
      (now : Timeval) (e : Event C) (q : List (Event C)) (next : ℕ) (v : ℤ)
      → IsTimers (record { next_handle = next; eq = e ∷ q })
      → ((n : ℕ) → v ≢ negsuc (suc n))
      → (t' : Timers C) × (reschedule now e.payload v (record { next_handle = next; eq = q })
          ≡ executed t')
        × Updates (record { next_handle = next; eq = e ∷ q }) e.payload.hdl (kept v e.payload) t'
  unfolding reschedule kept
  rescheduled now e q next (negsuc zero) h k = (
    record { next_handle = next; eq = q },
    refl,
    (
      λ g. dropped_lookup g e q h.distinct.0,
      refl,
      record { sorted = h.sorted.1; distinct = h.distinct.1; given = h.given.1 },
    ),
  )
  rescheduled now e q next (negsuc (suc n)) h k = absurd (k n refl)
  rescheduled now e q next (pos zero) h k = (_, refl, added now e q next e.payload.timeout h)
  rescheduled now e q next (pos (suc n)) h k = (_, refl, added now e q next (suc n) h)

  -- `ExecuteNextTimer` on a queue in order that is not empty, when the callback's result is at
  -- least -1: it returns normally, a timer whose callback asks to be rescheduled is scheduled under
  -- its old handle (with the new timeout, if that is positive), a discarded timer is gone, every
  -- other timer is scheduled as before, the next handle is the same, and the queue is in order.
  pub execute_next_timer_lem :
      (expire : C → ℤ) (now : Timeval) (e : Event C) (q : List (Event C)) (next : ℕ)
      → IsTimers (record { next_handle = next; eq = e ∷ q })
      → ((n : ℕ) → expire e.payload.cb ≢ negsuc (suc n))
      → (t' : Timers C) × (execute_next_timer expire now (record { next_handle = next; eq = e ∷ q })
          ≡ executed t')
        × Updates
            (record { next_handle = next; eq = e ∷ q })
            e.payload.hdl
            (kept (expire e.payload.cb) e.payload)
            t'
  unfolding execute_next_timer eq_pop
  execute_next_timer_lem expire now e q next h k =
      rescheduled now e q next (expire e.payload.cb) h k

later :
    {C : Type 0} (now x w : Timeval) (q : List (Event C))
    → IsNormal x
    → total w ≡ total x - total now
    → AllEvents (λ e. IsNormal e.tv) q
    → AllEvents (λ e. NotAfter x e.tv) q
    → AllEvents (λ e. total w ≤ total e.tv - total now) q
later now x w [] h d n a = tt
later now x w (e ∷ q) h d n a =
    (ground (arith, timeval_cmp_lem x e.tv h n.0), later now x w q h d n.1 a.1)

wait :
    {C : Type 0} (now : Timeval) (q : List (Event C))
    → IsNormal now
    → IsSorted q
    → AllEvents (λ e. IsNormal e.tv) q
    → AllEvents (λ e. total (eq_next_timer now q) ≤ total e.tv - total now) q
      × (total (eq_next_timer now q) ≡ 0 ↔ eq_top_in_past now q ≡ true)
unfolding eq_next_timer eq_top_in_past
wait now [] n s k = (tt, ground arith)
wait now (e ∷ q) n s k =
    let sub = timeval_sub_lem e.tv now k.0 n in
    (
      (ground (arith, sub.0), later now e.tv (timeval_sub e.tv now) q k.0 sub.0 k.1 s.0),
      (
        λ z. ground (arith, sub.0, timeval_cmp_lem e.tv now k.0 n),
        λ z. ground (arith, sub.0, timeval_cmp_lem e.tv now k.0 n),
      ),
    )

-- The wait that `NextTimerTime` gives on a queue in order, all times having less than a million
-- microseconds: no timer of the queue expires before it is over, and it is zero exactly if
-- `Eq_TopInPast` holds.
pub next_timer_time_lem :
    {C : Type 0} (now : Timeval) (t : Timers C)
    → IsNormal now
    → IsTimers t
    → AllEvents (λ e. IsNormal e.tv) t.eq
    → AllEvents (λ e. total (next_timer_time now t) ≤ total e.tv - total now) t.eq
      × (total (next_timer_time now t) ≡ 0 ↔ eq_top_in_past now t.eq ≡ true)
unfolding next_timer_time
next_timer_time_lem now t n h k = wait now t.eq n h.sorted k
