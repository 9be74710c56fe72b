-- ===== src/Timers/Manager/Handles.antt =====
-- `Timers` as a map from handles to timers.
use simple_sdn.Base.{
  ℕ, ◌+◌, Bool, true, false, ◌==◌, ◌&&◌, ◌<◌, List, [], ◌∷◌, Option, none, some, ◌≡◌, ◌≢◌, refl,
  arith, if◌then◌else◌,
}
use simple_sdn.Timers.Timeval.{Timeval, timeval_addmsecs}
use simple_sdn.Timers.Queue.{TimerEntry, Event, eq_add, eq_add_after}
use simple_sdn.Timers.Queue.Order.{AllEvents, AllEvents-add, IsSorted, eq_add-IsSorted}
use simple_sdn.Timers.Manager.{Timers, add_timer}

abbrev pub is_some : {A : Type 0} → Option A → Bool
is_some none = false
is_some (some x) = true

module _ {C : Type 0} where
  -- The timer with the handle, of the first event that has it.
  unfoldable pub timer_of : ℕ → List (Event C) → Option (TimerEntry C)
  timer_of g [] = none
  timer_of g (e ∷ q) =
      if e.event_type == 1 && e.payload.hdl == g then some e.payload else timer_of g q

  -- No two events carry the same handle.
  abbrev pub IsDistinct : List (Event C) → Type 0
  IsDistinct [] = Unit
  IsDistinct (e ∷ q) = AllEvents (λ x. x.payload.hdl ≢ e.payload.hdl) q × IsDistinct q

  -- The events are sorted, of type 1, and carry different handles that have been given out.
  pub record IsTimers (t : Timers C) : Type 0 where
    pub sorted : IsSorted t.eq
    pub distinct : IsDistinct t.eq
    pub given : AllEvents (λ e. (e.event_type ≡ 1) × (e.payload.hdl < t.next_handle)) t.eq

  pub timer_of-eq_add :
      (g : ℕ) (n : Event C) (q : List (Event C))
      → AllEvents (λ x. x.payload.hdl ≢ n.payload.hdl) q
      → n.event_type ≡ 1
      → timer_of g (eq_add n q) ≡ (if n.payload.hdl == g then some n.payload else timer_of g q)
  unfolding timer_of eq_add
  timer_of-eq_add g n [] h k = ground arith
  timer_of-eq_add g n (e ∷ q) h k = ground (arith, timer_of-eq_add g n q h.1 k)

  fresh :
      (h : ℕ) (q : List (Event C))
      → AllEvents (λ e. (e.event_type ≡ 1) × (e.payload.hdl < h)) q
      → AllEvents (λ x. x.payload.hdl ≢ h) q
  fresh h [] k = tt
  fresh h (e ∷ q) k = (ground arith, fresh h q k.1)

  pub IsDistinct-eq_add :
      (n : Event C) (q : List (Event C))
      → AllEvents (λ x. x.payload.hdl ≢ n.payload.hdl) q
      → IsDistinct q
      → IsDistinct (eq_add n q)
  unfolding eq_add
  IsDistinct-eq_add n [] h k = (tt, tt)
  IsDistinct-eq_add n (e ∷ q) h k =
      ground (
        arith,
        IsDistinct-eq_add n q h.1 k.1,
        AllEvents-add (λ x. x.payload.hdl ≢ e.payload.hdl) n q,
      )

  given_more :
      (h : ℕ) (q : List (Event C))
      → AllEvents (λ e. (e.event_type ≡ 1) × (e.payload.hdl < h)) q
      → AllEvents (λ e. (e.event_type ≡ 1) × (e.payload.hdl < h + 1)) q
  given_more h [] k = tt
  given_more h (e ∷ q) k = ((k.0.0, ground arith), given_more h q k.1)

  pub timer_of-given :
      (g h : ℕ) (e : TimerEntry C) (q : List (Event C))
      → AllEvents (λ e. (e.event_type ≡ 1) × (e.payload.hdl < h)) q
      → timer_of g q ≡ some e
      → g < h
  unfolding timer_of
  timer_of-given g h e [] k f = ground arith
  timer_of-given g h e (x ∷ q) k f = ground (arith, timer_of-given g h e q k.1)

  -- `AddTimer` keeps the queue sorted, its handles different and below the next handle.
  pub add_timer-IsTimers :
      (now : Timeval) (timeout : ℕ) (cb : C) (t : Timers C)
      → IsTimers t
      → IsTimers (add_timer now timeout cb t).0
  unfolding add_timer eq_add_after
  add_timer-IsTimers now timeout cb t h = record {
    sorted = eq_add-IsSorted _ t.eq h.sorted;
    distinct = IsDistinct-eq_add _ t.eq (fresh t.next_handle t.eq h.given) h.distinct;
    given = AllEvents-add _ _ t.eq (refl, ground arith) (given_more t.next_handle t.eq h.given);
  }

  -- On a queue in order, `AddTimer` schedules the timer under the handle that it returns and
  -- leaves every other handle as it was.
  pub timer_of-add_timer :
      (g : ℕ) (now : Timeval) (timeout : ℕ) (cb : C) (t : Timers C)
      → IsTimers t
      → timer_of g (add_timer now timeout cb t).0.eq ≡ (
          if (add_timer now timeout cb t).1 == g
          then some (record { hdl = g; timeout = timeout; cb = cb })
          else timer_of g t.eq)
  unfolding add_timer eq_add_after
  timer_of-add_timer g now timeout cb t h = ground (
    arith,
    timer_of-eq_add g
        (record {
          tv = timeval_addmsecs now timeout;
          event_type = 1;
          payload = record { hdl = t.next_handle; timeout = timeout; cb = cb };
        })
        t.eq (fresh t.next_handle t.eq h.given) refl,
  )
