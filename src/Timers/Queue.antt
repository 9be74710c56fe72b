-- ===== src/Timers/Queue.antt =====
-- `EventQueue`: the list of events from `head_` along `next_`. A pointer to an event of the queue
-- is its place in the list, from 0.
pub mod Order
use simple_sdn.Base.{
  ℕ, zero, suc, ◌+◌, Bool, ◌&&◌, ◌==◌, if◌then◌else◌, List, [], ◌∷◌, Option, none, some,
}
use simple_sdn.Timers.Timeval.{
  Timeval, Cmp, less, same, more, timeval_cmp, timeval_sub, timeval_addmsecs,
}

-- `TimerEntry`, over the type of the callbacks.
pub record TimerEntry (C : Type 0) : Type 0 where
  pub hdl : ℕ
  pub timeout : ℕ
  pub cb : C

-- `event`; the payload is the timer entry that every event of the program carries.
pub record Event (C : Type 0) : Type 0 where
  pub tv : Timeval
  pub event_type : ℕ
  pub payload : TimerEntry C

module _ {C : Type 0} where
  -- `Eq_Add`: before the first event that is not before it.
  unfoldable pub eq_add : Event C → List (Event C) → List (Event C)
  eq_add n [] = n ∷ []
  eq_add n (e ∷ q) =
      let later = eq_add n q in elim (timeval_cmp n.tv e.tv) [ more ↦ e ∷ later | _ ↦ n ∷ e ∷ q ]

  -- `Eq_Pop`.
  unfoldable pub eq_pop : List (Event C) → Option (Event C × List (Event C))
  eq_pop [] = none
  eq_pop (e ∷ q) = some (e, q)

  -- `Event_SetDelay` and `Eq_AddAfter` at the time `now`.
  unfoldable pub eq_add_after : Timeval → ℕ → TimerEntry C → ℕ → List (Event C) → List (Event C)
  unfolding eq_add timeval_addmsecs
  eq_add_after now type entry delay q =
      eq_add (record { tv = timeval_addmsecs now delay; event_type = type; payload = entry }) q

  -- `Eq_NextTimer`: the time to wait, or `MAXVALUE` seconds if there is no event.
  unfoldable pub eq_next_timer : Timeval → List (Event C) → Timeval
  unfolding timeval_sub
  eq_next_timer now [] = record { tv_sec = 0x7ffffff; tv_usec = 0 }
  eq_next_timer now (e ∷ q) = timeval_sub e.tv now

  -- `Eq_TopInPast`.
  unfoldable pub eq_top_in_past : Timeval → List (Event C) → Bool
  unfolding timeval_cmp
  eq_top_in_past now [] = Bool.false
  eq_top_in_past now (e ∷ q) = elim (timeval_cmp e.tv now) [ more ↦ Bool.false | _ ↦ Bool.true ]

  -- The search of `RemoveTimer` by `Eq_FindEvent` and `Eq_FindNextEvent`: the place of the first
  -- event of type 1 with the handle, where the list begins at the place `i`.
  unfoldable pub find_timer : ℕ → ℕ → List (Event C) → Option ℕ
  find_timer hdl i [] = none
  find_timer hdl i (e ∷ q) =
      if e.event_type == 1 && e.payload.hdl == hdl then some i else find_timer hdl (i + 1) q

  -- `Eq_Remove`: `none` is the result -1.
  unfoldable pub eq_remove : ℕ → List (Event C) → Option (List (Event C))
  eq_remove i [] = none
  eq_remove zero (e ∷ q) = some q
  eq_remove (suc i) (e ∷ q) = elim (eq_remove i q) [ none ↦ none | some q' ↦ some (e ∷ q') ]
