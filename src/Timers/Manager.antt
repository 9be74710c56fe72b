-- ===== src/Timers/Manager.antt =====
-- The class `Timers` over its event queue.
pub mod Handles
pub mod Removal
pub mod Execution
use simple_sdn.Base.{ℕ, zero, suc, ◌+◌, Bool, true, false, ◌==◌, List, [], ◌∷◌, Option, none, some}
use simple_sdn.Timers.Timeval.{Timeval}
use simple_sdn.Timers.Queue.{
  TimerEntry, Event, eq_pop, eq_add_after, eq_next_timer, find_timer, eq_remove,
}

pub record Timers (C : Type 0) : Type 0 where
  pub next_handle : ℕ
  pub eq : List (Event C)

-- The int that `Expire` returns: `negsuc 0` is DISCARD, `pos 0` is RESCHEDULE_SAME.
pub data ℤ : Type 0 where
  pos negsuc : ℕ → ℤ

-- `executed` is a normal return, `unknown_return` is `exit(1)`, and `no_event` is the access to
-- the null pointer that `Eq_Pop` returns for an empty queue.
pub data Executed (A : Type 0) : Type 0 where
  executed : A → Executed A
  unknown_return no_event : Executed A

module _ {C : Type 0} where
  -- The constructor.
  abbrev pub timers_start : Timers C
  timers_start = record { next_handle = 1; eq = [] }

  -- `AddTimer` at the time `now`, with the handle that it returns.
  unfoldable pub add_timer : Timeval → ℕ → C → Timers C → Timers C × ℕ
  add_timer now timeout cb t =
      let entry : TimerEntry C = record { hdl = t.next_handle; timeout = timeout; cb = cb } in
      (
        record { next_handle = t.next_handle + 1; eq = eq_add_after now 1 entry timeout t.eq },
        t.next_handle,
      )

  -- `RemoveTimer`: `none` is `exit(1)`, the result of `Eq_Remove` not being 0.
  unfoldable pub remove_timer : ℕ → Timers C → Option (Timers C × Bool)
  remove_timer hdl t = elim (find_timer hdl 0 t.eq) [
    | none ↦ some (t, false)
    | some e ↦ elim (eq_remove e t.eq) [ none ↦ none | some q ↦ some (record t { eq = q }, true) ]
  ]

  -- `NextTimerTime`.
  unfoldable pub next_timer_time : Timeval → Timers C → Timeval
  next_timer_time now t = eq_next_timer now t.eq

  -- What `ExecuteNextTimer` does with the entry whose callback has returned.
  unfoldable pub reschedule : Timeval → TimerEntry C → ℤ → Timers C → Executed (Timers C)
  reschedule now entry (negsuc zero) t = executed t
  reschedule now entry (negsuc (suc n)) t = unknown_return
  reschedule now entry (pos zero) t =
      executed (record t { eq = eq_add_after now 1 entry entry.timeout t.eq })
  reschedule now entry (pos (suc n)) t =
      executed
        (record t { eq = eq_add_after now 1 (record entry { timeout = suc n }) (suc n) t.eq })

  -- `ExecuteNextTimer`, where `expire` is what the callback returns and `now` the time after it.
  unfoldable pub execute_next_timer : (C → ℤ) → Timeval → Timers C → Executed (Timers C)
  execute_next_timer expire now t = elim (eq_pop t.eq) [
    | none ↦ no_event
    | some (e, q) ↦ reschedule now e.payload (expire e.payload.cb) (record t { eq = q })
  ]
