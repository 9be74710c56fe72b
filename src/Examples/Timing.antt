-- ===== src/Examples/Timing.antt =====
-- Times and timers at concrete values.
use simple_sdn.Base.{
  ℕ, ◌≡◌, ◌≢◌, ◌≤◌, ◌<◌, ◌+◌, ◌-◌, ◌↔◌, ◌==◌, true, refl, none, some, [], ◌∷◌, arith, if◌then◌else◌,
}
use simple_sdn.Timers.Timeval.{Timeval, timeval_addusecs, timeval_addusecs_full, total}
use simple_sdn.Timers.Queue.{Event, TimerEntry, eq_add, eq_top_in_past}
use simple_sdn.Timers.Queue.Order.{AllEvents, eq_add-perm}
use mathlib.Core.List.{Perm}
use simple_sdn.Timers.Manager.{
  Timers, timers_start, remove_timer, execute_next_timer, executed, next_timer_time, pos,
}
use simple_sdn.Timers.Manager.Handles.{IsTimers, timer_of}
use simple_sdn.Timers.Manager.Removal.{remove_timer_lem}
use simple_sdn.Timers.Manager.Execution.{execute_next_timer_lem, next_timer_time_lem, Updates, kept}

abbrev noon : Timeval
noon = record { tv_sec = 43200; tv_usec = 999500 }

abbrev later : Timeval
later = record { tv_sec = 43201; tv_usec = 500 }

timeval_addusecs_full_example :
    (timeval_addusecs noon 500).tv_usec < 1000000 ↔ (noon.tv_usec + 500 ≢ 1000000)
timeval_addusecs_full_example = timeval_addusecs_full noon 500 (ground arith)

start-IsTimers : IsTimers {C = ℕ} timers_start
start-IsTimers = record { sorted = tt; distinct = tt; given = tt }

abbrev entry : TimerEntry ℕ
entry = record { hdl = 1; timeout = 2000; cb = 9 }

abbrev event : Event ℕ
event = record { tv = later; event_type = 1; payload = entry }

abbrev one : Timers ℕ
one = record { next_handle = 2; eq = event ∷ [] }

one-IsTimers : IsTimers one
one-IsTimers = record { sorted = (tt, tt); distinct = (tt, tt); given = ((refl, ground arith), tt) }

remove_timer_lem_example :
    (t' : Timers ℕ) × (remove_timer 1 one ≡ some (t', true))
    × ((g : ℕ) → timer_of g t'.eq ≡ (if 1 == g then none else timer_of g one.eq))
    × (t'.next_handle ≡ 2)
    × IsTimers t'
unfolding timer_of
remove_timer_lem_example = remove_timer_lem 1 one one-IsTimers

execute_next_timer_lem_example :
    (t' : Timers ℕ) × (execute_next_timer (λ c. pos 0) later one ≡ executed t')
    × Updates one 1 (some entry) t'
unfolding kept
execute_next_timer_lem_example =
    execute_next_timer_lem (λ c. pos 0) later event [] 2 one-IsTimers (λ n. ground arith)

next_timer_time_lem_example :
    AllEvents (λ e. total (next_timer_time noon one) ≤ total e.tv - total noon) one.eq
    × (total (next_timer_time noon one) ≡ 0 ↔ eq_top_in_past noon one.eq ≡ true)
next_timer_time_lem_example =
    next_timer_time_lem noon one (ground arith) one-IsTimers (ground arith, tt)

abbrev sooner : Event ℕ
sooner = record { tv = noon; event_type = 1; payload = entry }

eq_add-perm_example : Perm (eq_add sooner (event ∷ [])) (sooner ∷ event ∷ [])
eq_add-perm_example = eq_add-perm sooner (event ∷ [])
