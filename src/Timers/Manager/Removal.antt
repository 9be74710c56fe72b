-- ===== src/Timers/Manager/Removal.antt =====
-- `RemoveTimer` and `ExecuteNextTimer` as operations on the map from handles to timers.
use simple_sdn.Base.{
  ℕ, suc, ◌+◌, false, ◌==◌, ◌&&◌, List, [], ◌∷◌, none, some, ◌≡◌, ◌≢◌, refl, arith, if◌then◌else◌,
}
use simple_sdn.Timers.Queue.{Event, find_timer, eq_remove}
use simple_sdn.Timers.Queue.Order.{AllEvents, IsSorted, NotAfter}
use simple_sdn.Timers.Manager.{Timers, remove_timer}
use simple_sdn.Timers.Manager.Handles.{timer_of, is_some, IsDistinct, IsTimers}

module _ {C : Type 0} where
  find_timer-suc :
      (g i : ℕ) (q : List (Event C))
      → find_timer g (suc i) q ≡ elim (find_timer g i q) [ none ↦ none | some j ↦ some (suc j) ]
  unfolding find_timer
  find_timer-suc g i [] = refl
  find_timer-suc g i (e ∷ q) = ground (arith, find_timer-suc g (suc i) q)

  -- What `RemoveTimer` does to the queue: the first event with the handle is taken out.
  unfoldable pub without : ℕ → List (Event C) → List (Event C)
  without g [] = []
  without g (e ∷ q) =
      let rest = without g q in if e.event_type == 1 && e.payload.hdl == g then q else e ∷ rest

  remove_found :
      (g : ℕ) (q : List (Event C))
      → elim (find_timer g 0 q) [ none ↦ none | some j ↦ eq_remove j q ]
        ≡ (if is_some (timer_of g q) then some (without g q) else none)
  unfolding find_timer eq_remove timer_of without
  remove_found g [] = refl
  remove_found g (e ∷ q) = ground (arith, remove_found g q, find_timer-suc g 0 q)

  found : (g i : ℕ) (q : List (Event C)) → is_some (find_timer g i q) ≡ is_some (timer_of g q)
  unfolding find_timer timer_of
  found g i [] = refl
  found g i (e ∷ q) = ground (arith, found g (i + 1) q)

  without_missing : (g : ℕ) (q : List (Event C)) → is_some (timer_of g q) ≡ false → without g q ≡ q
  unfolding timer_of without
  without_missing g [] h = refl
  without_missing g (e ∷ q) h = ground (arith, without_missing g q)

  remove_timer-without :
      (g : ℕ) (t : Timers C)
      → remove_timer g t ≡ some (record t { eq = without g t.eq }, is_some (timer_of g t.eq))
  unfolding remove_timer
  remove_timer-without g t =
      ground (arith, remove_found g t.eq, found g 0 t.eq, without_missing g t.eq)

  pub missing :
      (g : ℕ) (q : List (Event C)) → AllEvents (λ x. x.payload.hdl ≢ g) q → timer_of g q ≡ none
  unfolding timer_of
  missing g [] h = refl
  missing g (e ∷ q) h = ground (arith, missing g q h.1)

  timer_of-without :
      (g h : ℕ) (q : List (Event C))
      → IsDistinct q
      → timer_of g (without h q) ≡ (if h == g then none else timer_of g q)
  unfolding timer_of without
  timer_of-without g h [] d = ground arith
  timer_of-without g h (e ∷ q) d =
      ground (arith, timer_of-without g h q d.1, missing e.payload.hdl q d.0)

  AllEvents-without {ℓ} :
      (P : Event C → Type ℓ) (h : ℕ) (q : List (Event C))
      → AllEvents P q
      → AllEvents P (without h q)
  unfolding without
  AllEvents-without P h [] a = tt
  AllEvents-without P h (e ∷ q) a = ground (arith, AllEvents-without P h q a.1)

  IsDistinct-without : (h : ℕ) (q : List (Event C)) → IsDistinct q → IsDistinct (without h q)
  unfolding without
  IsDistinct-without h [] d = tt
  IsDistinct-without h (e ∷ q) d = ground (
    arith,
    IsDistinct-without h q d.1,
    AllEvents-without (λ x. x.payload.hdl ≢ e.payload.hdl) h q d.0,
  )

  IsSorted-without : (h : ℕ) (q : List (Event C)) → IsSorted q → IsSorted (without h q)
  unfolding without
  IsSorted-without h [] d = tt
  IsSorted-without h (e ∷ q) d =
      ground (arith, IsSorted-without h q d.1, AllEvents-without (λ x. NotAfter e.tv x.tv) h q d.0)

  without-IsTimers :
      (h : ℕ) (t : Timers C) → IsTimers t → IsTimers (record t { eq = without h t.eq })
  without-IsTimers h t i = record {
    sorted = IsSorted-without h t.eq i.sorted;
    distinct = IsDistinct-without h t.eq i.distinct;
    given = AllEvents-without _ h t.eq i.given;
  }

  -- On a queue in order, `RemoveTimer` returns normally, with true exactly if the handle is
  -- scheduled. Afterwards the handle is not scheduled, every other handle is scheduled as before,
  -- the next handle is the same, and the queue is in order.
  pub remove_timer_lem :
      (h : ℕ) (t : Timers C)
      → IsTimers t
      → (t' : Timers C) × (remove_timer h t ≡ some (t', is_some (timer_of h t.eq)))
        × ((g : ℕ) → timer_of g t'.eq ≡ (if h == g then none else timer_of g t.eq))
        × (t'.next_handle ≡ t.next_handle)
        × IsTimers t'
  remove_timer_lem h t i = (
    record t { eq = without h t.eq },
    remove_timer-without h t,
    λ g. timer_of-without g h t.eq i.distinct,
    refl,
    without-IsTimers h t i,
  )
