-- ===== src/Router/Primary/Firing.antt =====
-- A timer that expires keeps every message that waits watched.
use simple_sdn.Base.{
  ℕ, ◌==◌, if◌then◌else◌, List, [], ◌∷◌, some, ◌≡◌, refl, sym, ◌∙◌, subst, ◌⊎◌, arith, inl, inr,
}
use simple_sdn.StdMap.{StdMap}
use simple_sdn.Timers.Timeval.{Timeval}
use simple_sdn.Timers.Queue.{Event, eq_pop}
use simple_sdn.Timers.Manager.{
  Timers, execute_next_timer, Executed, executed, unknown_return, no_event, pos,
}
use simple_sdn.Timers.Manager.Handles.{timer_of}
use simple_sdn.Timers.Manager.Execution.{execute_next_timer_lem, kept}
use simple_sdn.Router.{Sent}
use simple_sdn.Router.Primary.{Primary, OctaneTimer, fire}
use simple_sdn.Router.Primary.Watch.{AreWatched, IsWatched}

same_end : (t t' : Timers OctaneTimer) → executed t ≡ executed t' → t ≡ t'
same_end t t' h = ground arith

Executed-cases :
    {A : Type 0} (x : Executed A)
    → ((a : A) × (x ≡ executed a)) ⊎ (x ≡ unknown_return) ⊎ (x ≡ no_event)
Executed-cases (executed a) = inl (a, refl)
Executed-cases unknown_return = inr (inl refl)
Executed-cases no_event = inr (inr refl)

same_lookup :
    (g : ℕ) (e : Event OctaneTimer) (q : List (Event OctaneTimer))
    → e.event_type ≡ 1
    → (if e.payload.hdl == g then kept (pos 0) e.payload else timer_of g (e ∷ q))
      ≡ timer_of g (e ∷ q)
unfolding timer_of kept
same_lookup g e q t = ground arith

fired-AreWatched :
    (now : Timeval) (next : ℕ) (q : List (Event OctaneTimer)) (t' : Timers OctaneTimer)
    (m : StdMap ℕ ℕ)
    → AreWatched (record { next_handle = next; eq = q }) m
    → execute_next_timer (λ c. pos 0) now (record { next_handle = next; eq = q }) ≡ executed t'
    → AreWatched t' m
unfolding execute_next_timer eq_pop
fired-AreWatched now next [] t' m w h = ground arith
fired-AreWatched now next (e ∷ q) t' m w h =
    let (t, ends, ups) =
      execute_next_timer_lem (λ c. pos 0) now e q next w.timers (λ n. ground arith) in
    let kept_all : (g : ℕ) → timer_of g t.eq ≡ timer_of g (e ∷ q) =
      λ g. ups.0 g ∙ same_lookup g e q w.timers.given.0.0 in
    let watched : AreWatched t m = record {
      timers = ups.2;
      no_zero = kept_all 0 ∙ w.no_zero;
      next = ground (arith, ups.1, w.next);
      sorted = w.sorted;
      delay = λ g x k. w.delay g x (sym (kept_all g) ∙ k);
      watched = λ s g k. let (x, found, seq) = w.watched s g k in (x, kept_all g ∙ found, seq);
    } in
    subst (λ x. AreWatched x m) (same_end t t' (sym ends ∙ h)) watched

pub fire-IsWatched :
    (junk : ℕ) (now : Timeval) (p p' : Primary) (sent : List Sent)
    → IsWatched p
    → fire junk now p ≡ some (p', sent)
    → IsWatched p'
unfolding fire
fire-IsWatched junk now p p' sent w h =
    elim (Executed-cases (execute_next_timer (λ c. pos 0) now p.timers)) [
      | inl (t, e) ↦
          ground (arith, fired-AreWatched now p.timers.next_handle p.timers.eq t p.un_ack w e)
      | inr (inl n) ↦ ground arith
      | inr (inr n) ↦ ground arith
    ]
