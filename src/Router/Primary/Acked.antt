-- ===== src/Router/Primary/Acked.antt =====
-- What an acknowledgement leaves of the messages that wait.
use simple_sdn.Base.{
  subst, ℕ, Bool, ◌==◌, ltb, if◌then◌else◌, none, some, ◌≡◌, ◌≢◌, sym, ◌∙◌, arith, inl, inr,
}
use simple_sdn.StdMap
use simple_sdn.StdMap.{StdMap}
use simple_sdn.StdMap.Sorted.{assign-IsSorted, erase-IsSorted}
use simple_sdn.Timers.Manager.{Timers, remove_timer}
use simple_sdn.Timers.Manager.Handles.{timer_of}
use simple_sdn.Timers.Manager.Removal.{remove_timer_lem}
use simple_sdn.Router.Primary.{OctaneTimer, Primary, acknowledged}
use simple_sdn.Router.Primary.Watch.{
  Any, Any-Keys, ltb-IsStrictOrder, handle_of, handle_of-assign, handle_of-erase, IsWatched,
  equal-or, Sends,
}

same_timer : (s s' h : ℕ) (t : Timers OctaneTimer) → Sends s h t → Sends s' h t → s ≡ s'
same_timer s s' h t (e, found, seq) (e', found', seq') = ground arith

-- The primary router after the acknowledgement of a number that is watched under the handle `h`.
after_ack : ℕ → Timers OctaneTimer → Primary → Primary
after_ack seq t p = record p { timers = t; un_ack = StdMap.erase ltb seq p.un_ack }

acknowledged-after_ack :
    (seq h : ℕ) (t : Timers OctaneTimer) (found : Bool) (p : Primary)
    → handle_of seq p.un_ack ≡ some h
    → remove_timer h p.timers ≡ some (t, found)
    → acknowledged seq p ≡ some (after_ack seq t p)
unfolding acknowledged handle_of after_ack
acknowledged-after_ack seq h t found p k r = ground arith

-- A number that stays watched when another is acknowledged.
stays :
    (seq h s h' : ℕ) (t : Timers OctaneTimer) (p : Primary)
    → IsWatched p
    → handle_of seq p.un_ack ≡ some h
    → ((g : ℕ) → timer_of g t.eq ≡ (if h == g then none else timer_of g p.timers.eq))
    → seq ≢ s
    → handle_of s p.un_ack ≡ some h'
    → Sends s h' t
stays seq h s h' t p w k others n k' =
    let (e, found, q) = w.watched s h' k' in
    elim (equal-or h h') [
      | inl same ↦ absurd (
          n (
            same_timer seq s h p.timers (w.watched seq h k)
              (subst (λ g. Sends s g p.timers) (sym same) (w.watched s h' k'))))
      | inr other ↦ (e, others h' ∙ ground arith, q)
    ]

-- Where all messages that wait are watched, an acknowledgement of one of their numbers is handled
-- normally: its timer is not scheduled and its entry not there any more, and every other message
-- keeps its entry and is watched.
pub acknowledged_lem :
    (seq h : ℕ) (p : Primary)
    → IsWatched p
    → handle_of seq p.un_ack ≡ some h
    → (p' : Primary) × (acknowledged seq p ≡ some p')
      × (timer_of h p'.timers.eq ≡ none)
      × ((s : ℕ) → handle_of s p'.un_ack ≡ (if seq == s then none else handle_of s p.un_ack))
      × IsWatched p'
unfolding after_ack
acknowledged_lem seq h p w k =
    let (t, removed, others, same, i) = remove_timer_lem h p.timers w.timers in
    (
      after_ack seq t p,
      acknowledged-after_ack seq h t _ p k removed,
      others h ∙ ground arith,
      λ s. handle_of-erase s seq p.un_ack w.sorted,
      record {
        timers = i;
        no_zero = others 0 ∙ ground (arith, w.no_zero);
        next = ground (arith, w.next);
        sorted = erase-IsSorted ltb seq p.un_ack w.sorted;
        delay = λ g e k'. ground (arith, others g, k', w.delay g e);
        watched = λ s h' k'.
            stays seq h s h' t p w k others
              (ground (arith, handle_of-erase s seq p.un_ack w.sorted))
              (ground (arith, handle_of-erase s seq p.un_ack w.sorted));
      },
    )

acknowledged-unknown_after :
    (seq : ℕ) (t : Timers OctaneTimer) (found : Bool) (p : Primary)
    → handle_of seq p.un_ack ≡ none
    → remove_timer 0 p.timers ≡ some (t, found)
    → acknowledged seq p
      ≡ some (record p {
        timers = t;
        un_ack = StdMap.erase ltb seq (StdMap.assign ltb seq 0 p.un_ack);
      })
unfolding acknowledged handle_of
acknowledged-unknown_after seq t found p k r = ground arith

-- Where all messages that wait are watched, an acknowledgement of any other number is handled
-- normally and they are all still watched.
pub acknowledged-unknown :
    (seq : ℕ) (p : Primary)
    → IsWatched p
    → handle_of seq p.un_ack ≡ none
    → (p' : Primary) × (acknowledged seq p ≡ some p') × IsWatched p'
unfolding Any
acknowledged-unknown seq p w k =
    let (t, removed, others, same, i) = remove_timer_lem 0 p.timers w.timers in
    let sorted =
      assign-IsSorted ltb Any ltb-IsStrictOrder seq 0 p.un_ack tt (Any-Keys p.un_ack) w.sorted in
    (
      _,
      acknowledged-unknown_after seq t _ p k removed,
      record {
        timers = i;
        no_zero = others 0 ∙ ground arith;
        next = ground (arith, w.next);
        sorted = erase-IsSorted ltb seq (StdMap.assign ltb seq 0 p.un_ack) sorted;
        delay = λ g e k'. ground (arith, others g, k', w.delay g e);
        watched = λ s h k'.
            let (e, found, q) = w.watched s h (
              ground (
                arith,
                handle_of-erase s seq (StdMap.assign ltb seq 0 p.un_ack) sorted,
                handle_of-assign s seq 0 p.un_ack,
              )) in
            (e, others h ∙ ground (arith, w.no_zero), q);
      },
    )
