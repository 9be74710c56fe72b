-- ===== src/Router/Primary/Watch.antt =====
-- The messages that wait for an acknowledgement and their timers.
use simple_sdn.Base.{
  ◌<◌, Bool-cases, subst, ◌⊎◌, ℕ, ◌==◌, ltb, if◌then◌else◌, [], ◌∷◌, Option, none, some, ◌≡◌, ◌≢◌,
  refl, ◌∙◌, arith, inl, inr,
}
use simple_sdn.StdMap
use simple_sdn.StdMap.{StdMap}
use simple_sdn.StdMap.Laws.{IsStrictOrder, Keys, find-assign}
use simple_sdn.StdMap.Sorted.{find-erase, assign-IsSorted, erase-IsSorted}
use simple_sdn.StdMap.Sorted
use simple_sdn.Octane.{OctaneControl}
use simple_sdn.Timers.Timeval.{Timeval}
use simple_sdn.Timers.Queue.{TimerEntry}
use simple_sdn.Timers.Manager.{Timers, add_timer}
use simple_sdn.Timers.Manager.Handles.{
  timer_of, IsTimers, add_timer-IsTimers, timer_of-add_timer, timer_of-given,
}
use simple_sdn.Router.{Peer}
use simple_sdn.Router.Primary.{OctaneTimer, Primary, watch}

-- Every key of a map of numbers is in order.
unfoldable pub Any : ℕ → Type 0
Any k = Unit

pub ltb-IsStrictOrder : IsStrictOrder ltb Any
ltb-IsStrictOrder = record {
  irrefl = λ a p. ground arith;
  trans = λ a b c p q r x y. ground arith;
  connected = λ a b p q x y. ground arith;
}

pub Any-Keys : (m : StdMap ℕ ℕ) → Keys Any m
unfolding Any
Any-Keys [] = tt
Any-Keys ((k, v) ∷ m) = (tt, Any-Keys m)

-- The handle under which `m_unAckBuffer` has a number.
unfoldable pub handle_of : ℕ → StdMap ℕ ℕ → Option ℕ
handle_of s m = elim (StdMap.find ltb s m) [ none ↦ none | some (k, h) ↦ some h ]

pub handle_of-assign :
    (i k h : ℕ) (m : StdMap ℕ ℕ)
    → handle_of i (StdMap.assign ltb k h m) ≡ (if k == i then some h else handle_of i m)
unfolding handle_of Any
handle_of-assign i k h m =
    ground (arith, find-assign ltb Any ltb-IsStrictOrder i k h m tt tt (Any-Keys m))

pub handle_of-erase :
    (i k : ℕ) (m : StdMap ℕ ℕ)
    → Sorted.IsSorted ltb m
    → handle_of i (StdMap.erase ltb k m) ≡ (if k == i then none else handle_of i m)
unfolding handle_of Any
handle_of-erase i k m s =
    ground (arith, find-erase ltb Any ltb-IsStrictOrder i k m tt tt (Any-Keys m) s)

-- Each number that waits for an acknowledgement has a scheduled timer of that number;
-- no timer has the handle 0, and each has 2000 milliseconds.
pub record AreWatched (t : Timers OctaneTimer) (m : StdMap ℕ ℕ) : Type 0 where
  pub timers : IsTimers t
  pub no_zero : timer_of 0 t.eq ≡ none
  pub next : 0 < t.next_handle
  pub sorted : Sorted.IsSorted ltb m
  pub delay : (g : ℕ) (e : TimerEntry OctaneTimer) → timer_of g t.eq ≡ some e → e.timeout ≡ 2000
  pub watched :
      (s h : ℕ)
      → handle_of s m ≡ some h
      → (e : TimerEntry OctaneTimer) × (timer_of h t.eq ≡ some e) × (e.cb.seq ≡ s)

abbrev pub IsWatched : Primary → Type 0
IsWatched p = AreWatched p.timers p.un_ack

subst2 : (P : ℕ → ℕ → Type 0) {a b c d : ℕ} → a ≡ b → c ≡ d → P a c → P b d
subst2 P {b = b} {c} p q x = subst (P b) q (subst (λ a. P a c) p x)

pub equal-or : (x y : ℕ) → (x ≡ y) ⊎ (x ≢ y)
equal-or x y = elim (Bool-cases (x == y)) [
  | inl e ↦ inl (ground arith)
  | inr e ↦ inr (ground arith)
]

-- A timer of the number is scheduled under the handle.
abbrev pub Sends : ℕ → ℕ → Timers OctaneTimer → Type 0
Sends s h t = (e : TimerEntry OctaneTimer) × (timer_of h t.eq ≡ some e) × (e.cb.seq ≡ s)

watched-new :
    (now : Timeval) (c : OctaneTimer) (t : Timers OctaneTimer)
    → IsTimers t
    → Sends c.seq t.next_handle (add_timer now 2000 c t).0
unfolding add_timer
watched-new now c t i = (
  record { hdl = t.next_handle; timeout = 2000; cb = c },
  timer_of-add_timer t.next_handle now 2000 c t i ∙ ground arith,
  refl,
)

watched-old :
    (now : Timeval) (c : OctaneTimer) (t : Timers OctaneTimer) (s h : ℕ)
    → IsTimers t
    → Sends s h t
    → Sends s h (add_timer now 2000 c t).0
unfolding add_timer
watched-old now c t s h i (e, found, seq) = (
  e,
  timer_of-add_timer h now 2000 c t i
      ∙ ground (arith, found, timer_of-given h t.next_handle e t.eq i.given found),
  seq,
)

-- Where all messages that wait are watched, they are still when one more is sent: each number that
-- waits for an acknowledgement has a scheduled timer of that number.
pub watch-IsWatched :
    (now : Timeval) (rou2 : Peer) (m : OctaneControl) (seq : ℕ) (p : Primary)
    → IsWatched p
    → IsWatched (watch now rou2 m seq p)
unfolding watch add_timer Any
watch-IsWatched now rou2 m seq p w =
    let c : OctaneTimer = record { msg = m; seq = seq; rou2_addr = rou2 } in
    record {
      timers = add_timer-IsTimers now 2000 c p.timers w.timers;
      no_zero =
          timer_of-add_timer 0 now 2000 c p.timers w.timers ∙ ground (arith, w.no_zero, w.next);
      next = ground (arith, w.next);
      sorted =
          assign-IsSorted ltb Any ltb-IsStrictOrder seq _ p.un_ack tt (Any-Keys p.un_ack) w.sorted;
      delay = λ g e k.
          ground (arith, timer_of-add_timer g now 2000 c p.timers w.timers, k, w.delay g e);
      watched = λ s h k. elim (equal-or seq s) [
        | inl same ↦
            subst2 (λ s' h'. Sends s' h' (add_timer now 2000 c p.timers).0) same
              (ground (arith, handle_of-assign s seq p.timers.next_handle p.un_ack))
              (watched-new now c p.timers w.timers)
        | inr other ↦
            watched-old now c p.timers s h w.timers
              (w.watched s h (ground (arith, handle_of-assign s seq p.timers.next_handle p.un_ack)))
      ];
    }
