-- ===== src/Router/Primary/Origin.antt =====
-- The messages of the timers are the ones that the handlers have sent.
pub mod Handlers
pub mod Stages
pub mod Replies
pub mod Portal
pub mod History
use simple_sdn.Base.{
  ℕ, Bool, true, false, ◌==◌, ◌%◌, ◌&&◌, not, if◌then◌else◌, List, [], ◌∷◌, ◌++◌, Option, none,
  some, ◌≡◌, refl, ◌⊎◌, inl, inr, zero, suc, Bool-cases, subst, Option-cases, Buffer, Text, text,
  arith,
}
use simple_sdn.Octane.{OctaneControl}
use simple_sdn.StdMap.{StdMap}
use simple_sdn.Timers.Timeval.{Timeval, timeval_addmsecs}
use simple_sdn.Timers.Queue.{Event, TimerEntry, eq_add, eq_remove, eq_add_after, eq_pop, find_timer}
use simple_sdn.Timers.Queue.Order.{AllEvents, AllEvents-add}
use simple_sdn.Timers.Manager.{
  Timers, add_timer, remove_timer, execute_next_timer, reschedule, pos, executed,
}
use simple_sdn.Timers.Manager.Handles.{timer_of}
use simple_sdn.Router.{Peer, Sent, udp}
use simple_sdn.Router.Handler.{Stale, Handled, goes_on, returns, exits, overrun}
use simple_sdn.Router.Primary.{Primary, OctaneTimer, expire, fire, watch, acknowledged, on_ack}

-- The packet is among those.
abbrev pub Among : Sent → List Sent → Type 0
Among s [] = ⊥
Among s (x ∷ out) = (s ≡ x) ⊎ Among s out

pub Among-left : (s : Sent) (out more : List Sent) → Among s out → Among s (out ++ more)
Among-left s [] more a = absurd a
Among-left s (x ∷ out) more (inl e) = inl e
Among-left s (x ∷ out) more (inr a) = inr (Among-left s out more a)

pub Among-right : (s : Sent) (out more : List Sent) → Among s more → Among s (out ++ more)
Among-right s [] more a = a
Among-right s (x ∷ out) more a = inr (Among-right s out more a)

-- What the timer sends is among these packets, and its message carries the timer's number.
pub record Announced (c : OctaneTimer) (out : List Sent) : Type 0 where
  pub number : c.msg.octane_seqno ≡ c.seq
  pub junk : ℕ
  pub sent : Among (expire junk c) out

pub Announced-left :
    (c : OctaneTimer) (out more : List Sent) → Announced c out → Announced c (out ++ more)
Announced-left c out more a = record {
  number = a.number;
  junk = a.junk;
  sent = Among-left (expire a.junk c) out more a.sent;
}

pub Announced-right :
    (c : OctaneTimer) (out more : List Sent) → Announced c more → Announced c (out ++ more)
Announced-right c out more a = record {
  number = a.number;
  junk = a.junk;
  sent = Among-right (expire a.junk c) out more a.sent;
}

module _ (Q : OctaneTimer → Type 0) where
  -- Every timer satisfies the predicate.
  abbrev pub AllTimers : List (Event OctaneTimer) → Type 0
  AllTimers q = AllEvents (λ e. Q e.payload.cb) q

  abbrev pub Are : Primary → Type 0
  Are p = AllTimers p.timers.eq

  pub Are-timer_of :
      (g : ℕ) (x : TimerEntry OctaneTimer) (q : List (Event OctaneTimer))
      → AllTimers q
      → timer_of g q ≡ some x
      → Q x.cb
  unfolding timer_of
  Are-timer_of g x [] a f = absurd (ground arith)
  Are-timer_of g x (e ∷ q) a f = elim (Bool-cases (e.event_type == 1 && e.payload.hdl == g)) [
    | inl hit ↦ let k : e.payload ≡ x = ground arith in subst (λ y. Q y.cb) k a.0
    | inr other ↦ Are-timer_of g x q a.1 (ground arith)
  ]

  pub watch-Are :
      (now : Timeval) (rou2 : Peer) (m : OctaneControl) (seq : ℕ) (p : Primary)
      → Q (record { msg = m; seq = seq; rou2_addr = rou2 })
      → Are p
      → Are (watch now rou2 m seq p)
  unfolding watch add_timer eq_add_after
  watch-Are now rou2 m seq p h a = AllEvents-add (λ e. Q e.payload.cb) _ p.timers.eq h a

  eq_remove-Are :
      (i : ℕ) (q q' : List (Event OctaneTimer))
      → AllTimers q
      → eq_remove i q ≡ some q'
      → AllTimers q'
  unfolding eq_remove
  eq_remove-Are i [] q' a e = absurd (ground arith)
  eq_remove-Are zero (x ∷ q) q' a e = let k : q ≡ q' = ground arith in subst AllTimers k a.1
  eq_remove-Are (suc i) (x ∷ q) q' a e = elim (Option-cases (eq_remove i q)) [
    | inl fails ↦ absurd (ground arith)
    | inr (r, f) ↦
        let k : x ∷ r ≡ q' = ground arith in subst AllTimers k (a.0, eq_remove-Are i q r a.1 f)
  ]

  remove_timer-Are :
      (h : ℕ) (t t' : Timers OctaneTimer) (found : Bool)
      → AllTimers t.eq
      → remove_timer h t ≡ some (t', found)
      → AllTimers t'.eq
  unfolding remove_timer
  remove_timer-Are h t t' found a e = elim (Option-cases (find_timer h 0 t.eq)) [
    | inl miss ↦ let k : t.eq ≡ t'.eq = ground arith in subst AllTimers k a
    | inr (i, hit) ↦ elim (Option-cases (eq_remove i t.eq)) [
      | inl fails ↦ absurd (ground arith)
      | inr (q, f) ↦
          let k : q ≡ t'.eq = ground arith in subst AllTimers k (eq_remove-Are i t.eq q a f)
    ]
  ]

  removed :
      (x : Option (Timers OctaneTimer × Bool)) (u : StdMap ℕ ℕ) (p p' : Primary)
      → ((t : Timers OctaneTimer) (found : Bool) → x ≡ some (t, found) → AllTimers t.eq)
      → (elim x [ none ↦ none | some (t, found) ↦ some (record p { timers = t; un_ack = u }) ])
        ≡ some p'
      → Are p'
  removed none u p p' k e = absurd (ground arith)
  removed (some (t, found)) u p p' k e =
      let same : t.eq ≡ p'.timers.eq = ground arith in subst AllTimers same (k t found refl)

  pub acknowledged-Are : (seq : ℕ) (p p' : Primary) → Are p → acknowledged seq p ≡ some p' → Are p'
  unfolding acknowledged
  acknowledged-Are seq p p' a e =
      removed _ _ p p' (λ t found. remove_timer-Are _ p.timers t found a) e

  fired :
      (junk : ℕ) (now : Timeval) (q : List (Event OctaneTimer)) (n : ℕ) (p p' : Primary)
      (sent : List Sent)
      → AllTimers q
      → fire junk now (record p { timers = record { next_handle = n; eq = q } }) ≡ some (p', sent)
      → Are p'
  unfolding fire execute_next_timer eq_pop reschedule eq_add_after
  fired junk now [] n p p' sent a e = absurd (ground arith)
  fired junk now (x ∷ q) n p p' sent a e =
      let again : Event OctaneTimer = record {
        tv = timeval_addmsecs now x.payload.timeout;
        event_type = 1;
        payload = x.payload;
      } in
      let k : eq_add again q ≡ p'.timers.eq = ground arith in
      subst AllTimers k (AllEvents-add (λ e. Q e.payload.cb) again q a.0 a.1)

  -- A timer that expires stays as it is.
  pub fire-Are :
      (junk : ℕ) (now : Timeval) (p p' : Primary) (sent : List Sent)
      → Are p
      → fire junk now p ≡ some (p', sent)
      → Are p'
  fire-Are junk now p p' sent a e = fired junk now p.timers.eq p.timers.next_handle p p' sent a e
