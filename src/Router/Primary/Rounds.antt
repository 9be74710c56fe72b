-- ===== src/Router/Primary/Rounds.antt =====
-- The rounds of the loops are sequences of the steps of Router/Primary/Steps.
use simple_sdn.Base.{
  ◌++◌, ℕ, true, false, List, [], ◌∷◌, some, ◌≡◌, refl, Option-cases, Bool-cases, inl, inr, ◌⊎◌,
  arith,
}
use simple_sdn.Timers.Timeval.{Timeval}
use simple_sdn.Timers.Manager.{next_timer_time}
use simple_sdn.Router.{Sent}
use simple_sdn.Router.Primary.{Primary, fire}
use simple_sdn.Router.Primary.Timing.{Wait, before_select, on_timeout, fire_expired, is_zero}
use simple_sdn.Router.Primary.Steps.{Steps, IsReading, stay, fired, both, Steps-same}

fire_expired-stops :
    (junk : ℕ) (now : Timeval) (readings : List Timeval) (p p' : Primary) (sent : List Sent)
    → is_zero (next_timer_time now p.timers) ≡ false
    → fire_expired junk (now ∷ readings) p ≡ some (p', sent)
    → ([] ≡ sent) × (p ≡ p')
unfolding fire_expired
fire_expired-stops junk now readings p p' sent later h = ground arith

fire_expired-goes :
    (junk : ℕ) (now : Timeval) (readings : List Timeval) (p q q' p' : Primary)
    (out out' sent : List Sent)
    → is_zero (next_timer_time now p.timers) ≡ true
    → fire junk now p ≡ some (q, out)
    → fire_expired junk readings q ≡ some (q', out')
    → fire_expired junk (now ∷ readings) p ≡ some (p', sent)
    → (out ++ out' ≡ sent) × (q' ≡ p')
unfolding fire_expired
fire_expired-goes junk now readings p q q' p' out out' sent past f k h = ground arith

fire_expired-Steps :
    (Clock : Timeval → Type 0) (junk : ℕ) (readings : List Timeval) (p p' : Primary)
    (sent : List Sent)
    → ((t : Timeval) → IsReading readings t → Clock t)
    → fire_expired junk readings p ≡ some (p', sent)
    → Steps Clock p [] sent p'
unfolding fire_expired
fire_expired-Steps Clock junk [] p p' sent c h =
    let e : ([] ≡ sent) × (p ≡ p') = ground arith in Steps-same stay e.0 e.1
fire_expired-Steps Clock junk (now ∷ readings) p p' sent c h =
    elim (Bool-cases (is_zero (next_timer_time now p.timers))) [
      | inr later ↦
          let e = fire_expired-stops junk now readings p p' sent later h in Steps-same stay e.0 e.1
      | inl past ↦ elim (Option-cases (fire junk now p)) [
        | inl fails ↦ absurd (ground arith)
        | inr ((q, out), f) ↦ elim (Option-cases (fire_expired junk readings q)) [
          | inl fails ↦ absurd (ground arith)
          | inr ((q', out'), k) ↦
              let e = fire_expired-goes junk now readings p q q' p' out out' sent past f k h in
              Steps-same
                (both (fired junk now out (c now (inl refl)) f)
                  (fire_expired-Steps Clock junk readings q q' out' (λ t r. c t (inr r)) k))
                e.0 e.1
        ]
      ]
    ]

on_timeout-goes :
    (junk : ℕ) (now : Timeval) (readings : List Timeval) (wait : Wait) (p q q' p' : Primary)
    (out out' sent : List Sent)
    → fire junk now p ≡ some (q, out)
    → fire_expired junk readings q ≡ some (q', out')
    → on_timeout junk now readings wait p ≡ some (p', some sent)
    → (out ++ out' ≡ sent) × (q' ≡ p')
unfolding on_timeout
on_timeout-goes junk now readings wait p q q' p' out out' sent f k h = ground arith

-- The timers that expire while no packet comes.
pub on_timeout-Steps :
    (Clock : Timeval → Type 0) (junk : ℕ) (now : Timeval) (readings : List Timeval) (wait : Wait)
    (p p' : Primary) (sent : List Sent)
    → ((t : Timeval) → IsReading (now ∷ readings) t → Clock t)
    → on_timeout junk now readings wait p ≡ some (p', some sent)
    → Steps Clock p [] sent p'
unfolding on_timeout
on_timeout-Steps Clock junk now readings wait p p' sent c h =
    elim (Option-cases (fire junk now p)) [
      | inl fails ↦ absurd (ground arith)
      | inr ((q, out), f) ↦ elim (Option-cases (fire_expired junk readings q)) [
        | inl fails ↦ absurd (ground arith)
        | inr ((q', out'), k) ↦
            let e = on_timeout-goes junk now readings wait p q q' p' out out' sent f k h in
            Steps-same
              (both (fired junk now out (c now (inl refl)) f)
                (fire_expired-Steps Clock junk readings q q' out' (λ t r. c t (inr r)) k))
              e.0 e.1
      ]
    ]

before_select-cases :
    (junk : ℕ) (now timeout : Timeval) (p q : Primary) (sent : List Sent) (wait : Wait)
    → before_select junk now timeout p ≡ some ((q, sent), wait)
    → (fire junk now p ≡ some (q, sent)) ⊎ (([] ≡ sent) × (p ≡ q))
unfolding before_select
before_select-cases junk now timeout p q sent wait h =
    elim (Bool-cases (is_zero (next_timer_time now p.timers))) [
      | inl past ↦ elim (Option-cases (fire junk now p)) [
        | inl fails ↦ absurd (ground arith)
        | inr ((q', out), f) ↦ inl (ground arith)
      ]
      | inr later ↦ inr (ground arith)
    ]

pub before_select-Steps :
    (Clock : Timeval → Type 0) (junk : ℕ) (now timeout : Timeval) (p q : Primary) (sent : List Sent)
    (wait : Wait)
    → Clock now
    → before_select junk now timeout p ≡ some ((q, sent), wait)
    → Steps Clock p [] sent q
before_select-Steps Clock junk now timeout p q sent wait c h =
    elim (before_select-cases junk now timeout p q sent wait h) [
      | inl f ↦ fired junk now sent c f
      | inr same ↦ Steps-same stay same.0 same.1
    ]
