-- ===== src/Timers/Timeval.antt =====
-- `struct timeval` and its routines. Times are not negative.
use simple_sdn.Base.{
  ℕ, ◌+◌, ◌-◌, ◌*◌, ◌/◌, ◌%◌, ◌<◌, ◌≤◌, ◌≡◌, ◌≢◌, ◌↔◌, ltb, leb, if◌then◌else◌, arith, refl, ◌⊎◌,
  inl, inr,
}

pub record Timeval : Type 0 where
  pub tv_sec : ℕ
  pub tv_usec : ℕ

-- The results -1, 0 and 1.
pub data Cmp : Type 0 where
  less same more : Cmp

pub Cmp-cases : (c : Cmp) → c ≡ more ⊎ c ≢ more
Cmp-cases less = inr (ground arith)
Cmp-cases same = inr (ground arith)
Cmp-cases more = inl refl

-- `Timeval_Cmp`.
unfoldable pub timeval_cmp : Timeval → Timeval → Cmp
timeval_cmp x y =
    if ltb y.tv_sec x.tv_sec
    then more
    else if ltb x.tv_sec y.tv_sec
    then less
    else if ltb y.tv_usec x.tv_usec
    then more
    else if ltb x.tv_usec y.tv_usec
    then less
    else same

abbrev pub timeval_zero : Timeval
timeval_zero = record { tv_sec = 0; tv_usec = 0 }

-- `Timeval_Sub`: zero if `x` is before `y`.
unfoldable pub timeval_sub : Timeval → Timeval → Timeval
unfolding timeval_cmp
timeval_sub x y =
    let borrowed : Timeval =
      if ltb x.tv_usec y.tv_usec
      then record { tv_sec = x.tv_sec - 1; tv_usec = x.tv_usec + 1000000 }
      else x in
    elim (timeval_cmp x y) [
      | less ↦ timeval_zero
      | _ ↦ record { tv_sec = borrowed.tv_sec - y.tv_sec; tv_usec = borrowed.tv_usec - y.tv_usec }
    ]

-- `Timeval_Addusecs`: the carry is taken above a million only.
unfoldable pub timeval_addusecs : Timeval → ℕ → Timeval
timeval_addusecs tv usecs =
    let usec = tv.tv_usec + usecs in
    if ltb 1000000 usec
    then record { tv_sec = tv.tv_sec + usec / 1000000; tv_usec = usec % 1000000 }
    else record tv { tv_usec = usec }

-- `Timeval_Addmsecs`.
unfoldable pub timeval_addmsecs : Timeval → ℕ → Timeval
unfolding timeval_addusecs
timeval_addmsecs tv msecs =
    if leb 1000 msecs
    then timeval_addusecs (record tv { tv_sec = tv.tv_sec + msecs / 1000 }) (msecs % 1000 * 1000)
    else timeval_addusecs tv (msecs * 1000)

-- The microseconds that a `timeval` stands for.
abbrev pub total : Timeval → ℕ
total tv = tv.tv_sec * 1000000 + tv.tv_usec

abbrev pub IsNormal : Timeval → Type 0
IsNormal tv = tv.tv_usec < 1000000

-- The comparison of times with less than a million microseconds is that of their totals.
pub timeval_cmp_lem :
    (x y : Timeval)
    → IsNormal x
    → IsNormal y
    → timeval_cmp x y
      ≡ (if ltb (total x) (total y) then less else if ltb (total y) (total x) then more else same)
unfolding timeval_cmp
timeval_cmp_lem x y h k = ground arith

-- The difference of times with less than a million microseconds has less, too, and holds as many
-- microseconds as there are from `y` to `x`, or none if `x` is not after `y`.
pub timeval_sub_lem :
    (x y : Timeval)
    → IsNormal x
    → IsNormal y
    → (total (timeval_sub x y) ≡ total x - total y) × IsNormal (timeval_sub x y)
unfolding timeval_sub
timeval_sub_lem x y h k = ground arith

-- To a time with less than a million microseconds a delay in milliseconds is added exactly; the sum
-- has at most a million microseconds.
pub timeval_addmsecs_lem :
    (tv : Timeval) (msecs : ℕ)
    → IsNormal tv
    → (total (timeval_addmsecs tv msecs) ≡ total tv + msecs * 1000)
      × ((timeval_addmsecs tv msecs).tv_usec ≤ 1000000)
unfolding timeval_addmsecs
timeval_addmsecs_lem tv msecs h = ground arith

-- The sum of a time with less than a million microseconds and a delay has less than a million, too,
-- exactly when the microseconds and the delay do not add up to a million.
pub timeval_addusecs_full :
    (tv : Timeval) (usecs : ℕ)
    → IsNormal tv
    → (timeval_addusecs tv usecs).tv_usec < 1000000 ↔ (tv.tv_usec + usecs ≢ 1000000)
unfolding timeval_addusecs
timeval_addusecs_full tv usecs h = ground arith
