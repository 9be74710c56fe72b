-- ===== src/Timers/Queue/Order.antt =====
-- The queue is kept in the order of expiration, and an insertion loses no event.
use mathlib.Core.List.{Perm}
use mathlib.Core.List.Perm
use simple_sdn.Base.{subst, sym, ◌⊎◌, inl, inr, ◌≡◌, ◌≢◌, List, [], ◌∷◌, arith}
use simple_sdn.Timers.Timeval.{Timeval, more, timeval_cmp, Cmp-cases}
use simple_sdn.Timers.Queue.{Event, eq_add}

-- `x` does not expire after `y`.
abbrev pub NotAfter : Timeval → Timeval → Type 0
NotAfter x y = timeval_cmp x y ≢ more

NotAfter-trans : (x y z : Timeval) → NotAfter x y → NotAfter y z → NotAfter x z
unfolding timeval_cmp
NotAfter-trans x y z h k = ground arith

NotAfter-total : (x y : Timeval) → timeval_cmp x y ≡ more → NotAfter y x
unfolding timeval_cmp
NotAfter-total x y h = ground arith

module _ {C : Type 0} where
  abbrev pub AllEvents {ℓ} : (Event C → Type ℓ) → List (Event C) → Type ℓ
  AllEvents P [] = Unit
  AllEvents P (e ∷ q) = P e × AllEvents P q

  abbrev pub IsSorted : List (Event C) → Type 0
  IsSorted [] = Unit
  IsSorted (e ∷ q) = AllEvents (λ x. NotAfter e.tv x.tv) q × IsSorted q

  pub AllEvents-add {ℓ} :
      (P : Event C → Type ℓ) (n : Event C) (q : List (Event C))
      → P n
      → AllEvents P q
      → AllEvents P (eq_add n q)
  unfolding eq_add
  AllEvents-add P n [] p h = (p, tt)
  AllEvents-add P n (e ∷ q) p h = ground (arith, AllEvents-add P n q p h.1)

  AllEvents-after :
      (x y : Timeval) (q : List (Event C))
      → NotAfter y x
      → AllEvents (λ e. NotAfter x e.tv) q
      → AllEvents (λ e. NotAfter y e.tv) q
  AllEvents-after x y [] h k = tt
  AllEvents-after x y (e ∷ q) h k = (NotAfter-trans y x e.tv h k.0, AllEvents-after x y q h k.1)

  -- `Eq_Add` keeps a sorted queue sorted.
  pub eq_add-IsSorted : (n : Event C) (q : List (Event C)) → IsSorted q → IsSorted (eq_add n q)
  unfolding eq_add
  eq_add-IsSorted n [] h = (tt, tt)
  eq_add-IsSorted n (e ∷ q) h = ground (
    arith,
    eq_add-IsSorted n q h.1,
    AllEvents-add (λ x. NotAfter e.tv x.tv) n q,
    NotAfter-total n.tv e.tv,
    AllEvents-after e.tv n.tv q,
  )

  eq_add-cases :
      (n e : Event C) (q : List (Event C))
      → (eq_add n (e ∷ q) ≡ e ∷ eq_add n q) ⊎ (eq_add n (e ∷ q) ≡ n ∷ e ∷ q)
  unfolding eq_add
  eq_add-cases n e q = elim (Cmp-cases (timeval_cmp n.tv e.tv)) [
    | inl after ↦ inl (ground arith)
    | inr before ↦ inr (ground arith)
  ]

  -- `Eq_Add` leaves the events of the queue and the new one, none lost or doubled.
  pub eq_add-perm : (n : Event C) (q : List (Event C)) → Perm (eq_add n q) (n ∷ q)
  unfolding eq_add
  eq_add-perm n [] = Perm.refl _
  eq_add-perm n (e ∷ q) = elim (eq_add-cases n e q) [
    | inl later ↦
        subst (λ r. Perm r (n ∷ e ∷ q)) (sym later)
          (Perm.trans (Perm.cons e (eq_add-perm n q)) (Perm.swap _ _ _))
    | inr here ↦ subst (λ r. Perm r (n ∷ e ∷ q)) (sym here) (Perm.refl _)
  ]
