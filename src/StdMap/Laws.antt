-- ===== src/StdMap/Laws.antt =====
-- What a map does where `operator<` is a strict total order on the keys in use.
use simple_sdn.Base.{
  Bool, true, false, [], ◌∷◌, some, if◌then◌else◌, ◌≡◌, ◌||◌, arith, Bool-cases, inl, inr,
}
use simple_sdn.StdMap.{StdMap, find, assign}

-- `less` is a strict total order on the keys that satisfy `P`.
pub record IsStrictOrder {ℓ κ} {K : Type ℓ} (less : K → K → Bool) (P : K → Type κ)
    : Type (ℓ ⊔ κ) where
  pub irrefl : (a : K) → P a → less a a ≡ false
  pub trans : (a b c : K) → P a → P b → P c → less a b ≡ true → less b c ≡ true → less a c ≡ true
  pub connected : (a b : K) → P a → P b → less a b ≡ false → less b a ≡ false → a ≡ b

module _ {ℓ κ} {K : Type ℓ} {V : Type κ} where
  abbrev pub Keys {μ} : (K → Type μ) → StdMap K V → Type μ
  Keys P [] = Unit
  Keys P ((j, v) ∷ m) = P j × Keys P m

module _ {ℓ κ} {K : Type ℓ} {V : Type κ} (less : K → K → Bool) where
  -- An assigned value is found under its key, whatever the order does elsewhere.
  pub find-assign_self :
      (k : K) (v : V) (m : StdMap K V)
      → less k k ≡ false
      → (j : K) × (find less k (assign less k v m) ≡ some (j, v))
  unfolding find assign
  find-assign_self k v [] h = (k, rw h)
  find-assign_self k v ((j, w) ∷ m) h = elim (Bool-cases (less j k)) [
    | inl below ↦ let (i, e) = find-assign_self k v m h in (i, ground arith)
    | inr above ↦ elim (Bool-cases (less k j)) [
      | inl below ↦ (k, ground arith)
      | inr same ↦ (j, ground arith)
    ]
  ]

module _ {ℓ κ μ} {K : Type ℓ} {V : Type κ} (less : K → K → Bool) (P : K → Type μ)
    (o : IsStrictOrder less P) where
  pub Keys-assign : (k : K) (v : V) (m : StdMap K V) → P k → Keys P m → Keys P (assign less k v m)
  unfolding assign
  Keys-assign k v [] p h = (p, tt)
  Keys-assign k v ((j, w) ∷ m) p h = ground (arith, Keys-assign k v m p h.1)

  -- The value that `find` returns after an assignment: the new one under its own key, and what
  -- was there under every other key.
  pub find-assign :
      (i k : K) (v : V) (m : StdMap K V)
      → P i
      → P k
      → Keys P m
      → find less i (assign less k v m)
        ≡ (if less i k || less k i then find less i m else some (k, v))
  unfolding find assign
  find-assign i k v [] pi pk h = ground arith
  find-assign i k v ((j, w) ∷ m) pi pk h = ground (
    arith,
    find-assign i k v m pi pk h.1,
    o.trans j k i h.0 pk pi,
    o.trans i j k pi h.0 pk,
    o.trans k j i pk h.0 pi,
    o.trans j i k h.0 pi pk,
    o.trans k i j pk pi h.0,
    o.trans i k j pi pk h.0,
    o.connected j k h.0 pk,
    o.connected i j pi h.0,
    o.connected i k pi pk,
    o.irrefl k pk,
    o.irrefl i pi,
    o.irrefl j h.0,
  )
