-- ===== src/StdMap/Sorted.antt =====
-- Iteration order: with a strict total order on the keys in use a map stays strictly sorted, so
-- a key stands in it once, and `erase` removes exactly that key.
use simple_sdn.Base.{true, ◌∷◌, [], none, if◌then◌else◌, ◌≡◌, ◌||◌, arith, Bool}
use simple_sdn.StdMap.{StdMap, find, assign, erase, skip_equal}
use simple_sdn.StdMap.Laws.{IsStrictOrder, Keys}

module _ {ℓ κ} {K : Type ℓ} {V : Type κ} (less : K → K → Bool) where
  -- The key `k` is less than every key of the map.
  abbrev pub Below : K → StdMap K V → Type 0
  Below k [] = Unit
  Below k ((j, v) ∷ m) = (less k j ≡ true) × Below k m

  abbrev pub IsSorted : StdMap K V → Type 0
  IsSorted [] = Unit
  IsSorted ((j, v) ∷ m) = Below j m × IsSorted m

module _ {ℓ κ μ} {K : Type ℓ} {V : Type κ} (less : K → K → Bool) (P : K → Type μ)
    (o : IsStrictOrder less P) where
  Below-mono :
      (i k : K) (m : StdMap K V)
      → P i
      → P k
      → Keys P m
      → less i k ≡ true
      → Below less k m
      → Below less i m
  Below-mono i k [] pi pk h lt b = tt
  Below-mono i k ((j, w) ∷ m) pi pk h lt b =
      (o.trans i k j pi pk h.0 lt b.0, Below-mono i k m pi pk h.1 lt b.1)

  Below-assign :
      (i k : K) (v : V) (m : StdMap K V)
      → less i k ≡ true
      → Below less i m
      → Below less i (assign less k v m)
  unfolding assign
  Below-assign i k v [] lt b = (lt, tt)
  Below-assign i k v ((j, w) ∷ m) lt b = ground (arith, Below-assign i k v m lt b.1)

  -- An assignment keeps the map sorted.
  pub assign-IsSorted :
      (k : K) (v : V) (m : StdMap K V)
      → P k
      → Keys P m
      → IsSorted less m
      → IsSorted less (assign less k v m)
  unfolding assign
  assign-IsSorted k v [] pk h s = (tt, tt)
  assign-IsSorted k v ((j, w) ∷ m) pk h s = ground (
    arith,
    assign-IsSorted k v m pk h.1 s.1,
    Below-assign j k v m,
    Below-mono k j m pk h.0 h.1,
    o.connected j k h.0 pk,
  )

  find_missing : (k : K) (m : StdMap K V) → P k → Keys P m → Below less k m → find less k m ≡ none
  unfolding find
  find_missing k [] pk h b = ground arith
  find_missing k ((j, w) ∷ m) pk h b =
      ground (arith, o.trans k j k pk h.0 pk, o.irrefl k pk, find_missing k m pk h.1 b.1)

  skip_nothing : (k : K) (m : StdMap K V) → Below less k m → skip_equal less k m ≡ m
  unfolding skip_equal
  skip_nothing k [] b = ground arith
  skip_nothing k ((j, w) ∷ m) b = ground arith

  -- After `erase` the key is gone and every other key finds what it found before.
  pub find-erase :
      (i k : K) (m : StdMap K V)
      → P i
      → P k
      → Keys P m
      → IsSorted less m
      → find less i (erase less k m) ≡ (if less i k || less k i then find less i m else none)
  unfolding find erase skip_equal
  find-erase i k [] pi pk h s = ground arith
  find-erase i k ((j, w) ∷ m) pi pk h s = ground (
    arith,
    find-erase i k m pi pk h.1 s.1,
    skip_nothing j m s.0,
    find_missing j m h.0 h.1 s.0,
    find_missing i m pi h.1,
    Below-mono i j m pi h.0 h.1,
    o.trans j k i h.0 pk pi,
    o.trans j i k h.0 pi pk,
    o.trans i j k pi h.0 pk,
    o.trans k j i pk h.0 pi,
    o.connected j k h.0 pk,
    o.connected i j pi h.0,
    o.connected i k pi pk,
    o.irrefl k pk,
    o.irrefl i pi,
    o.irrefl j h.0,
  )

module _ {ℓ κ} {K : Type ℓ} {V : Type κ} (less : K → K → Bool) where
  Below-skip_equal :
      (i k : K) (m : StdMap K V) → Below less i m → Below less i (skip_equal less k m)
  unfolding skip_equal
  Below-skip_equal i k [] b = tt
  Below-skip_equal i k ((j, w) ∷ m) b = ground (arith, Below-skip_equal i k m b.1)

  skip_equal-IsSorted :
      (k : K) (m : StdMap K V) → IsSorted less m → IsSorted less (skip_equal less k m)
  unfolding skip_equal
  skip_equal-IsSorted k [] s = tt
  skip_equal-IsSorted k ((j, w) ∷ m) s = ground (arith, skip_equal-IsSorted k m s.1)

  Below-erase : (i k : K) (m : StdMap K V) → Below less i m → Below less i (erase less k m)
  unfolding erase skip_equal
  Below-erase i k [] b = tt
  Below-erase i k ((j, w) ∷ m) b = ground (arith, Below-erase i k m b.1, Below-skip_equal i k m b.1)

  -- So does an erasure.
  pub erase-IsSorted : (k : K) (m : StdMap K V) → IsSorted less m → IsSorted less (erase less k m)
  unfolding erase skip_equal
  erase-IsSorted k [] s = tt
  erase-IsSorted k ((j, w) ∷ m) s =
      ground (arith, erase-IsSorted k m s.1, Below-erase j k m s.0, skip_equal-IsSorted k m s.1)

  Keys-skip_equal {μ} :
      (P : K → Type μ) (k : K) (m : StdMap K V) → Keys P m → Keys P (skip_equal less k m)
  unfolding skip_equal
  Keys-skip_equal P k [] s = tt
  Keys-skip_equal P k ((j, w) ∷ m) s = ground (arith, Keys-skip_equal P k m s.1)

  -- What holds of all keys does after an erasure.
  pub Keys-erase {μ} :
      (P : K → Type μ) (k : K) (m : StdMap K V) → Keys P m → Keys P (erase less k m)
  unfolding erase skip_equal
  Keys-erase P k [] s = tt
  Keys-erase P k ((j, w) ∷ m) s = ground (arith, Keys-erase P k m s.1, Keys-skip_equal P k m s.1)
