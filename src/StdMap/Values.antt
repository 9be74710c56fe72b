-- ===== src/StdMap/Values.antt =====
-- What holds for all values of a `std::map`, whatever its order does.
use simple_sdn.Base.{Bool, false, [], ◌∷◌, some, ◌≡◌, arith}
use simple_sdn.StdMap.{StdMap, find, assign, erase, skip_equal}

unfoldable pub Values : {K V : Type 0} → (V → Type 0) → StdMap K V → Type 0
Values P [] = Unit
Values P ((j, v) ∷ m) = P v × Values P m

module _ {K V : Type 0} (less : K → K → Bool) (P : V → Type 0) where
  pub Values-find :
      (k j : K) (v : V) (m : StdMap K V) → Values P m → find less k m ≡ some (j, v) → P v
  unfolding Values find
  Values-find k j v [] h f = absurd (ground arith)
  Values-find k j v ((i, w) ∷ m) h f = ground (arith, h.0, Values-find k j v m h.1)

  pub Values-assign :
      (k : K) (v : V) (m : StdMap K V) → P v → Values P m → Values P (assign less k v m)
  unfolding Values assign
  Values-assign k v [] p h = (p, tt)
  Values-assign k v ((j, w) ∷ m) p h = ground (arith, Values-assign k v m p h.1)

  Values-skip_equal : (k : K) (m : StdMap K V) → Values P m → Values P (skip_equal less k m)
  unfolding Values skip_equal
  Values-skip_equal k [] h = tt
  Values-skip_equal k ((j, w) ∷ m) h = ground (arith, Values-skip_equal k m h.1)

  -- An assignment and the erasure of the same key leave a part of the values.
  pub Values-erase-assign :
      (k : K) (v : V) (m : StdMap K V)
      → less k k ≡ false
      → Values P m
      → Values P (erase less k (assign less k v m))
  unfolding Values erase assign skip_equal
  Values-erase-assign k v [] i h = ground arith
  Values-erase-assign k v ((j, w) ∷ m) i h =
      ground (arith, Values-erase-assign k v m i h.1, Values-skip_equal k m h.1)
