-- ===== src/StdMap.antt =====
-- `std::map<K, V>` with the element type's `operator<`: the sequence of its pairs in iteration
-- order. `find` returns the element at the lower bound of the key unless the key is less than it,
-- `assign` is `m[k] = v` and `erase` is `m.erase(k)`. Only calls of `operator<` decide.
-- The search in the order of iteration stands for that of a tree (StdMap/Tree) where `operator<` is a
-- strict order on the keys in use. Where it is not, as between `octane_control`s and between flow
-- entries of both kinds, the standard leaves `std::map` undefined, a tree's answer depends on its
-- shape, and the functions below are one of the answers.
pub mod Tree
pub mod Laws
pub mod Sorted
pub mod Values
use simple_sdn.Base.{Bool, List, [], ◌∷◌, Option, none, some, if◌then◌else◌}

abbrev pub StdMap {ℓ κ} : Type ℓ → Type κ → Type (ℓ ⊔ κ)
StdMap K V = List (K × V)

module _ {ℓ κ} {K : Type ℓ} {V : Type κ} (less : K → K → Bool) where
  -- `none` is `end()`.
  unfoldable pub find : K → StdMap K V → Option (K × V)
  find k [] = none
  find k ((j, v) ∷ m) = if less j k then find k m else if less k j then none else some (j, v)

  -- A key that is there stays as it is, and its value is replaced.
  unfoldable pub assign : K → V → StdMap K V → StdMap K V
  assign k v [] = (k, v) ∷ []
  assign k v ((j, w) ∷ m) =
      if less j k
      then (j, w) ∷ assign k v m
      else if less k j
      then (k, v) ∷ (j, w) ∷ m
      else (j, v) ∷ m

  -- The elements from the lower bound on that the key is not less than.
  skip_equal : K → StdMap K V → StdMap K V
  skip_equal k [] = []
  skip_equal k ((j, w) ∷ m) = if less k j then (j, w) ∷ m else skip_equal k m

  unfoldable pub erase : K → StdMap K V → StdMap K V
  unfolding skip_equal
  erase k [] = []
  erase k ((j, w) ∷ m) = if less j k then (j, w) ∷ erase k m else skip_equal k ((j, w) ∷ m)
