-- ===== src/StdMap/Tree.antt =====
-- `std::map` as a binary search tree: `find` goes down from the root to the lower bound of the key.
use simple_sdn.Base.{
  Bool, true, if◌then◌else◌, [], ◌∷◌, ◌++◌, Option, none, some, ◌≡◌, refl, sym, ◌∙◌, ap, arith,
  Bool-cases, inl, inr,
}
use simple_sdn.StdMap.{StdMap, find}
use simple_sdn.StdMap.Laws.{IsStrictOrder, Keys}
use simple_sdn.StdMap.Sorted.{IsSorted, Below}

pub data Tree {ℓ κ} (K : Type ℓ) (V : Type κ) : Type (ℓ ⊔ κ) where
  leaf : Tree K V
  node : Tree K V → K → V → Tree K V → Tree K V

module _ {ℓ κ} {K : Type ℓ} {V : Type κ} where
  -- The pairs in the order of iteration.
  unfoldable pub in_order : Tree K V → StdMap K V
  in_order leaf = []
  in_order (node l j v r) = in_order l ++ (j, v) ∷ in_order r

  module _ (less : K → K → Bool) where
    -- `lower_bound`: the last node on the way down that is not less than the key.
    unfoldable pub lower_bound : K → Tree K V → Option (K × V) → Option (K × V)
    lower_bound k leaf found = found
    lower_bound k (node l j v r) found =
        let left = lower_bound k l (some (j, v)) in
        let right = lower_bound k r found in if less j k then right else left

    -- The lower bound, unless the key is less than it.
    abbrev pub not_above : K → Option (K × V) → Option (K × V)
    not_above k none = none
    not_above k (some (j, v)) = if less k j then none else some (j, v)

    unfoldable pub tree_find : K → Tree K V → Option (K × V)
    unfolding lower_bound
    tree_find k t = not_above k (lower_bound k t none)

    -- The first pair that is not less than the key.
    first_above : K → StdMap K V → Option (K × V) → Option (K × V)
    first_above k [] found = found
    first_above k ((j, v) ∷ m) found =
        let rest = first_above k m found in if less j k then rest else some (j, v)

    find-first_above : (k : K) (m : StdMap K V) → find less k m ≡ not_above k (first_above k m none)
    unfolding find first_above
    find-first_above k [] = refl
    find-first_above k ((j, v) ∷ m) = elim (Bool-cases (less j k)) [
      | inl below ↦ ground (arith, find-first_above k m)
      | inr above ↦ ground arith
    ]

    first_above-append :
        (k : K) (m n : StdMap K V) (found : Option (K × V))
        → first_above k (m ++ n) found ≡ first_above k m (first_above k n found)
    unfolding first_above
    first_above-append k [] n found = refl
    first_above-append k ((j, v) ∷ m) n found =
        ap (λ x. if less j k then x else some (j, v)) (first_above-append k m n found)

    -- Every key of the map is less than `k`.
    abbrev Under : K → StdMap K V → Type 0
    Under k [] = Unit
    Under k ((i, w) ∷ m) = (less i k ≡ true) × Under k m

    Below-parts :
        (i j : K) (v : V) (m n : StdMap K V)
        → Below less i (m ++ (j, v) ∷ n)
        → (less i j ≡ true) × Below less i m
    Below-parts i j v [] n b = (b.0, tt)
    Below-parts i j v ((k, w) ∷ m) n b =
        let (lt, rest) = Below-parts i j v m n b.1 in (lt, (b.0, rest))

    IsSorted-parts :
        (j : K) (v : V) (m n : StdMap K V)
        → IsSorted less (m ++ (j, v) ∷ n)
        → Under j m × IsSorted less m × IsSorted less n
    IsSorted-parts j v [] n s = (tt, tt, s.1)
    IsSorted-parts j v ((i, w) ∷ m) n s =
        let (lt, below) = Below-parts i j v m n s.0 in
        let (under, before, after) = IsSorted-parts j v m n s.1 in
        ((lt, under), (below, before), after)

  Keys-parts {μ} :
      (P : K → Type μ) (j : K) (v : V) (m n : StdMap K V)
      → Keys P (m ++ (j, v) ∷ n)
      → Keys P m × P j × Keys P n
  Keys-parts P j v [] n h = (tt, h.0, h.1)
  Keys-parts P j v ((i, w) ∷ m) n h =
      let (before, at, after) = Keys-parts P j v m n h.1 in ((h.0, before), at, after)

module _ {ℓ κ μ} {K : Type ℓ} {V : Type κ} (less : K → K → Bool) (P : K → Type μ)
    (o : IsStrictOrder less P) where
  -- The keys below a key that is less than `k` are skipped.
  first_above-skip :
      (k j : K) (m : StdMap K V) (found : Option (K × V))
      → P k
      → P j
      → Keys P m
      → less j k ≡ true
      → Under less j m
      → first_above less k m found ≡ found
  unfolding first_above
  first_above-skip k j [] found pk pj h lt u = refl
  first_above-skip k j ((i, w) ∷ m) found pk pj h lt u =
      let below = o.trans i j k h.0 pj pk u.0 lt in
      rw below (first_above-skip k j m found pk pj h.1 lt u.1)

  lower_bound-first_above :
      (k : K) (t : Tree K V) (found : Option (K × V))
      → P k
      → Keys P (in_order t)
      → IsSorted less (in_order t)
      → lower_bound less k t found ≡ first_above less k (in_order t) found
  unfolding lower_bound in_order first_above
  lower_bound-first_above k leaf found pk h s = refl
  lower_bound-first_above k (node l j v r) found pk h s =
      let (before, pj, after) = Keys-parts P j v (in_order l) (in_order r) h in
      let (under, sl, sr) = IsSorted-parts less j v (in_order l) (in_order r) s in
      let joined = first_above-append less k (in_order l) ((j, v) ∷ in_order r) found in
      elim (Bool-cases (less j k)) [
        | inl below ↦
            let skip =
              first_above-skip k j (in_order l) (first_above less k (in_order r) found) pk pj before
                below under in
            let right = lower_bound-first_above k r found pk after sr in
            rw joined (rw below (right ∙ sym skip))
        | inr above ↦
            let left = lower_bound-first_above k l (some (j, v)) pk before sl in
            rw joined (rw above left)
      ]

  -- In a tree whose keys are sorted, `operator<` being a strict order on them and on the key, the
  -- search of `std::map` finds what the search in the order of iteration finds.
  pub tree_find-in_order :
      (k : K) (t : Tree K V)
      → P k
      → Keys P (in_order t)
      → IsSorted less (in_order t)
      → tree_find less k t ≡ find less k (in_order t)
  unfolding tree_find
  tree_find-in_order k t pk h s =
      ap (not_above less k) (lower_bound-first_above k t none pk h s)
      ∙ sym (find-first_above less k (in_order t))
