-- ===== src/Base/Updates.antt =====
-- Reads after writes, in the form that `simp` and `ground` take.
use Prim.Native.Nat.{ℕ, zero, suc, ◌+◌, ◌≤◌, ◌<◌}
use mathlib.Core.Path.{◌≡◌, refl}
use mathlib.Core.Bool.{◌&&◌}
use mathlib.Core.List.{List, [], ◌∷◌}
use native.Mathlib.Omega.{arith}
use simple_sdn.Base.Tests.{ltb, ◌==◌, if◌then◌else◌}
use simple_sdn.Base.Lists.{length, get_or, set, drop}

module _ {ℓ} {A : Type ℓ} where
  -- A read after a write; a write beyond the end is no write.
  pub get_or-set :
      (b : List A) (i j : ℕ) (v d : A)
      → get_or (set b i v) j d ≡ (if (i == j) && ltb i (length b) then v else get_or b j d)
  get_or-set [] i j v d = ground arith
  get_or-set (x ∷ b) zero zero v d = ground arith
  get_or-set (x ∷ b) zero (suc j) v d = ground arith
  get_or-set (x ∷ b) (suc i) zero v d = ground arith
  get_or-set (x ∷ b) (suc i) (suc j) v d = ground (arith, get_or-set b i j v d)

  pub drop-set_above :
      (n i : ℕ) (b : List A) (v : A) → drop n (set b (n + i) v) ≡ set (drop n b) i v
  drop-set_above zero i b v = let e : 0 + i ≡ i = omega arith in rw e
  drop-set_above (suc n) i [] v = refl
  drop-set_above (suc n) i (x ∷ b) v =
      let e : suc n + i ≡ suc (n + i) = omega arith in rw e (drop-set_above n i b v)

  pub drop-set_below : (n i : ℕ) (b : List A) (v : A) → i < n → drop n (set b i v) ≡ drop n b
  drop-set_below zero i b v h = absurd (omega arith)
  drop-set_below (suc n) i [] v h = refl
  drop-set_below (suc n) zero (x ∷ b) v h = refl
  drop-set_below (suc n) (suc i) (x ∷ b) v h = drop-set_below n i b v (omega arith)

  pub get_or-drop : (n i : ℕ) (b : List A) (d : A) → get_or (drop n b) i d ≡ get_or b (n + i) d
  get_or-drop zero i b d = let e : 0 + i ≡ i = omega arith in rw e
  get_or-drop (suc n) i [] d = refl
  get_or-drop (suc n) i (x ∷ b) d =
      let e : suc n + i ≡ suc (n + i) = omega arith in rw e (get_or-drop n i b d)

  pub length-drop_add : (n : ℕ) (b : List A) → n ≤ length b → n + length (drop n b) ≡ length b
  length-drop_add zero b h = omega arith
  length-drop_add (suc n) [] h = absurd (omega arith)
  length-drop_add (suc n) (x ∷ b) h = omega (arith, length-drop_add n b)
