-- ===== src/Base/Memory.antt =====
-- `memcpy` into a buffer, and what it leaves.
use Prim.Native.Nat.{ℕ, zero, suc, ◌+◌, ◌≤◌, ◌<◌}
use mathlib.Core.Path.{◌≡◌, refl, ap}
use mathlib.Core.List.{List, [], ◌∷◌}
use native.Mathlib.Omega.{arith}
use simple_sdn.Base.Lists.{length, take, drop}
use simple_sdn.Base.Words.{Buffer, load8}

-- `memcpy(b + offset, xs, length xs)`; bytes beyond the end of `b`, which the
-- program would write over its neighbours in memory, are left out.
unfoldable pub memcpy : Buffer → ℕ → List ℕ → Buffer
memcpy [] offset xs = []
memcpy (b ∷ bs) (suc offset) xs = b ∷ memcpy bs offset xs
memcpy (b ∷ bs) zero [] = b ∷ bs
memcpy (b ∷ bs) zero (x ∷ xs) = x ∷ memcpy bs zero xs

pub length-memcpy : (b : Buffer) (o : ℕ) (xs : List ℕ) → length (memcpy b o xs) ≡ length b
unfolding memcpy
length-memcpy [] o xs = refl
length-memcpy (b ∷ bs) (suc o) xs = ap suc (length-memcpy bs o xs)
length-memcpy (b ∷ bs) zero [] = refl
length-memcpy (b ∷ bs) zero (x ∷ xs) = ap suc (length-memcpy bs zero xs)

-- Inside the copied range stand the bytes copied.
pub load8-memcpy :
    (b : Buffer) (o i : ℕ) (xs : List ℕ)
    → o + length xs ≤ length b
    → i < length xs
    → load8 (memcpy b o xs) (o + i) ≡ load8 xs i
unfolding memcpy
load8-memcpy [] o i xs h k = absurd (omega arith)
load8-memcpy (b ∷ bs) (suc o) i xs h k =
    let e : suc o + i ≡ suc (o + i) = omega arith in rw e (load8-memcpy bs o i xs (omega arith) k)
load8-memcpy (b ∷ bs) zero i [] h k = absurd (omega arith)
load8-memcpy (b ∷ bs) zero zero (x ∷ xs) h k = refl
load8-memcpy (b ∷ bs) zero (suc i) (x ∷ xs) h k =
    let e : zero + suc i ≡ suc (zero + i) = omega arith in
    rw e (load8-memcpy bs zero i xs (omega arith) (omega arith))

-- Below the copied range nothing changes.
pub load8-memcpy_below :
    (b : Buffer) (o i : ℕ) (xs : List ℕ) → i < o → load8 (memcpy b o xs) i ≡ load8 b i
unfolding memcpy
load8-memcpy_below [] o i xs h = refl
load8-memcpy_below (b ∷ bs) zero i xs h = absurd (omega arith)
load8-memcpy_below (b ∷ bs) (suc o) zero xs h = refl
load8-memcpy_below (b ∷ bs) (suc o) (suc i) xs h = load8-memcpy_below bs o i xs (omega arith)

-- Reading back the copied range gives the bytes copied.
pub take-drop-memcpy :
    (b : Buffer) (o : ℕ) (xs : List ℕ)
    → o + length xs ≤ length b
    → take (length xs) (drop o (memcpy b o xs)) ≡ xs
unfolding memcpy
take-drop-memcpy [] o [] h = ground arith
take-drop-memcpy [] o (x ∷ xs) h = absurd (omega arith)
take-drop-memcpy (b ∷ bs) (suc o) xs h = take-drop-memcpy bs o xs (omega arith)
take-drop-memcpy (b ∷ bs) zero [] h = refl
take-drop-memcpy (b ∷ bs) zero (x ∷ xs) h = ap (◌∷◌ x) (take-drop-memcpy bs zero xs (omega arith))

pub take-drop-memcpy_of :
    (b : Buffer) (o n : ℕ) (xs : List ℕ)
    → length xs ≡ n
    → o + n ≤ length b
    → take n (drop o (memcpy b o xs)) ≡ xs
take-drop-memcpy_of b o n xs e h = rw (← e) (take-drop-memcpy b o xs (omega arith))

-- A copy of the whole length replaces all.
pub memcpy_whole : (b : Buffer) (xs : List ℕ) → length xs ≡ length b → memcpy b 0 xs ≡ xs
unfolding memcpy
memcpy_whole [] [] h = refl
memcpy_whole [] (x ∷ xs) h = absurd (omega arith)
memcpy_whole (b ∷ bs) [] h = absurd (omega arith)
memcpy_whole (b ∷ bs) (x ∷ xs) h = ap (◌∷◌ x) (memcpy_whole bs xs (omega arith))
