-- ===== src/Base/WordUpdates.antt =====
-- Words read back after words written.
use Prim.Native.Nat.{ℕ, suc, ◌+◌, ◌/◌, ◌%◌, ◌<◌}
use mathlib.Core.Path.{◌≡◌, ◌∙◌, ap}
use mathlib.Core.Logic.{◌⊎◌}
use native.Mathlib.Omega.{arith}
use simple_sdn.Base.Lists.{length, length-set, drop}
use simple_sdn.Base.Updates.{get_or-set, drop-set_above}
use simple_sdn.Base.Words.{Buffer, load8, load32, store8, store16, store32}

ruleset reads = (get_or-set, length-set)

pub load32-lt : (b : Buffer) (i : ℕ) → ((k : ℕ) → load8 b k < 256) → load32 b i < 4294967296
load32-lt b i h = omega (arith, h i, h (suc i), h (suc (suc i)), h (suc (suc (suc i))))

pub load8-store32 :
    (b : Buffer) (i j v : ℕ) → (j < i) ⊎ (i + 3 < j) → load8 (store32 b i v) j ≡ load8 b j
load8-store32 b i j v h = simp reads (ground arith)

pub load32-store32 :
    (b : Buffer) (i v : ℕ) → i + 3 < length b → v < 4294967296 → load32 (store32 b i v) i ≡ v
load32-store32 b i v h r = simp reads (ground arith)

pub load32-store32_other :
    (b : Buffer) (i j v : ℕ) → (j + 3 < i) ⊎ (i + 3 < j) → load32 (store32 b i v) j ≡ load32 b j
load32-store32_other b i j v h = simp reads (ground arith)

-- Behind a pointer a write is a write at the offset from it.
pub drop-store16 : (n i v : ℕ) (b : Buffer) → drop n (store16 b (n + i) v) ≡ store16 (drop n b) i v
drop-store16 n i v b =
    let next : suc (n + i) ≡ n + suc i = omega arith in
    rw next (
      drop-set_above n (suc i) (store8 b (n + i) v) (v / 256 % 256)
      ∙ ap (λ (t : Buffer). store8 t (suc i) (v / 256)) (drop-set_above n i b (v % 256)))
