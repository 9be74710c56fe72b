-- ===== src/Packet/Checksum/Verify.antt =====
-- A checksum written into its field makes the whole range sum to "all ones".
use simple_sdn.Base.{
  ℕ, zero, suc, ◌+◌, ◌%◌, ◌≤◌, ◌<◌, ◌≡◌, refl, ap, ◌∙◌, ◌<◌, ◌-◌, get_or-drop, [], ◌∷◌, Buffer,
  load8, load16, store16, drop, length, arith,
}
use simple_sdn.Packet.Checksum.{
  sum_loop, fold_loop, checksum, fold_loop-lt, fold_loop-mod, fold_loop-pos, fold_loop-le,
}

-- The words of a range, added without an accumulator.
unfoldable pub word_sum : ℕ → Buffer → ℕ
word_sum zero b = 0
word_sum (suc zero) b = load8 b 0
word_sum (suc (suc count)) b = load16 b 0 + word_sum count (drop 2 b)

sum_loop-eq-word_sum :
    (count : ℕ) (b : Buffer) (sum : ℕ) → sum_loop count b sum ≡ sum + word_sum count b
unfolding sum_loop word_sum
sum_loop-eq-word_sum zero b sum = omega arith
sum_loop-eq-word_sum (suc zero) b sum = refl
sum_loop-eq-word_sum (suc (suc count)) b sum =
    omega (arith, sum_loop-eq-word_sum count (drop 2 b) (sum + load16 b 0))

-- The checksum is below 2^16, and with the sum of the words it is a multiple of 65535.
pub checksum-mod :
    (b : Buffer) (count : ℕ)
    → (checksum b count ≤ 65535)
      × ((word_sum count b + checksum b count) % 65535 ≡ 0)
      × (0 < word_sum count b + checksum b count)
unfolding checksum
checksum-mod b count = (
  omega arith,
  omega (
    arith,
    sum_loop-eq-word_sum count b 0,
    fold_loop-lt (sum_loop count b 0) (sum_loop count b 0) (omega arith),
    fold_loop-mod (sum_loop count b 0) (sum_loop count b 0),
  ),
  omega (
    arith,
    sum_loop-eq-word_sum count b 0,
    fold_loop-le (sum_loop count b 0) (sum_loop count b 0),
  ),
)

-- Only a range whose words add up to a positive multiple of 65535 has the checksum 0.
pub checksum-eq_zero :
    (b : Buffer) (count : ℕ)
    → word_sum count b % 65535 ≡ 0
    → 0 < word_sum count b
    → checksum b count ≡ 0
unfolding checksum
checksum-eq_zero b count h pos = omega (
  arith,
  sum_loop-eq-word_sum count b 0,
  fold_loop-lt (sum_loop count b 0) (sum_loop count b 0) (omega arith),
  fold_loop-mod (sum_loop count b 0) (sum_loop count b 0),
  fold_loop-pos (sum_loop count b 0) (sum_loop count b 0),
)

abbrev pub IsEven : ℕ → Type 0
IsEven zero = Unit
IsEven (suc zero) = ⊥
IsEven (suc (suc n)) = IsEven n

-- A word stored at an even place of the range replaces the word that was there in the sum.
pub word_sum-store16 :
    (i count : ℕ) (b : Buffer) (v : ℕ)
    → IsEven i
    → suc i < count
    → suc i < length b
    → v < 65536
    → word_sum count (store16 b i v) + load16 b i ≡ word_sum count b + v
unfolding word_sum
word_sum-store16 zero (suc (suc count)) (x ∷ y ∷ b) v e h k r = omega arith
word_sum-store16 (suc (suc i)) (suc (suc count)) (x ∷ y ∷ b) v e h k r =
    omega (arith, word_sum-store16 i count b v e (omega arith) (omega arith) r)
word_sum-store16 i zero b v e h k r = absurd (omega arith)
word_sum-store16 i (suc zero) b v e h k r = absurd (omega arith)
word_sum-store16 i count [] v e h k r = absurd (omega arith)
word_sum-store16 i count (x ∷ []) v e h k r = absurd (omega arith)
word_sum-store16 (suc zero) count b v e h k r = absurd e

-- The checksum of a range with a zero field at an even place, stored in that field, makes the
-- checksum of the range 0: the receiver's test succeeds.
pub checksum_verifies :
    (b : Buffer) (i count : ℕ)
    → IsEven i
    → suc i < count
    → suc i < length b
    → load16 b i ≡ 0
    → checksum (store16 b i (checksum b count)) count ≡ 0
checksum_verifies b i count e h k z =
    let facts = checksum-mod b count in
    let stored = word_sum-store16 i count b (checksum b count) e h k (omega arith) in
    checksum-eq_zero (store16 b i (checksum b count)) count (omega arith) (omega arith)

-- A checksum of 0 in turn shows that the words add up to a multiple of 65535.
pub mod-of-checksum_zero :
    (b : Buffer) (count : ℕ) → checksum b count ≡ 0 → word_sum count b % 65535 ≡ 0
mod-of-checksum_zero b count h = omega (arith, checksum-mod b count)

-- The sum depends on the bytes of its range only.
sum_loop-agree :
    (count : ℕ) (b c : Buffer) (sum : ℕ)
    → ((i : ℕ) → i < count → load8 b i ≡ load8 c i)
    → sum_loop count b sum ≡ sum_loop count c sum
unfolding sum_loop
sum_loop-agree zero b c sum h = refl
sum_loop-agree (suc zero) b c sum h = ap (◌+◌ sum) (h 0 (omega arith))
sum_loop-agree (suc (suc count)) b c sum h =
    ap (λ w. sum_loop count (drop 2 b) (sum + w))
      (ground (arith, h 0 (omega arith), h 1 (omega arith)))
    ∙ sum_loop-agree count (drop 2 b) (drop 2 c) _
        (λ i k. ground (arith, get_or-drop 2 i b, get_or-drop 2 i c, h (2 + i) (omega arith)))

pub checksum-agree :
    (count : ℕ) (b c : Buffer)
    → ((i : ℕ) → i < count → load8 b i ≡ load8 c i)
    → checksum b count ≡ checksum c count
unfolding checksum
checksum-agree count b c h = ap (λ s. 65535 - fold_loop s s) (sum_loop-agree count b c 0 h)
