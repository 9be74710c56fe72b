-- ===== src/Packet/Checksum.antt =====
-- `checksum` of icmp_checksum.c: the one's complement sum of the 16-bit words as they stand in
-- memory. The sum is a `long` of at most 2^14 words, which does not overflow.
pub mod Verify
use simple_sdn.Base.{
  ℕ, zero, suc, ◌+◌, ◌-◌, ◌*◌, ◌/◌, ◌%◌, ◌≤◌, ◌<◌, ◌≡◌, ltb, if◌then◌else◌, Buffer, load8, load16,
  drop, arith,
}

-- `while (count > 1)` and the byte left over.
sum_loop : ℕ → Buffer → ℕ → ℕ
sum_loop zero b sum = sum
sum_loop (suc zero) b sum = sum + load8 b 0
sum_loop (suc (suc count)) b sum = sum_loop count (drop 2 b) (sum + load16 b 0)

-- `while (sum >> 16)`.
fold_loop : ℕ → ℕ → ℕ
fold_loop zero sum = sum
fold_loop (suc fuel) sum =
    let rest = fold_loop fuel (sum % 65536 + sum / 65536) in if ltb sum 65536 then sum else rest

-- `checksum(b, count)` for a count that is not negative. Each round of the second loop makes the
-- sum smaller, so that the sum is fuel enough.
unfoldable pub checksum : Buffer → ℕ → ℕ
unfolding sum_loop fold_loop
checksum b count = let sum = sum_loop count b 0 in 65535 - fold_loop sum sum

-- The value of a `short`, given by its bit pattern, as a byte count: no byte if it is negative.
unfoldable pub short_count : ℕ → ℕ
short_count w = if ltb (w % 65536) 32768 then w % 65536 else 0

fold_loop-lt : (fuel sum : ℕ) → sum ≤ fuel → fold_loop fuel sum < 65536
unfolding fold_loop
fold_loop-lt zero sum h = omega arith
fold_loop-lt (suc fuel) sum h = ground (arith, fold_loop-lt fuel (sum % 65536 + sum / 65536))

fold_loop-mod : (fuel sum : ℕ) → fold_loop fuel sum % 65535 ≡ sum % 65535
unfolding fold_loop
fold_loop-mod zero sum = omega arith
fold_loop-mod (suc fuel) sum = ground (arith, fold_loop-mod fuel (sum % 65536 + sum / 65536))

fold_loop-pos : (fuel sum : ℕ) → 0 < sum → 0 < fold_loop fuel sum
unfolding fold_loop
fold_loop-pos zero sum h = omega arith
fold_loop-pos (suc fuel) sum h = ground (arith, fold_loop-pos fuel (sum % 65536 + sum / 65536))

fold_loop-le : (fuel sum : ℕ) → fold_loop fuel sum ≤ sum
unfolding fold_loop
fold_loop-le zero sum = omega arith
fold_loop-le (suc fuel) sum = ground (arith, fold_loop-le fuel (sum % 65536 + sum / 65536))
