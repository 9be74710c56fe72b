-- ===== src/Base/Words.antt =====
-- Words in memory. The program runs on a little-endian machine: a 16-bit or 32-bit field is loaded
-- with its first byte lowest, and `htons`/`ntohs` exchange the two bytes of a 16-bit word.
use Prim.Native.Nat.{ℕ, suc, ◌+◌, ◌*◌, ◌/◌, ◌%◌, ◌<◌}
use mathlib.Core.Path.{◌≡◌}
use mathlib.Core.List.{List, [], ◌∷◌}
use native.Mathlib.Omega.{arith}
use simple_sdn.Base.Lists.{get_or, set}

-- A buffer of bytes. `char *buffer` is the list of the bytes from the pointer to the end of the
-- array that it points into.
abbrev pub Buffer : Type 0
Buffer = List ℕ

-- A byte beyond the array, where the program would read what lies behind it in memory, is 0.
abbrev pub load8 : Buffer → ℕ → ℕ
load8 b i = get_or b i 0

abbrev pub load16 : Buffer → ℕ → ℕ
load16 b i = load8 b i + 256 * load8 b (suc i)

abbrev pub load32 : Buffer → ℕ → ℕ
load32 b i = load16 b i + 65536 * load16 b (suc (suc i))

abbrev pub store8 : Buffer → ℕ → ℕ → Buffer
store8 b i v = set b i (v % 256)

abbrev pub store16 : Buffer → ℕ → ℕ → Buffer
store16 b i v = store8 (store8 b i v) (suc i) (v / 256)

abbrev pub store32 : Buffer → ℕ → ℕ → Buffer
store32 b i v = store16 (store16 b i v) (suc (suc i)) (v / 65536)

-- `htons` and `ntohs`.
unfoldable pub htons : ℕ → ℕ
htons v = v % 256 * 256 + v / 256 % 256

-- `htonl`.
unfoldable pub htonl : ℕ → ℕ
htonl v = v % 256 * 16777216 + v / 256 % 256 * 65536 + v / 65536 % 256 * 256 + v / 16777216 % 256

pub htons_involutive : (v : ℕ) → v < 65536 → htons (htons v) ≡ v
unfolding htons
htons_involutive v h = omega arith

pub htons-lt : (v : ℕ) → htons v < 65536
unfolding htons
htons-lt v = omega arith

-- The bytes of a word, in memory order.
abbrev pub bytes16 : ℕ → List ℕ
bytes16 v = (v % 256) ∷ (v / 256 % 256) ∷ []

abbrev pub bytes32 : ℕ → List ℕ
bytes32 v = (v % 256) ∷ (v / 256 % 256) ∷ (v / 65536 % 256) ∷ (v / 16777216 % 256) ∷ []
