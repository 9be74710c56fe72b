-- ===== src/Base/Ascii.antt =====
-- Text as the list of its bytes (all of the program's literals are ASCII), and `to_string`.
use Prim.Native.Nat.{ℕ, zero, suc, ◌+◌, ◌/◌, ◌%◌}
use Prim.Native.Char.{code}
use Prim.Native.String.{String}
use mathlib.Core.List.{List, [], ◌∷◌, ◌++◌}
use simple_sdn.Base.Tests.{ltb, if◌then◌else◌}

abbrev pub Text : Type 0
Text = List ℕ

abbrev pub text : String → Text
text String.[] = []
text (String.◌∷◌ c s) = code c ∷ text s

-- The decimal digits of `n` before `acc`; `n + 1` rounds are enough.
unfoldable pub decimal : ℕ → ℕ → Text → Text
decimal zero n acc = acc
decimal (suc fuel) n acc =
    let more = decimal fuel (n / 10) ((48 + n % 10) ∷ acc) in
    if ltb n 10 then (48 + n % 10) ∷ acc else more

-- `to_string` of a number that is not negative.
unfoldable pub to_string : ℕ → Text
unfolding decimal
to_string n = decimal (suc n) n []

-- `inet_ntoa` of an address as it stands in memory: its four bytes, the lowest first.
unfoldable pub inet_ntoa : ℕ → Text
unfolding to_string
inet_ntoa a =
    to_string (a % 256)
    ++ text "."
    ++ to_string (a / 256 % 256)
    ++ text "."
    ++ to_string (a / 65536 % 256)
    ++ text "."
    ++ to_string (a / 16777216)
