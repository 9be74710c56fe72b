-- ===== src/Config/Parser.antt =====
-- `cRouter::parser`: the words of one line.
pub mod Rounds
pub mod Words
use simple_sdn.Base.{
  ℕ, suc, ◌+◌, ◌-◌, Bool, true, false, ◌&&◌, ◌||◌, ◌==◌, ◌/=◌, leb, if◌then◌else◌, List, [], ◌∷◌,
  ◌++◌, Text, length, get_or, take, drop,
}

-- Letters, digits and the underscore.
unfoldable pub is_word : ℕ → Bool
is_word c =
    (leb b'A' c && leb c b'Z')
    || (leb b'a' c && leb c b'z')
    || (leb b'0' c && leb c b'9')
    || c == b'_'

-- The local variables of the loop.
pub record Scan : Type 0 where
  pub word_head_found : Bool
  pub word_head : ℕ
  pub word_tail : ℕ
  pub output : List Text
  pub count : ℕ

-- The chain of tests on `target[i]`: only a word character moves the head or the tail. Blanks and
-- the `#` are none.
unfoldable pub see : ℕ → ℕ → Scan → Scan
see c i s =
    if is_word c
    then if s.word_head_found
      then record s { word_tail = i }
      else record s { word_head_found = true; word_head = i; word_tail = i }
    else s

-- The word that is put out: one character, or the range from head to tail.
unfoldable pub word_at : Text → ℕ → ℕ → Text
word_at target head tail =
    if head == tail then get_or target head 0 ∷ [] else take (tail + 1 - head) (drop head target)

unfoldable pub emit : Text → ℕ → Scan → Scan
emit target i s =
    if s.word_head_found && (i /= s.word_tail || i == length target - 1)
    then record s {
      word_head_found = false;
      output = s.output ++ word_at target s.word_head s.word_tail ∷ [];
      count = s.count + 1;
    }
    else s

-- The loop from index `i` on, with the characters that are left; a `#` ends it.
unfoldable pub scan : Text → Text → ℕ → Scan → Scan
scan target [] i s = s
scan target (c ∷ rest) i s =
    let s' = emit target i (see c i s) in
    let more = scan target rest (i + 1) s' in if c == b'#' then s' else more

abbrev pub scan_start : Scan
scan_start = record {
  word_head_found = false;
  word_head = 0;
  word_tail = 0;
  output = [];
  count = 0;
}

-- `parser(target, output)` with an empty `output`: the number of words and the words.
unfoldable pub parser : Text → ℕ × List Text
parser target = let s = scan target target 0 scan_start in (s.count, s.output)
