-- ===== src/Config/Parser/Rounds.antt =====
-- One round of the loop of `parser`, where a word is under way.
use simple_sdn.Base.{
  ℕ, suc, ◌+◌, ◌-◌, ◌≡◌, refl, true, false, ◌==◌, if◌then◌else◌, List, [], ◌∷◌, ◌++◌, Text, length,
  get_or, take, drop, arith, append-nil, length-append, ap,
}
use simple_sdn.Config.Parser.{is_word, Scan, see, word_at, emit}

abbrev pub closed : Text → List Text
closed [] = []
closed (c ∷ w) = (c ∷ w) ∷ []

-- The words of a line, with the word that is under way.
unfoldable pub split_words : Text → Text → List Text
split_words word [] = closed word
split_words word (c ∷ rest) =
    if c == b'#'
    then closed word
    else if is_word c
    then split_words (word ++ c ∷ []) rest
    else closed word ++ split_words [] rest

abbrev pub line_words : Text → List Text
line_words = split_words []

pub take_all : (w q : Text) → take (length w) (w ++ q) ≡ w
take_all [] q = refl
take_all (c ∷ w) q = ap (◌∷◌ c) (take_all w q)

pub drop_all : (p q : Text) → drop (length p) (p ++ q) ≡ q
drop_all [] q = refl
drop_all (c ∷ p) q = drop_all p q

pub get_or_all : (p q : Text) (c : ℕ) → get_or (p ++ c ∷ q) (length p) 0 ≡ c
get_or_all [] q c = refl
get_or_all (x ∷ p) q c = get_or_all p q c

-- The word between its head and its tail.
pub word_at_lem :
    (p w q : Text) (c : ℕ) (tail : ℕ)
    → tail ≡ length p + length w
    → word_at (p ++ ((c ∷ w) ++ q)) (length p) tail ≡ c ∷ w
unfolding word_at
word_at_lem p [] q c tail e = ground (arith, get_or_all p q c)
word_at_lem p (d ∷ w) q c tail e =
    let size : tail + 1 - length p ≡ suc (suc (length w)) = omega arith in
    let apart : (length p == tail) ≡ false = ground arith in
    rw (apart, drop_all p (c ∷ d ∷ (w ++ q)), size) (ap (λ t. c ∷ d ∷ t) (take_all w q))

-- The loop stands at `i`, behind `before` and `word`, and `word` is the word under way.
abbrev pub Stands : Text → Text → ℕ → Scan → Type 0
Stands before [] i s = (s.word_head_found ≡ false) × (i ≡ length before)
Stands before (c ∷ w) i s =
    (s.word_head_found ≡ true)
    × (s.word_head ≡ length before)
    × (s.word_tail ≡ length before + length w)
    × (i ≡ length before + length w + 1)

-- A character that is no word character puts the word under way out.
pub round_gap :
    (before word rest : Text) (c i : ℕ) (s : Scan)
    → Stands before word i s
    → is_word c ≡ false
    → let s' = emit (before ++ (word ++ c ∷ rest)) i (see c i s) in
      (s'.output ≡ s.output ++ closed word) × (s'.word_head_found ≡ false)
unfolding emit see
round_gap before [] rest c i s st h = ground (arith, append-nil s.output)
round_gap before (d ∷ w) rest c i s st h =
    ground (arith, word_at_lem before w (c ∷ rest) d s.word_tail st.2)

-- A word character at the end of the line ends its word there.
pub round_end :
    (before word : Text) (c i : ℕ) (s : Scan)
    → Stands before word i s
    → is_word c ≡ true
    → (emit (before ++ (word ++ c ∷ [])) i (see c i s)).output ≡ s.output ++ (word ++ c ∷ []) ∷ []
unfolding emit see
round_end before [] c i s st h =
    ground (arith, word_at_lem before [] [] c i, length-append before (c ∷ []))
round_end before (d ∷ w) c i s st h = ground (
  arith,
  word_at_lem before (w ++ c ∷ []) [] d i,
  append-nil (w ++ c ∷ []),
  length-append before (d ∷ (w ++ c ∷ [])),
  length-append w (c ∷ []),
)

-- Any other word character goes to the word under way.
pub round_word :
    (before word rest : Text) (c e i : ℕ) (s : Scan)
    → Stands before word i s
    → is_word c ≡ true
    → let s' = emit (before ++ (word ++ c ∷ e ∷ rest)) i (see c i s) in
      (s'.output ≡ s.output) × Stands before (word ++ c ∷ []) (i + 1) s'
unfolding emit see
round_word before [] rest c e i s st h = ground (arith, length-append before (c ∷ e ∷ rest))
round_word before (d ∷ w) rest c e i s st h = ground (
  arith,
  length-append before (d ∷ (w ++ c ∷ e ∷ rest)),
  length-append w (c ∷ e ∷ rest),
  length-append w (c ∷ []),
)

pub hash_no_word : (c : ℕ) → (c == b'#') ≡ true → is_word c ≡ false
unfolding is_word
hash_no_word c h = ground arith

-- A word under way ends with the line at the latest.
abbrev pub Open : Text → Text → Type 0
Open word [] = word ≡ []
Open word (c ∷ rest) = Unit

pub Open-nil : (rest : Text) → Open [] rest
Open-nil [] = refl
Open-nil (c ∷ rest) = tt

pub closed-snoc : (word : Text) (c : ℕ) → closed (word ++ c ∷ []) ≡ (word ++ c ∷ []) ∷ []
closed-snoc [] c = refl
closed-snoc (d ∷ w) c = refl

pub Stands-place :
    (before word : Text) (i : ℕ) (s : Scan)
    → Stands before word i s
    → i ≡ length before + length word
Stands-place before [] i s st = omega arith
Stands-place before (c ∷ w) i s st = omega arith
