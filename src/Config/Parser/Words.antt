-- ===== src/Config/Parser/Words.antt =====
-- `parser` returns the maximal runs of word characters before the first `#`.
use simple_sdn.Base.{
  ℕ, ◌+◌, ◌≡◌, refl, true, false, ◌==◌, [], ◌∷◌, ◌++◌, Text, length, arith, append_assoc,
  append-nil, length-append, inl, inr, Bool-cases, ap, ◌∙◌, sym,
}
use simple_sdn.Config.Parser.{is_word, Scan, see, word_at, emit, scan, scan_start, parser}
use simple_sdn.Config.Parser.Rounds.{
  closed, split_words, line_words, Stands, round_gap, round_end, round_word, hash_no_word, Open,
  Open-nil, closed-snoc, Stands-place,
}

-- A round of the loop that goes on with `later`.
module _ (target before word : Text) (c : ℕ) (rest : Text) (i : ℕ) (s : Scan)
    (e : target ≡ before ++ (word ++ c ∷ rest)) (st : Stands before word i s)
    (no_hash : (c == b'#') ≡ false) where
  abbrev next_scan : Scan
  next_scan = emit target i (see c i s)

  after_gap :
      is_word c ≡ false
      → (Stands (before ++ (word ++ c ∷ [])) [] (i + 1) next_scan
          → (scan target rest (i + 1) next_scan).output ≡ next_scan.output ++ split_words [] rest)
      → (scan target (c ∷ rest) i s).output ≡ s.output ++ split_words word (c ∷ rest)
  unfolding scan split_words
  after_gap no_word later =
      let (out, idle) = round_gap before word rest c i s st no_word in
      let place = Stands-place before word i s st in
      let size = length-append before (word ++ c ∷ []) in
      let size' = length-append word (c ∷ []) in
      rw (no_hash, no_word)
        (later (rw e idle, omega arith)
          ∙ ap (λ t. t ++ split_words [] rest) (rw e out)
          ∙ append_assoc s.output (closed word) (split_words [] rest))

  after_word :
      is_word c ≡ true
      → (scan target rest (i + 1) next_scan).output ≡ s.output ++ split_words (word ++ c ∷ []) rest
      → (scan target (c ∷ rest) i s).output ≡ s.output ++ split_words word (c ∷ rest)
  unfolding scan split_words
  after_word in_word later = rw (no_hash, in_word) later

shift :
    (before word rest : Text) (c : ℕ)
    → before ++ (word ++ c ∷ rest) ≡ before ++ ((word ++ c ∷ []) ++ rest)
shift before word rest c = ap (λ t. before ++ t) (sym (append_assoc word (c ∷ []) rest))

-- What the rest of the loop adds to the words.
abbrev Claim : Text → Text → Type 0
Claim target rest =
    (before word : Text) (i : ℕ) (s : Scan)
    → target ≡ before ++ (word ++ rest)
    → Stands before word i s
    → Open word rest
    → (scan target rest i s).output ≡ s.output ++ split_words word rest

at_hash :
    (target before word : Text) (c : ℕ) (rest : Text) (i : ℕ) (s : Scan)
    → target ≡ before ++ (word ++ c ∷ rest)
    → Stands before word i s
    → (c == b'#') ≡ true
    → (scan target (c ∷ rest) i s).output ≡ s.output ++ split_words word (c ∷ rest)
unfolding scan split_words
at_hash target before word c rest i s e st hash =
    rw (hash, e) (round_gap before word rest c i s st (hash_no_word c hash)).0

word_case :
    (target before word : Text) (c : ℕ) (rest : Text) (i : ℕ) (s : Scan)
    → Claim target rest
    → target ≡ before ++ (word ++ c ∷ rest)
    → Stands before word i s
    → is_word c ≡ true
    → (scan target rest (i + 1) (emit target i (see c i s))).output
      ≡ s.output ++ split_words (word ++ c ∷ []) rest
unfolding scan split_words
word_case target before word c [] i s ih e st h =
    rw (closed-snoc word c, e) (round_end before word c i s st h)
word_case target before word c (d ∷ rest) i s ih e st h =
    let (out, stands) = round_word before word rest c d i s st h in
    ih before (word ++ c ∷ []) (i + 1) (emit target i (see c i s))
      (e ∙ shift before word (d ∷ rest) c) (rw e stands) tt
    ∙ ap (λ t. t ++ split_words (word ++ c ∷ []) (d ∷ rest)) (rw e out)

scan_step : (target : Text) (c : ℕ) (rest : Text) → Claim target rest → Claim target (c ∷ rest)
scan_step target c rest ih before word i s e st o = elim (Bool-cases (c == b'#')) [
  | inl hash ↦ at_hash target before word c rest i s e st hash
  | inr other ↦ elim (Bool-cases (is_word c)) [
    | inl in_word ↦
        after_word target before word c rest i s e st other in_word
          (word_case target before word c rest i s ih e st in_word)
    | inr no_word ↦ after_gap target before word c rest i s e st other no_word (λ idle.
        ih (before ++ (word ++ c ∷ [])) [] (i + 1) (emit target i (see c i s))
          (e ∙ shift before word rest c ∙ sym (append_assoc before (word ++ c ∷ []) rest)) idle
          (Open-nil rest))
  ]
]

scan_lem : (target rest : Text) → Claim target rest
unfolding scan split_words
scan_lem target [] before word i s e st o = rw o (sym (append-nil s.output))
scan_lem target (c ∷ rest) before word i s e st o =
    scan_step target c rest (scan_lem target rest) before word i s e st o

see_lem : (c i : ℕ) (s : Scan) → ((see c i s).count ≡ s.count) × ((see c i s).output ≡ s.output)
unfolding see
see_lem c i s = ground arith

emit-count :
    (target : Text) (i : ℕ) (s : Scan)
    → (emit target i s).count + length s.output ≡ length (emit target i s).output + s.count
unfolding emit
emit-count target i s =
    ground (arith, length-append s.output (word_at target s.word_head s.word_tail ∷ []))

scan-count :
    (target rest : Text) (i : ℕ) (s : Scan)
    → (scan target rest i s).count + length s.output
      ≡ length (scan target rest i s).output + s.count
unfolding scan
scan-count target [] i s = omega arith
scan-count target (c ∷ rest) i s = ground (
  arith,
  see_lem c i s,
  emit-count target i (see c i s),
  ap length (see_lem c i s).1,
  scan-count target rest (i + 1) (emit target i (see c i s)),
)

-- `parser` puts out the maximal runs of word characters before the first `#`, and returns how
-- many there are.
pub parser-line_words : (line : Text) → parser line ≡ (length (line_words line), line_words line)
unfolding parser
parser-line_words line =
    let all : (scan line line 0 scan_start).output ≡ line_words line =
      scan_lem line line [] [] 0 scan_start refl (refl, refl) (Open-nil line) in
    ground (arith, all, ap length all, scan-count line line 0 scan_start)
