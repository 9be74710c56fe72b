-- ===== src/Config/Stages.antt =====
-- `cRouter::stageEngine`, `nextConfig` and `stageToCase`, and the loop of `main` around them.
pub mod Progress
pub mod Runs
pub mod Digits
use simple_sdn.Base.{
  ℕ, zero, suc, ◌+◌, ◌-◌, ◌*◌, Bool, true, false, ◌&&◌, ◌==◌, ltb, leb, if◌then◌else◌, List, [],
  ◌∷◌, Text, Option, none, some, length, get_elem?,
}

-- The members of `cRouter` that the engine uses. `drop_after` is `m_iDropAfter`.
pub record Engine : Type 0 where
  pub entries : List Text
  pub config_reg : ℕ
  pub stage : ℕ
  pub route_num : ℕ
  pub drop_after : ℕ

-- The digits at the front of a word, read after the number `n`.
unfoldable pub digits_value : ℕ → Text → ℕ
digits_value n [] = n
digits_value n (c ∷ t) =
    let more = digits_value (n * 10 + (c - 48)) t in if leb 48 c && leb c 57 then more else n

-- `stoi` on a word of letters, digits and underscores: `none` is an exception, for a word that
-- does not begin with a digit or a number that an `int` does not hold.
unfoldable pub stoi : Text → Option ℕ
unfolding digits_value
stoi [] = none
stoi (c ∷ t) =
    if leb 48 c && leb c 57
    then if ltb 2147483647 (digits_value 0 (c ∷ t)) then none else some (digits_value 0 (c ∷ t))
    else none

-- `nextConfig`: the number of the entry, from 1, or 0 when no entry is left.
unfoldable pub next_config : Engine → ℕ × Engine
next_config e =
    if ltb (length e.entries) e.config_reg
    then (0, e)
    else (e.config_reg, record e { config_reg = e.config_reg + 1 })

-- `stoi(vConfig[nextConfig() - 1])`: `none` is an exception or the read of `vConfig[-1]`.
unfoldable pub next_number : Engine → Option (ℕ × Engine)
next_number e =
    let (n, e') = next_config e in
    if n == 0 then none else elim (get_elem? e.entries (n - 1)) [
      | none ↦ none
      | some w ↦ elim (stoi w) [ none ↦ none | some v ↦ some (v, e') ]
    ]

pub data StageCase : Type 0 where
  plain with_drop unknown : StageCase

-- `stageToCase`: 0, 1 and -1.
unfoldable pub stage_to_case : ℕ → StageCase
stage_to_case stage =
    if leb stage 3 then plain else if ltb 3 stage && leb stage 10 then with_drop else unknown

pub data Outcome : Type 0 where
  stopped : Engine → Outcome
  running : Engine → Outcome
  fault : Outcome

infixl 5 ◌>>=◌
abbrev pub ◌>>=◌ : Option (ℕ × Engine) → (ℕ × Engine → Outcome) → Outcome
none >>= f = fault
some r >>= f = f r

-- The entries behind the stage, by its case.
unfoldable pub stage_entries : StageCase → Engine → Outcome
stage_entries plain e = do (n, e') ← next_number e; running (record e' { route_num = n })
stage_entries with_drop e = do
  (n, e') ← next_number e
  (d, e'') ← next_number (record e' { route_num = n })
  running (record e'' { drop_after = d })
stage_entries unknown e = running e

-- `stageEngine`: `stopped` is the result 0.
unfoldable pub stage_engine : Engine → Outcome
stage_engine e =
    let next : Outcome = (do
      (s, e') ← next_number e
      stage_entries (stage_to_case s) (record e' { stage = s })) in
    if leb e.config_reg (length e.entries) then next else stopped e

-- `while (Router.stageEngine())` of `main`, without the stages themselves: the settings with which
-- they run. `none` is out of fuel; the flag tells whether the loop ended by itself.
pub record Run : Type 0 where
  pub ended : Bool
  pub stages : List Engine

unfoldable pub run_stages : ℕ → Engine → Option Run
run_stages zero e = none
run_stages (suc fuel) e = elim (stage_engine e) [
  | stopped e' ↦ some (record { ended = true; stages = [] })
  | fault ↦ some (record { ended = false; stages = [] })
  | running e' ↦ elim (run_stages fuel e') [
    | none ↦ none
    | some r ↦ some (record r { stages = e' ∷ r.stages })
  ]
]

-- The constructor of `cRouter`, with the entries of the file.
abbrev pub engine_start : List Text → Engine
engine_start entries = record {
  entries = entries;
  config_reg = 1;
  stage = 0;
  route_num = 0;
  drop_after = 3;
}
