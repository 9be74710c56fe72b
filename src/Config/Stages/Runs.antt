-- ===== src/Config/Stages/Runs.antt =====
-- The loop of `main` runs the stages that the entries spell.
use simple_sdn.Base.{
  ℕ, zero, suc, ◌+◌, ◌-◌, ◌<◌, ◌≡◌, refl, true, List, [], ◌∷◌, ◌++◌, Text, some, length, get_elem?,
  arith, ◌∙◌, append_assoc, ap, sym, length-append,
}
use simple_sdn.Config.Stages.{
  Engine, stoi, next_config, next_number, StageCase, plain, with_drop, unknown, stage_to_case,
  stopped, running, stage_entries, stage_engine, run_stages, engine_start,
}

-- One stage of a configuration: the words of its entries and the numbers that they spell.
pub record Stanza : Type 0 where
  pub stage_word : Text
  pub routers_word : Text
  pub drop_word : Text
  pub stage_number : ℕ
  pub routers : ℕ
  pub drops : ℕ

-- The entries of a stage: stages above 3 have a drop limit, and stages above 10 nothing else.
abbrev pub entries_of : StageCase → Stanza → List Text
entries_of plain s = s.stage_word ∷ s.routers_word ∷ []
entries_of with_drop s = s.stage_word ∷ s.routers_word ∷ s.drop_word ∷ []
entries_of unknown s = s.stage_word ∷ []

abbrev pub stanza_entries : Stanza → List Text
stanza_entries s = entries_of (stage_to_case s.stage_number) s

abbrev pub config_entries : List Stanza → List Text
config_entries [] = []
config_entries (s ∷ ss) = stanza_entries s ++ config_entries ss

pub record IsStanza (s : Stanza) : Type 0 where
  pub stage : stoi s.stage_word ≡ some s.stage_number
  pub routers : stoi s.routers_word ≡ some s.routers
  pub drops : stoi s.drop_word ≡ some s.drops

abbrev pub AllStanzas : List Stanza → Type 0
AllStanzas [] = Unit
AllStanzas (s ∷ ss) = IsStanza s × AllStanzas ss

-- The settings that the stage leaves: a value that it does not name stays as it was.
abbrev pub settings : StageCase → Stanza → Engine → Engine
settings plain s e = record e {
  config_reg = e.config_reg + 2;
  stage = s.stage_number;
  route_num = s.routers;
}
settings with_drop s e = record e {
  config_reg = e.config_reg + 3;
  stage = s.stage_number;
  route_num = s.routers;
  drop_after = s.drops;
}
settings unknown s e = record e { config_reg = e.config_reg + 1; stage = s.stage_number }

abbrev pub apply_stanza : Stanza → Engine → Engine
apply_stanza s = settings (stage_to_case s.stage_number) s

abbrev pub stanza_runs : List Stanza → Engine → List Engine
stanza_runs [] e = []
stanza_runs (s ∷ ss) e = apply_stanza s e ∷ stanza_runs ss (apply_stanza s e)

get_elem?-append :
    (p q : List Text) (w : Text) (i : ℕ) → i ≡ length p → get_elem? (p ++ w ∷ q) i ≡ some w
get_elem?-append [] q w zero h = refl
get_elem?-append [] q w (suc i) h = absurd (omega arith)
get_elem?-append (x ∷ p) q w zero h = absurd (omega arith)
get_elem?-append (x ∷ p) q w (suc i) h = get_elem?-append p q w i (omega arith)

-- The next number, with the entries before it and behind it.
next_number_lem :
    (p q : List Text) (w : Text) (v : ℕ) (e : Engine)
    → e.entries ≡ p ++ w ∷ q
    → e.config_reg ≡ length p + 1
    → stoi w ≡ some v
    → next_number e ≡ some (v, record e { config_reg = e.config_reg + 1 })
unfolding next_number next_config
next_number_lem p q w v e h k n = ground (
  arith,
  ap (λ (t : List Text). length t) h,
  length-append p (w ∷ q),
  get_elem?-append p q w (e.config_reg - 1) (omega arith),
  ap (λ (t : List Text). get_elem? t (e.config_reg - 1)) h,
)

module _ (p q : List Text) (s : Stanza) (e : Engine) (k : e.config_reg ≡ length p + 1)
    (v : IsStanza s) where
  abbrev after_stage : Engine
  after_stage = record e { config_reg = e.config_reg + 1; stage = s.stage_number }

  abbrev after_routers : Engine
  after_routers = record after_stage { config_reg = e.config_reg + 1 + 1; route_num = s.routers }

  first_number :
      (r : List Text)
      → e.entries ≡ p ++ s.stage_word ∷ r
      → next_number e ≡ some (s.stage_number, record e { config_reg = e.config_reg + 1 })
  first_number r h = next_number_lem p r s.stage_word s.stage_number e h k v.stage

  second_number :
      (r : List Text)
      → e.entries ≡ p ++ s.stage_word ∷ s.routers_word ∷ r
      → next_number after_stage
        ≡ some (s.routers, record after_stage { config_reg = e.config_reg + 1 + 1 })
  second_number r h =
      next_number_lem (p ++ s.stage_word ∷ []) r s.routers_word s.routers after_stage
        (h ∙ sym (append_assoc p (s.stage_word ∷ []) (s.routers_word ∷ r)))
        (omega (arith, length-append p (s.stage_word ∷ []))) v.routers

  third_number :
      (r : List Text)
      → e.entries ≡ p ++ s.stage_word ∷ s.routers_word ∷ s.drop_word ∷ r
      → next_number after_routers
        ≡ some (s.drops, record after_routers { config_reg = e.config_reg + 1 + 1 + 1 })
  third_number r h =
      let two = s.stage_word ∷ s.routers_word ∷ [] in
      next_number_lem (p ++ two) r s.drop_word s.drops after_routers
        (h ∙ sym (append_assoc p two (s.drop_word ∷ r))) (omega (arith, length-append p two))
        v.drops

  -- With the entries of a stage next, the engine runs it.
  stage_case_lem :
      (c : StageCase)
      → stage_to_case s.stage_number ≡ c
      → e.entries ≡ p ++ (entries_of c s ++ q)
      → stage_engine e ≡ running (settings c s e)
  unfolding stage_engine stage_entries
  stage_case_lem plain f h = ground (
    arith,
    ap (λ (t : List Text). length t) h,
    length-append p (s.stage_word ∷ s.routers_word ∷ q),
    first_number (s.routers_word ∷ q) h,
    second_number q h,
  )
  stage_case_lem with_drop f h = ground (
    arith,
    ap (λ (t : List Text). length t) h,
    length-append p (s.stage_word ∷ s.routers_word ∷ s.drop_word ∷ q),
    first_number (s.routers_word ∷ s.drop_word ∷ q) h,
    second_number (s.drop_word ∷ q) h,
    third_number q h,
  )
  stage_case_lem unknown f h = ground (
    arith,
    ap (λ (t : List Text). length t) h,
    length-append p (s.stage_word ∷ q),
    first_number q h,
  )

settings-place :
    (c : StageCase) (s : Stanza) (e : Engine)
    → ((settings c s e).entries ≡ e.entries)
      × ((settings c s e).config_reg ≡ e.config_reg + length (entries_of c s))
settings-place plain s e = (refl, refl)
settings-place with_drop s e = (refl, refl)
settings-place unknown s e = (refl, refl)

entries_of-nonempty : (c : StageCase) (s : Stanza) → 0 < length (entries_of c s)
entries_of-nonempty plain s = omega arith
entries_of-nonempty with_drop s = omega arith
entries_of-nonempty unknown s = omega arith

stop_lem :
    (p : List Text) (e : Engine)
    → e.entries ≡ p ++ []
    → e.config_reg ≡ length p + 1
    → stage_engine e ≡ stopped e
unfolding stage_engine
stop_lem p e h k =
    ground (arith, ap (λ (t : List Text). length t) h, length-append {0} {A = Text} p [])

run_from :
    (ss : List Stanza) (p : List Text) (fuel : ℕ) (e : Engine)
    → AllStanzas ss
    → e.entries ≡ p ++ config_entries ss
    → e.config_reg ≡ length p + 1
    → length (config_entries ss) < fuel
    → run_stages fuel e ≡ some (record { ended = true; stages = stanza_runs ss e })
unfolding run_stages
run_from ss p zero e v h k f = absurd (omega arith)
run_from [] p (suc fuel) e v h k f = ground (arith, stop_lem p e h k)
run_from (s ∷ ss) p (suc fuel) e v h k f =
    let es = stanza_entries s in
    let place = settings-place (stage_to_case s.stage_number) s e in
    ground (
      arith,
      stage_case_lem p (config_entries ss) s e k v.0 (stage_to_case s.stage_number) refl h,
      run_from ss (p ++ es) fuel (apply_stanza s e) v.1
          (place.0 ∙ h ∙ sym (append_assoc p es (config_entries ss)))
          (omega (arith, length-append p es))
          (omega (
            arith,
            length-append es (config_entries ss),
            entries_of-nonempty (stage_to_case s.stage_number) s,
          )),
    )

-- On the entries of a list of stages whose words spell their numbers, with more rounds than
-- entries, the loop of `main` runs exactly these stages, one after the other, and then stops by
-- itself.
pub run_stages_lem :
    (ss : List Stanza) (fuel : ℕ)
    → AllStanzas ss
    → length (config_entries ss) < fuel
    → run_stages fuel (engine_start (config_entries ss))
      ≡ some (record { ended = true; stages = stanza_runs ss (engine_start (config_entries ss)) })
run_stages_lem ss fuel v h = run_from ss [] fuel (engine_start (config_entries ss)) v refl refl h
