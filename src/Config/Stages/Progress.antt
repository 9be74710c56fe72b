-- ===== src/Config/Stages/Progress.antt =====
-- The stage engine makes progress, and the loop of `main` ends.
use simple_sdn.Base.{
  ℕ, zero, suc, ◌+◌, ◌≤◌, ◌<◌, ◌≡◌, ◌⊎◌, refl, true, false, List, [], ◌∷◌, Text, some, length,
  arith, Option-cases, inl, inr, ap,
}
use simple_sdn.Config.Stages.{
  Engine, next_config, next_number, StageCase, plain, with_drop, unknown, stage_to_case, Outcome,
  stopped, running, fault, stage_entries, stage_engine, run_stages, Run,
}

-- `e'` has the entries of `e` and stands behind it, at most one place behind the last entry.
pub record Advances (e e' : Engine) : Type 0 where
  pub entries : e'.entries ≡ e.entries
  pub further : e.config_reg < e'.config_reg
  pub within : e'.config_reg ≤ length e.entries + 1

next_number-Advances :
    (e e' : Engine) (v : ℕ)
    → next_number e ≡ some (v, e')
    → (e'.entries ≡ e.entries)
      × (e'.config_reg ≡ e.config_reg + 1)
      × (e.config_reg ≤ length e.entries)
unfolding next_number next_config
next_number-Advances e e' v h = ground arith

stage_entries-Advances :
    (k : StageCase) (e e' : Engine)
    → stage_entries k e ≡ running e'
    → (e'.entries ≡ e.entries)
      × (e.config_reg ≤ e'.config_reg)
      × ((e.config_reg ≤ length e.entries + 1) → e'.config_reg ≤ length e.entries + 1)
unfolding stage_entries
stage_entries-Advances plain e e' h = elim (Option-cases (next_number e)) [
  | inl miss ↦ ground arith
  | inr ((n, e1), hit) ↦ ground (arith, next_number-Advances e e1 n hit)
]
stage_entries-Advances with_drop e e' h = elim (Option-cases (next_number e)) [
  | inl miss ↦ ground arith
  | inr ((n, e1), hit) ↦ elim (Option-cases (next_number (record e1 { route_num = n }))) [
    | inl miss ↦ ground arith
    | inr ((d, e2), hit') ↦ ground (
      arith,
      next_number-Advances e e1 n hit,
      next_number-Advances (record e1 { route_num = n }) e2 d hit',
    )
  ]
]
stage_entries-Advances unknown e e' h = ground arith

-- Whenever the engine returns with a stage to run, it keeps the entries, has moved forward and
-- stands at most one place behind the last entry.
pub stage_engine-Advances : (e e' : Engine) → stage_engine e ≡ running e' → Advances e e'
unfolding stage_engine
stage_engine-Advances e e' h = elim (Option-cases (next_number e)) [
  | inl miss ↦ ground arith
  | inr ((s, e1), hit) ↦ ground (
    arith,
    next_number-Advances e e1 s hit,
    stage_entries-Advances (stage_to_case s) (record e1 { stage = s }) e',
  )
]

Outcome-cases :
    (o : Outcome)
    → ((e : Engine) × (o ≡ stopped e)) ⊎ ((o ≡ fault) ⊎ ((e : Engine) × (o ≡ running e)))
Outcome-cases (stopped e) = inl (e, refl)
Outcome-cases fault = inr (inl refl)
Outcome-cases (running e) = inr (inr (e, refl))

-- `main`'s loop over the stages ends, from a place within the entries: as many rounds as there are
-- entries left, and one more, are enough.
pub run_stages_ends :
    (fuel : ℕ) (e : Engine)
    → e.config_reg ≤ length e.entries + 1
    → length e.entries + 1 < fuel + e.config_reg
    → (r : Run) × (run_stages fuel e ≡ some r)
unfolding run_stages
run_stages_ends zero e k h = absurd (omega arith)
run_stages_ends (suc fuel) e k h = elim (Outcome-cases (stage_engine e)) [
  | inl (e', stop) ↦ (record { ended = true; stages = [] }, ground arith)
  | inr (inl bad) ↦ (record { ended = false; stages = [] }, ground arith)
  | inr (inr (e', go)) ↦
      let a = stage_engine-Advances e e' go in
      let same = ap (λ (t : List Text). length t) a.entries in
      let further = a.further in
      let within = a.within in
      let (r, rest) = run_stages_ends fuel e' (omega arith) (omega arith) in
      (record r { stages = e' ∷ r.stages }, ground arith)
]
