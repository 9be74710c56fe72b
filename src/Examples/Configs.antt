-- ===== src/Examples/Configs.antt =====
-- A configuration of two stages.
use simple_sdn.Base.{true, ◌≡◌, refl, List, [], ◌∷◌, some, arith, text}
use simple_sdn.Config.Parser.{parser}
use simple_sdn.Config.Parser.Words.{parser-line_words}
use simple_sdn.Config.Stages.{Engine, Run, run_stages, engine_start, stage_engine, running, stoi}
use simple_sdn.Config.Stages.Progress.{run_stages_ends}
use simple_sdn.Config.Stages.Runs.{Stanza, AllStanzas, config_entries, stanza_runs, run_stages_lem}

abbrev stanzas : List Stanza
stanzas =
    record {
      stage_word = text "3";
      routers_word = text "1";
      drop_word = text "0";
      stage_number = 3;
      routers = 1;
      drops = 0;
    }
    ∷ record {
      stage_word = text "4";
      routers_word = text "1";
      drop_word = text "5";
      stage_number = 4;
      routers = 1;
      drops = 5;
    }
    ∷ []

stanzas-AllStanzas : AllStanzas stanzas
unfolding stoi
stanzas-AllStanzas = (
  record { stage = refl; routers = refl; drops = refl },
  (record { stage = refl; routers = refl; drops = refl }, tt),
)

run_stages_lem_example :
    run_stages 6 (engine_start (config_entries stanzas))
    ≡ some (record {
      ended = true;
      stages = stanza_runs stanzas (engine_start (config_entries stanzas));
    })
unfolding simple_sdn.Config.Stages.stage_to_case
run_stages_lem_example = run_stages_lem stanzas 6 stanzas-AllStanzas (ground arith)

run_stages_ends_example :
    (r : Run) × (run_stages 6 (engine_start (config_entries stanzas)) ≡ some r)
unfolding simple_sdn.Config.Stages.stage_to_case
run_stages_ends_example =
    run_stages_ends 6 (engine_start (config_entries stanzas)) (ground arith) (ground arith)

parser-line_words_example : parser (text "stage 4 # two") ≡ (2, text "stage" ∷ text "4" ∷ [])
unfolding simple_sdn.Config.Parser.Rounds.split_words simple_sdn.Config.Parser.is_word
parser-line_words_example = parser-line_words (text "stage 4 # two")

abbrev first : Engine
first = engine_start (text "3" ∷ text "1" ∷ [])

abbrev first_run : Engine
first_run = record first { config_reg = 3; stage = 3; route_num = 1 }

first_runs : stage_engine first ≡ running first_run
unfolding stage_engine simple_sdn.Config.Stages.stage_entries simple_sdn.Config.Stages.next_number
    simple_sdn.Config.Stages.next_config stoi simple_sdn.Config.Stages.stage_to_case
first_runs = refl
