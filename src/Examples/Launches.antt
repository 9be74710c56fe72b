-- ===== src/Examples/Launches.antt =====
-- The start of three secondary routers.
use simple_sdn.Base.{◌≡◌, ◌++◌, List, [], ◌∷◌, map, some, arith, text, to_string}
use simple_sdn.Router.Launch.{Child, Started, start_many}
use simple_sdn.Router.Launch.Agree.{pairs, own_lines, start_many-agrees}
use simple_sdn.Examples.Routers.{router}

abbrev three : List Child
three =
    record { pid = 4101; port = 5001 }
    ∷ record { pid = 4102; port = 5002 }
    ∷ record { pid = 4105; port = 5003 }
    ∷ []

start_many-agrees_example :
    (s : Started) × (start_many 4000 (map some three) [] router ≡ some s)
    × (s.children ≡ pairs three)
    × (s.router.log
        ≡ router.log ++ ((text "primary port: " ++ to_string 4000) ∷ own_lines 1 three router))
start_many-agrees_example = start_many-agrees 4000 three router (
  (ground arith, ground arith),
  ((ground arith, ground arith), ((ground arith, ground arith), tt)),
)
