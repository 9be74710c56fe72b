-- ===== src/Router/Launch.antt =====
-- The start of the stages (`stage1` to `stage10` of RouterPrim.cpp and the switch of main.cpp): the
-- secondary routers are forked, and the primary router registers them.
pub mod Agree
use simple_sdn.Base.{
  ℕ, ◌+◌, ◌==◌, ltb, if◌then◌else◌, List, [], ◌∷◌, ◌++◌, Option, none, some, Text, text, to_string,
  Buffer,
}
use simple_sdn.StdMap
use simple_sdn.StdMap.{StdMap}
use simple_sdn.Config.Stages.{stoi}
use simple_sdn.Router.{Router, push_log}
use simple_sdn.Router.Primary.Stage2.{c_string, primary_router}
use simple_sdn.Router.Forward.{localhost}

-- What the system gives a secondary router: its process and its port.
pub record Child : Type 0 where
  pub pid : ℕ
  pub port : ℕ

-- `m_mChildPort`.
abbrev pub ChildPort : Type 0
ChildPort = StdMap ℕ ℕ

-- `primaryRouter_reg`: the first message of a router, in the buffer `b`, is its process id. `none`
-- is the exception of `stoi`.
unfoldable pub register : Buffer → ℕ → ChildPort → Option ChildPort
unfolding c_string stoi
register b port m = elim (stoi (c_string b)) [
  | none ↦ none
  | some pid ↦ some (StdMap.assign ltb pid port m)
]

-- The loop of `fork` in the primary router, `iRouteNum` times: each router's message, in a zeroed
-- buffer, is registered before the next is forked. `none` in the list is a `fork` that fails.
unfoldable pub fork_all : List (Option Child) → ChildPort → Option ChildPort
unfolding register to_string
fork_all [] m = some m
fork_all (none ∷ cs) m = fork_all cs m
fork_all (some c ∷ cs) m = elim (register (to_string c.pid ++ 0 ∷ []) c.port m) [
  | none ↦ none
  | some m' ↦ fork_all cs m'
]

-- "router: <id>, pid: <pid>, port: <port>".
unfoldable pub router_text : ℕ → ℕ → ℕ → Text
unfolding to_string
router_text id pid port =
    text "router: "
    ++ to_string id
    ++ text ", pid: "
    ++ to_string pid
    ++ text ", port: "
    ++ to_string port

-- The log of the registered routers, `cnt` of which are logged already.
unfoldable pub log_children : ℕ → ChildPort → Router → Router
unfolding router_text
log_children cnt [] r = r
log_children cnt ((pid, port) ∷ m) r =
    log_children (cnt + 1) m (push_log (router_text (cnt + 1) pid port) r)

unfoldable pub log_start : ℕ → ChildPort → Router → Router
unfolding log_children to_string
log_start port_num m r = log_children 0 m (push_log (text "primary port: " ++ to_string port_num) r)

-- `stage1` in the primary router, where it forks a router or fails to: its log.
unfoldable pub stage1 : ℕ → Option Child → Router → Router
unfolding primary_router to_string
stage1 port_num none r = r
stage1 port_num (some c) r =
    primary_router port_num (record { addr = localhost; port = c.port }) (to_string c.pid ++ 0 ∷ [])
      r

-- The starts of `stage2`, `stage4` and `stage5`; `loops_of` has the loops that follow.
unfoldable pub stage2 : ℕ → Option Child → Router → Router
stage2 = stage1

unfoldable pub stage4 : ℕ → Option Child → Router → Router
stage4 = stage1

unfoldable pub stage5 : ℕ → Option Child → Router → Router
stage5 = stage1

-- The lines "R<cnt>:<port>" of `primaryRouter_savePort`.
unfoldable pub port_lines : ℕ → ChildPort → List Text
unfolding to_string
port_lines cnt [] = []
port_lines cnt ((pid, port) ∷ m) =
    (text "R" ++ to_string cnt ++ text ":" ++ to_string port) ∷ port_lines (cnt + 1) m

-- `writeFile`: the bytes of the file.
unfoldable pub write_file : List Text → Text
write_file [] = []
write_file (l ∷ ls) = l ++ 10 ∷ write_file ls

-- `primaryRouter_savePort`, which writes /tmp/captive.conf.
unfoldable pub save_port : ℕ → ChildPort → Text
unfolding port_lines write_file to_string
save_port port_num m = write_file ((text "R0:" ++ to_string port_num) ∷ port_lines 1 m)

-- The loops that the routers run after the start, by the stage that they are named for.
pub data PrimaryLoop : Type 0 where
  primary_s2 primary_s4 primary_s5 primary_s6 primary_s7 primary_s9 primary_s10 : PrimaryLoop

pub data SecondLoop : Type 0 where
  second_s2 second_s4 second_s5 second_s6 : SecondLoop

-- What `stage6` to `stage10` leave in the primary router: its log, the registered routers, those of
-- earlier stages among them, and the text of /tmp/captive.conf, if it is written. `none` is an
-- exception.
pub record Started : Type 0 where
  pub router : Router
  pub children : ChildPort
  pub conf : Option Text

unfoldable pub start_many : ℕ → List (Option Child) → ChildPort → Router → Option Started
unfolding fork_all log_start
start_many port_num cs earlier r = elim (fork_all cs earlier) [
  | none ↦ none
  | some m ↦ some (record { router = log_start port_num m r; children = m; conf = none })
]

unfoldable pub stage6 : ℕ → List (Option Child) → ChildPort → Router → Option Started
stage6 = start_many

unfoldable pub stage7 : ℕ → List (Option Child) → ChildPort → Router → Option Started
stage7 = start_many

unfoldable pub stage9 : ℕ → List (Option Child) → ChildPort → Router → Option Started
unfolding save_port
stage9 port_num cs earlier r = elim (start_many port_num cs earlier r) [
  | none ↦ none
  | some s ↦ some (record s { conf = some (save_port port_num s.children) })
]

unfoldable pub stage10 : ℕ → List (Option Child) → ChildPort → Router → Option Started
stage10 = stage9

-- The switch of `main`: the loops of a stage. Stage 1 runs none, and any other number does nothing.
unfoldable pub loops_of : ℕ → Option (PrimaryLoop × SecondLoop)
loops_of stage =
    if stage == 2
    then some (primary_s2, second_s2)
    else if stage == 3
    then some (primary_s2, second_s2)
    else if stage == 4
    then some (primary_s4, second_s4)
    else if stage == 5
    then some (primary_s5, second_s5)
    else if stage == 6
    then some (primary_s6, second_s6)
    else if stage == 7
    then some (primary_s7, second_s6)
    else if stage == 8
    then some (primary_s6, second_s6)
    else if stage == 9
    then some (primary_s9, second_s6)
    else if stage == 10
    then some (primary_s10, second_s6)
    else none
