-- ===== src/Router/Launch/Agree.antt =====
-- The primary router's numbering of the secondary routers and their own.
use simple_sdn.Base.{
  ℕ, suc, ◌+◌, ◌<◌, ◌≤◌, ◌≡◌, refl, ap, sym, ◌∙◌, ltb, List, [], ◌∷◌, ◌++◌, append_assoc,
  append-nil, map, none, some, Text, text, to_string, arith,
}
use simple_sdn.StdMap
use simple_sdn.Config.Stages.Digits.{IsDigits, to_string-IsDigits, stoi-to_string}
use simple_sdn.Router.{Router, push_log}
use simple_sdn.Router.Primary.Stage2.{c_string, primary_router}
use simple_sdn.Router.Second.Stage2.{request_register, second_router}
use simple_sdn.Router.Launch.{
  Child, ChildPort, register, fork_all, router_text, log_children, log_start, Started, start_many,
  stage1,
}

c_string-digits : (t : Text) → IsDigits t → c_string (t ++ 0 ∷ []) ≡ t
unfolding c_string
c_string-digits [] h = refl
c_string-digits (c ∷ t) h = ground (arith, c_string-digits t h.1)

register-child :
    (c : Child) (m : ChildPort)
    → c.pid ≤ 2147483647
    → register (to_string c.pid ++ 0 ∷ []) c.port m ≡ some (StdMap.assign ltb c.pid c.port m)
unfolding register
register-child c m h =
    rw (c_string-digits (to_string c.pid) (to_string-IsDigits c.pid), register)
      (rw (stoi-to_string c.pid h, register) refl)

-- The process ids fit an `int` and increase, from `low` on.
abbrev pub Increasing : ℕ → List Child → Type 0
Increasing low [] = Unit
Increasing low (c ∷ cs) = ((low ≤ c.pid) × (c.pid ≤ 2147483647)) × Increasing (suc c.pid) cs

abbrev Under : ℕ → ChildPort → Type 0
Under low [] = Unit
Under low ((pid, port) ∷ m) = (pid < low) × Under low m

abbrev pub pairs : List Child → ChildPort
pairs [] = []
pairs (c ∷ cs) = (c.pid, c.port) ∷ pairs cs

assign-last :
    (pid port : ℕ) (m : ChildPort)
    → Under pid m
    → StdMap.assign ltb pid port m ≡ m ++ (pid, port) ∷ []
unfolding StdMap.assign
assign-last pid port [] u = refl
assign-last pid port ((k, v) ∷ m) u = ground (arith, assign-last pid port m u.1)

Under-weaken : (low high : ℕ) (m : ChildPort) → low ≤ high → Under low m → Under high m
Under-weaken low high [] h u = tt
Under-weaken low high ((k, v) ∷ m) h u = (omega (arith, u.0), Under-weaken low high m h u.1)

Under-snoc : (pid port : ℕ) (m : ChildPort) → Under pid m → Under (suc pid) (m ++ (pid, port) ∷ [])
Under-snoc pid port [] u = (omega arith, tt)
Under-snoc pid port ((k, v) ∷ m) u = (omega (arith, u.0), Under-snoc pid port m u.1)

fork_all-pairs :
    (low : ℕ) (cs : List Child) (m : ChildPort)
    → Increasing low cs
    → Under low m
    → fork_all (map some cs) m ≡ some (m ++ pairs cs)
unfolding fork_all
fork_all-pairs low [] m i u = ap some (sym (append-nil m))
fork_all-pairs low (c ∷ cs) m i u =
    let below = Under-weaken low c.pid m i.0.0 u in
    rw (register-child c m i.0.1, fork_all)
      (rw (assign-last c.pid c.port m below) (
        fork_all-pairs (suc c.pid) cs (m ++ (c.pid, c.port) ∷ []) i.1
          (Under-snoc c.pid c.port m below)
        ∙ ap some (append_assoc m ((c.pid, c.port) ∷ []) (pairs cs))))

-- What the routers log themselves at their registration, the first of them with the id `id`.
abbrev pub own_lines : ℕ → List Child → Router → List Text
own_lines id [] r = []
own_lines id (c ∷ cs) r =
    (request_register id c.pid c.port (record r { log = [] })).log ++ own_lines (id + 1) cs r

log_children-own_lines :
    (cnt : ℕ) (cs : List Child) (r s : Router)
    → (log_children cnt (pairs cs) r).log ≡ r.log ++ own_lines (cnt + 1) cs s
unfolding log_children push_log request_register router_text
log_children-own_lines cnt [] r s = sym (append-nil r.log)
log_children-own_lines cnt (c ∷ cs) r s =
    log_children-own_lines (cnt + 1) cs (push_log (router_text (cnt + 1) c.pid c.port) r) s
    ∙ append_assoc r.log (router_text (cnt + 1) c.pid c.port ∷ []) (own_lines (cnt + 1 + 1) cs s)

-- Where every `fork` succeeds, no router was registered before and the process ids fit an int and
-- increase, the primary router registers the secondary routers in the order of their ids, and after
-- its own port it logs for each the line that the router logs itself.
pub start_many-agrees :
    (port_num : ℕ) (cs : List Child) (r : Router)
    → Increasing 0 cs
    → (s : Started) × (start_many port_num (map some cs) [] r ≡ some s)
      × (s.children ≡ pairs cs)
      × (s.router.log ≡ r.log ++ ((text "primary port: " ++ to_string port_num) ∷ own_lines 1 cs r))
unfolding start_many log_start push_log
start_many-agrees port_num cs r i =
    let line = text "primary port: " ++ to_string port_num in
    (
      record { router = log_start port_num (pairs cs) r; children = pairs cs; conf = none },
      rw (fork_all-pairs 0 cs [] i tt, start_many) refl,
      refl,
      log_children-own_lines 0 cs (push_log line r) r
          ∙ append_assoc r.log (line ∷ []) (own_lines 1 cs r),
    )

-- In stage 1, too, the primary router logs its own port and the line that the other logs itself.
pub stage1-agrees :
    (port_num : ℕ) (c : Child) (r : Router)
    → (stage1 port_num (some c) r).log
      ≡ r.log
        ++ ((text "primary port: " ++ to_string port_num)
            ∷ (second_router c.pid c.port (record r { log = [] })).log)
unfolding stage1 primary_router second_router request_register push_log
stage1-agrees port_num c r =
    rw (c_string-digits (to_string c.pid) (to_string-IsDigits c.pid))
      (append_assoc r.log ((text "primary port: " ++ to_string port_num) ∷ []) _)
