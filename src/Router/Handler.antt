-- ===== src/Router/Handler.antt =====
-- What the handlers of both routers have in common.
use simple_sdn.Base.{ℕ, Bool, true, false, List, [], ◌∷◌, ◌++◌, Text, if◌then◌else◌}
use simple_sdn.Flow.{FlowEntry, FlowAction}
use simple_sdn.Packet.Unpack.{Ports, IcmpOut}
use simple_sdn.Router.{Router, Peer, Sent, push_log, router_line}

-- What the uninitialised locals of a handler hold.
pub record Stale : Type 0 where
  pub ports : Ports
  pub icmp : IcmpOut
  pub msg_bytes : List ℕ
  pub entry : FlowEntry
  pub action : FlowAction
  pub peer : Peer
  pub addr : ℕ

-- The end of a handler: back to `select`, a return of the function, `exit(1)`, or a copy or read
-- beyond a buffer.
pub data Handled (S : Type 0) : Type 0 where
  goes_on : S → List Sent → Handled S
  returns : S → Handled S
  exits overrun : Handled S

-- What was sent before a handler's own packets.
abbrev pub with_sent : {S : Type 0} → List Sent → Handled S → Handled S
with_sent before (goes_on s sent) = goes_on s (before ++ sent)
with_sent before (returns s) = returns s
with_sent before exits = exits
with_sent before overrun = overrun

-- The handlers of the ready descriptors, in the order in which the loop tests them.
unfoldable pub run_ready : {S : Type 0} → List (S → Handled S) → S → Handled S
run_ready [] s = goes_on s []
run_ready (h ∷ hs) s = elim (h s) [
  | goes_on s' sent ↦ with_sent sent (run_ready hs s')
  | returns s' ↦ returns s'
  | exits ↦ exits
  | overrun ↦ overrun
]

-- `sCheck.size() != 0`.
abbrev pub non_empty : Text → Bool
non_empty [] = false
non_empty (c ∷ t) = true

-- The router with the text of `flowCheck` logged.
unfoldable pub log_check : Text → Router → Router
log_check check r = if non_empty check then push_log (router_line r check) r else r
