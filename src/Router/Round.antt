-- ===== src/Router/Round.antt =====
-- One round of the routers' loops, around `select` and the handlers.
pub mod Keeps
use simple_sdn.Base.{ℕ, Bool, true, false, if◌then◌else◌, List, [], ◌∷◌, Option, none, some, Buffer}
use simple_sdn.Timers.Timeval.{Timeval}
use simple_sdn.Router.{Peer, Sent}
use simple_sdn.Router.Handler.{Stale, Handled, goes_on, returns, exits, overrun, run_ready}

-- The state between two rounds, with `timeout`.
pub record Loop (S : Type 0) : Type 0 where
  pub state : S
  pub timeout : Timeval

abbrev pub fifteen : Timeval
fifteen = record { tv_sec = 15; tv_usec = 0 }

-- The end of a round: the idle timeout is set again after a packet that counts.
abbrev pub refreshed : {S : Type 0} → (S → Bool) → Timeval → Handled S → Handled (Loop S)
refreshed get left (goes_on s sent) =
    goes_on (record { state = s; timeout = if get s then fifteen else left }) sent
refreshed get left (returns s) = returns (record { state = s; timeout = left })
refreshed get left exits = exits
refreshed get left overrun = overrun

-- The packets of a round, if their descriptors are ready: from the tunnel, and from a secondary
-- router with its size and its sender. `failed` is `nread < 0`.
pub record FromTunnel : Type 0 where
  pub now : Timeval
  pub stale : Stale
  pub failed : Bool
  pub packet : Buffer

pub record FromSocket : Type 0 where
  pub stale : Stale
  pub failed : Bool
  pub nread : ℕ
  pub sender : Peer
  pub packet : Buffer

-- The packet of a raw socket; `stale.peer` is its sender.
pub record FromRaw : Type 0 where
  pub stale : Stale
  pub packet : Buffer

abbrev pub if_ready : {A S : Type 0} → (A → S → Handled S) → Option A → List (S → Handled S)
if_ready handler none = []
if_ready handler (some a) = handler a ∷ []

-- A round of a loop without timers: the time that `select` leaves, or `none` when it times out, and
-- the handlers of the ready descriptors.
unfoldable pub idle_round :
    {S : Type 0} → (S → Bool) → Option Timeval → List (S → Handled S) → Loop S → Handled (Loop S)
idle_round refreshes none ready l = returns l
idle_round refreshes (some left) ready l = refreshed refreshes left (run_ready ready l.state)
