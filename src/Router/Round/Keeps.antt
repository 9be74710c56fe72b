-- ===== src/Router/Round/Keeps.antt =====
-- What every handler of a round keeps, the round keeps.
use simple_sdn.Base.{Option, none, some, Bool, List, [], ◌∷◌, ◌++◌, ◌≡◌, refl, subst, arith}
use simple_sdn.Router.{Sent}
use simple_sdn.Timers.Timeval.{Timeval}
use simple_sdn.Router.Round.{Loop, refreshed, if_ready, idle_round}
use simple_sdn.Router.Handler.{Handled, goes_on, returns, exits, overrun, with_sent, run_ready}

pub with_sent-goes_on :
    {S : Type 0}
    → (before : List Sent) (x : Handled S) (s : S) (sent : List Sent)
    → with_sent before x ≡ goes_on s sent
    → (out : List Sent) × (x ≡ goes_on s out) × (before ++ out ≡ sent)
with_sent-goes_on before (goes_on q out) s sent e = (out, ground arith, ground arith)
with_sent-goes_on before (returns q) s sent e = ground arith
with_sent-goes_on before exits s sent e = ground arith
with_sent-goes_on before overrun s sent e = ground arith

first_of :
    {S : Type 0}
    → (hs : List (S → Handled S)) (x : Handled S) (s : S) (sent : List Sent)
    → (elim x [
      | goes_on q out ↦ with_sent out (run_ready hs q)
      | returns q ↦ returns q
      | exits ↦ exits
      | overrun ↦ overrun
    ])
      ≡ goes_on s sent
    → (q : S) × (out : List Sent) × (rest : List Sent) × (x ≡ goes_on q out)
      × (run_ready hs q ≡ goes_on s rest)
      × (out ++ rest ≡ sent)
first_of hs (goes_on q out) s sent e =
    let (rest, k, o) = with_sent-goes_on out (run_ready hs q) s sent e in (q, out, rest, refl, k, o)
first_of hs (returns q) s sent e = absurd (ground arith)
first_of hs exits s sent e = absurd (ground arith)
first_of hs overrun s sent e = absurd (ground arith)

pub run_ready-cons :
    {S : Type 0}
    → (h : S → Handled S) (hs : List (S → Handled S)) (s s' : S) (sent : List Sent)
    → run_ready (h ∷ hs) s ≡ goes_on s' sent
    → (q : S) × (out : List Sent) × (rest : List Sent) × (h s ≡ goes_on q out)
      × (run_ready hs q ≡ goes_on s' rest)
      × (out ++ rest ≡ sent)
unfolding run_ready
run_ready-cons h hs s s' sent e = first_of hs (h s) s' sent e

-- A handler keeps a property.
abbrev pub Keeps : {S : Type 0} → (S → Type 0) → (S → Handled S) → Type 0
Keeps {S} I h = (s s' : S) (sent : List Sent) → I s → h s ≡ goes_on s' sent → I s'

unfoldable pub AllKeep : {S : Type 0} → (S → Type 0) → List (S → Handled S) → Type 0
AllKeep I [] = Unit
AllKeep I (h ∷ hs) = Keeps I h × AllKeep I hs

pub run_ready-Keeps :
    {S : Type 0}
    → (I : S → Type 0) (hs : List (S → Handled S)) → AllKeep I hs
    → Keeps I (run_ready hs)
unfolding AllKeep run_ready
run_ready-Keeps I [] a s s' sent i e = subst I (ground arith) i
run_ready-Keeps I (h ∷ hs) a s s' sent i e =
    let (q, out, rest, k, m, o) = run_ready-cons h hs s s' sent e in
    run_ready-Keeps I hs a.1 q s' rest (a.0 s q out i k) m

pub AllKeep-append :
    {S : Type 0}
    → (I : S → Type 0) (hs ks : List (S → Handled S)) → AllKeep I hs
    → AllKeep I ks
    → AllKeep I (hs ++ ks)
unfolding AllKeep
AllKeep-append I [] ks a b = b
AllKeep-append I (h ∷ hs) ks a b = (a.0, AllKeep-append I hs ks a.1 b)

pub refreshed-goes_on :
    {S : Type 0}
    → (get : S → Bool) (left : Timeval) (x : Handled S) (l : Loop S) (sent : List Sent)
    → refreshed get left x ≡ goes_on l sent
    → x ≡ goes_on l.state sent
refreshed-goes_on get left (goes_on s out) l sent e = ground arith
refreshed-goes_on get left (returns s) l sent e = ground arith
refreshed-goes_on get left exits l sent e = ground arith
refreshed-goes_on get left overrun l sent e = ground arith

pub if_ready-Keeps :
    {A S : Type 0}
    → (I : S → Type 0) (handler : A → S → Handled S) (ready : Option A)
    → ((a : A) → Keeps I (handler a))
    → AllKeep I (if_ready handler ready)
unfolding AllKeep
if_ready-Keeps I handler none k = tt
if_ready-Keeps I handler (some a) k = (k a, tt)

-- What every handler keeps of the state, a round without timers keeps.
pub idle_round-Keeps :
    {S : Type 0}
    → (I : S → Type 0) (refreshes : S → Bool) (left : Option Timeval) (ready : List (S → Handled S))
      (l l' : Loop S) (sent : List Sent)
    → AllKeep I ready
    → I l.state
    → idle_round refreshes left ready l ≡ goes_on l' sent
    → I l'.state
unfolding idle_round
idle_round-Keeps I refreshes none ready l l' sent a i e = absurd (ground arith)
idle_round-Keeps I refreshes (some left) ready l l' sent a i e =
    run_ready-Keeps I ready a l.state l'.state sent i
      (refreshed-goes_on refreshes left (run_ready ready l.state) l' sent e)
