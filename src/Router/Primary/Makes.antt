-- ===== src/Router/Primary/Makes.antt =====
-- A round of the primary router's loops as steps, where its handlers make steps.
use simple_sdn.Base.{
  ℕ, List, [], ◌∷◌, ◌++◌, Option, none, some, ◌≡◌, refl, sym, ◌∙◌, ap, subst, Option-cases, inl,
  inr, arith,
}
use simple_sdn.Timers.Timeval.{Timeval}
use simple_sdn.Router.{Sent}
use simple_sdn.Router.Handler.{Handled, goes_on, returns, overrun, run_ready}
use simple_sdn.Router.Round.Keeps.{run_ready-cons, with_sent-goes_on}
use simple_sdn.Router.Primary.{Primary}
use simple_sdn.Router.Primary.Timing.{Wait, before_select, on_timeout}
use simple_sdn.Router.Primary.Steps.{
  IsReading, Input, tunnel_in, socket_in, Steps, stay, both, Steps-same,
}
use simple_sdn.Router.Primary.Rounds.{before_select-Steps, on_timeout-Steps}
use simple_sdn.Router.Round.{Loop, fifteen, FromTunnel, FromSocket, if_ready}
use simple_sdn.Router.Round.Keeps.{refreshed-goes_on}
use simple_sdn.Router.Primary.Loop.{Select, timed_out, woken, after_select, primary_round}

-- The packet of a descriptor, if it is ready.
abbrev pub packet_in : {A : Type 0} → (A → Input) → Option A → List Input
packet_in packet none = []
packet_in packet (some a) = packet a ∷ []

module _ (Clock : Timeval → Type 0) {S : Type 0} (get : S → Primary) (put : Primary → S → S)
    (got : (p : Primary) (s : S) → get (put p s) ≡ p) where
  -- The handlers make steps with these packets.
  unfoldable pub Makes : List Input → (S → Handled S) → Type 0
  Makes input h =
      (s s' : S) (sent : List Sent)
      → h s ≡ goes_on s' sent
      → Steps Clock (get s) input sent (get s')

  run_ready-none : Makes [] (run_ready [])
  unfolding Makes run_ready
  run_ready-none s s' sent e =
      let same : s ≡ s' = ground arith in
      let quiet : [] ≡ sent = ground arith in Steps-same stay quiet (ap get same)

  run_ready-more :
      (h : S → Handled S) (hs : List (S → Handled S)) (input input' : List Input)
      → Makes input h
      → Makes input' (run_ready hs)
      → Makes (input ++ input') (run_ready (h ∷ hs))
  unfolding Makes
  run_ready-more h hs input input' m ms s s' sent e =
      let (q, out, rest, first, others, joined) = run_ready-cons h hs s s' sent e in
      Steps-same (both (m s q out first) (ms q s' rest others)) joined refl

  ready-one :
      {B : Type 0} (packet : B → Input) (g : B → S → Handled S) (b : Option B)
      → ((b : B) → Makes (packet b ∷ []) (g b))
      → Makes (packet_in packet b) (run_ready (if_ready g b))
  ready-one packet g none m = run_ready-none
  ready-one packet g (some b) m = run_ready-more (g b) [] (packet b ∷ []) [] (m b) run_ready-none

  ready-two :
      {A B : Type 0} (packet : A → Input) (packet' : B → Input) (f : A → S → Handled S)
      (g : B → S → Handled S) (a : Option A) (b : Option B)
      → ((a : A) → Makes (packet a ∷ []) (f a))
      → ((b : B) → Makes (packet' b ∷ []) (g b))
      → Makes (packet_in packet a ++ packet_in packet' b) (run_ready (if_ready f a ++ if_ready g b))
  ready-two packet packet' f g none b m n = ready-one packet' g b n
  ready-two packet packet' f g (some a) b m n =
      run_ready-more (f a) (if_ready g b) (packet a ∷ []) (packet_in packet' b) (m a)
        (ready-one packet' g b n)

  timed_out-goes_on :
      (x : Option (Primary × Option (List Sent))) (wait : Wait) (s : S) (l : Loop S)
      (sent : List Sent)
      → (elim x [
        | none ↦ overrun
        | some (p, none) ↦ returns (record { state = put p s; timeout = wait.timeout })
        | some (p, some out) ↦ goes_on (record { state = put p s; timeout = fifteen }) out
      ])
        ≡ goes_on l sent
      → (p : Primary) × (x ≡ some (p, some sent)) × (put p s ≡ l.state)
  timed_out-goes_on none wait s l sent e = absurd (ground arith)
  timed_out-goes_on (some (p, none)) wait s l sent e = absurd (ground arith)
  timed_out-goes_on (some (p, some out)) wait s l sent e = (p, ground arith, ground arith)

  -- What the packets of a round are, where its handlers make steps with them.
  unfoldable pub SelectMakes : List Input → Select S → Type 0
  SelectMakes input (timed_out now readings) =
      (input ≡ []) × ((t : Timeval) → IsReading (now ∷ readings) t → Clock t)
  SelectMakes input (woken left ready) = Makes input (run_ready ready)

  after_select-Steps :
      (input : List Input) (junk : ℕ) (wait : Wait) (select : Select S) (s : S) (l : Loop S)
      (sent : List Sent)
      → SelectMakes input select
      → after_select get put junk wait select s ≡ goes_on l sent
      → Steps Clock (get s) input sent (get l.state)
  unfolding SelectMakes Makes after_select
  after_select-Steps input junk wait (timed_out now readings) s l sent k e =
      let (p, x, q) =
        timed_out-goes_on (on_timeout junk now readings wait (get s)) wait s l sent e in
      subst (λ i. Steps Clock (get s) i sent (get l.state)) (sym k.0)
        (Steps-same (on_timeout-Steps Clock junk now readings wait (get s) p sent k.1 x) refl
          (sym (got p s) ∙ ap get q))
  after_select-Steps input junk wait (woken left ready) s l sent k e =
      k s l.state sent (refreshed-goes_on (λ s. (get s).refresh) left (run_ready ready s) l sent e)

  pub primary_round-Steps :
      (input : List Input) (junk : ℕ) (now : Timeval) (select : Select S) (l l' : Loop S)
      (sent : List Sent)
      → Clock now
      → SelectMakes input select
      → primary_round get put junk now select l ≡ goes_on l' sent
      → Steps Clock (get l.state) input sent (get l'.state)
  unfolding primary_round
  primary_round-Steps input junk now select l l' sent c k e =
      elim (Option-cases (before_select junk now l.timeout (get l.state))) [
        | inl fails ↦ absurd (ground arith)
        | inr (((p, before), wait), b) ↦
            let (out, m, joined) =
              with_sent-goes_on before (after_select get put junk wait select (put p l.state)) l'
                sent (ground arith) in
            Steps-same
              (both
                (Steps-same
                  (before_select-Steps Clock junk now l.timeout (get l.state) p before wait c b)
                  refl (sym (got p l.state)))
                (after_select-Steps input junk wait select (put p l.state) l' out k m))
              joined refl
      ]

-- A round with the packets of two descriptors.
pub packets-Steps :
    (Clock : Timeval → Type 0) {S : Type 0}
    → (get : S → Primary) (put : Primary → S → S) (got : (p : Primary) (s : S) → get (put p s) ≡ p)
      (f : FromTunnel → S → Handled S) (g : FromSocket → S → Handled S) (a : Option FromTunnel)
      (b : Option FromSocket) (n n' : ℕ) (junk : ℕ) (now left : Timeval) (l l' : Loop S)
      (sent : List Sent)
    → Clock now
    → ((a : FromTunnel) (s s' : S) (out : List Sent)
        → f a s ≡ goes_on s' out
        → Steps Clock (get s) (tunnel_in n a.packet ∷ []) out (get s'))
    → ((b : FromSocket) (s s' : S) (out : List Sent)
        → g b s ≡ goes_on s' out
        → Steps Clock (get s) (socket_in n' b.packet ∷ []) out (get s'))
    → primary_round get put junk now (woken left (if_ready f a ++ if_ready g b)) l ≡ goes_on l' sent
    → Steps Clock
        (get l.state)
        (packet_in (λ t. tunnel_in n t.packet) a ++ packet_in (λ t. socket_in n' t.packet) b)
        sent
        (get l'.state)
unfolding SelectMakes Makes
packets-Steps Clock get put got f g a b n n' junk now left l l' sent c k m e =
    primary_round-Steps Clock get put got _ junk now (woken left (if_ready f a ++ if_ready g b)) l
      l' sent c
      (ready-two Clock get put got (λ t. tunnel_in n t.packet) (λ t. socket_in n' t.packet) f g a b
        k m)
      e
