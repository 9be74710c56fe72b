-- ===== src/Router/Second/Served.antt =====
-- The secondary router's loops as a state machine, and the control messages in it.
use simple_sdn.Base.{
  List, ℕ, ◌<◌, ◌-◌, ◌++◌, ◌==◌, ◌≡◌, sym, subst, Bool, true, false, if◌then◌else◌, leb, [], Option,
  some, Buffer,
}
use simple_sdn.StdMap.Values.{Values}
use simple_sdn.Timers.Timeval.{Timeval}
use simple_sdn.Octane.{OctaneControl}
use simple_sdn.Packet.Unpack.{octane_unpack}
use simple_sdn.Router.{Sent}
use simple_sdn.Router.Handler.{Handled, goes_on}
use simple_sdn.Router.Round.{Loop, FromSocket, FromRaw, if_ready}
use simple_sdn.Router.Round.Keeps.{Keeps, AllKeep, AllKeep-append, if_ready-Keeps, idle_round-Keeps}
use simple_sdn.Router.Control.Acks.{acks, acks_lem, count_of, is_dropped}
use simple_sdn.Router.Control.Counts.{IsCounting, count_of-below}
use simple_sdn.Router.Second.{Session}
use simple_sdn.Router.Second.Plain.{second_start, s4_udp, s4_raw, s5_udp, s5_raw}
use simple_sdn.Router.Second.Stage2.{s2_udp, s3_raw}
use simple_sdn.Router.Second.Ruled.{s6_udp, s6_raw_icmp, s6_raw_tcp}
use simple_sdn.Router.Second.Loop.{
  socket_continues, second_s2_round, second_s4_round, second_s5_round, second_s6_round,
}
use simple_sdn.Router.Second.Counting.{
  on_udp-IsCounting, on_raw-IsCounting, s2_udp-IsCounting, s3_raw-IsCounting, s6_udp-IsCounting,
  s6_raw_icmp-IsCounting, s6_raw_tcp-IsCounting, second_start-IsCounting,
}

-- The states between the rounds of a secondary router that has got no control message at its start,
-- where messages are dropped at some count. Stages 5 and 6 begin with `second_start`.
pub data Served : Session → Type 0 where
  started : (s : Session) → s.router.msg_count ≡ [] → 0 < s.router.drop_after → Served s
  default_rule : {s : Session} → Served s → Served (second_start s)
  served2 :
      (l l' : Loop Session) (left : Option Timeval) (socket : Option FromSocket)
      (raw : Option FromRaw) (sent : List Sent)
      → Served l.state
      → second_s2_round left socket raw l ≡ goes_on l' sent
      → Served l'.state
  served4 :
      (l l' : Loop Session) (left : Option Timeval) (socket : Option FromSocket)
      (raw : Option FromRaw) (sent : List Sent)
      → Served l.state
      → second_s4_round left socket raw l ≡ goes_on l' sent
      → Served l'.state
  served5 :
      (l l' : Loop Session) (left : Option Timeval) (socket : Option FromSocket)
      (raw : Option FromRaw) (sent : List Sent)
      → Served l.state
      → second_s5_round left socket raw l ≡ goes_on l' sent
      → Served l'.state
  served6 :
      (l l' : Loop Session) (left : Option Timeval) (socket : Option FromSocket)
      (icmp tcp : Option FromRaw) (sent : List Sent)
      → Served l.state
      → second_s6_round left socket icmp tcp l ≡ goes_on l' sent
      → Served l'.state

abbrev Counts : Session → Type 0
Counts s = IsCounting s.router

-- A round with the packets of two descriptors.
packets-Counts :
    {A B : Type 0}
    → (f : A → Session → Handled Session) (g : B → Session → Handled Session) (a : Option A)
      (b : Option B)
    → ((a : A) → Keeps Counts (f a))
    → ((b : B) → Keeps Counts (g b))
    → AllKeep Counts (if_ready f a ++ if_ready g b)
packets-Counts f g a b k m =
    AllKeep-append Counts (if_ready f a) (if_ready g b) (if_ready-Keeps Counts f a k)
      (if_ready-Keeps Counts g b m)

raw2-Counts :
    (around three : Bool) (raw : Option FromRaw)
    → AllKeep Counts
        (if around then [] else if three then if_ready (λ p. s3_raw p.stale p.packet) raw else [])
unfolding AllKeep
raw2-Counts true three raw = tt
raw2-Counts false true raw =
    if_ready-Keeps Counts (λ p. s3_raw p.stale p.packet) raw
      (λ p. s3_raw-IsCounting p.stale p.packet)
raw2-Counts false false raw = tt

-- In every state that a secondary router comes to between rounds, from a start without counts and
-- with `m_iDropAfter` above 0, the count of each control message is below `m_iDropAfter`.
pub Served-IsCounting : (s : Session) → Served s → IsCounting s.router
unfolding second_s2_round second_s4_round second_s5_round second_s6_round s4_udp s4_raw s5_udp
    s5_raw Values
Served-IsCounting s (started t e d) = record {
  drops = d;
  below = subst (Values (λ n. n < t.router.drop_after)) (sym e) tt;
}
Served-IsCounting s (default_rule {s = t} x) = second_start-IsCounting t (Served-IsCounting t x)
Served-IsCounting s (served2 l l' left socket raw sent x e) =
    idle_round-Keeps Counts (λ s. s.refresh) left _
      (record l { state = record l.state { refresh = true } }) l' sent
      (AllKeep-append Counts (if_ready (λ p. s2_udp p.stale p.failed p.sender p.packet) socket) _
        (if_ready-Keeps Counts (λ p. s2_udp p.stale p.failed p.sender p.packet) socket
          (λ p. s2_udp-IsCounting p.stale p.failed p.sender p.packet))
        (raw2-Counts (socket_continues socket) (l.state.router.stage == 3) raw))
      (Served-IsCounting l.state x) e
Served-IsCounting s (served4 l l' left socket raw sent x e) =
    idle_round-Keeps Counts (λ s. s.refresh) left _ l l' sent
      (packets-Counts (λ p. s4_udp p.stale p.failed p.sender p.packet)
        (λ p. s4_raw p.stale p.packet) socket raw
        (λ p. on_udp-IsCounting false p.stale p.failed p.sender p.packet)
        (λ p. on_raw-IsCounting false p.stale p.packet))
      (Served-IsCounting l.state x) e
Served-IsCounting s (served5 l l' left socket raw sent x e) =
    idle_round-Keeps Counts (λ s. s.refresh) left _ l l' sent
      (packets-Counts (λ p. s5_udp p.stale p.failed p.sender p.packet)
        (λ p. s5_raw p.stale p.packet) socket raw
        (λ p. on_udp-IsCounting true p.stale p.failed p.sender p.packet)
        (λ p. on_raw-IsCounting true p.stale p.packet))
      (Served-IsCounting l.state x) e
Served-IsCounting s (served6 l l' left socket icmp tcp sent x e) =
    idle_round-Keeps Counts (λ s. s.refresh) left _ l l' sent
      (AllKeep-append Counts (if_ready (λ p. s6_udp p.stale p.failed p.sender p.packet) socket) _
        (if_ready-Keeps Counts (λ p. s6_udp p.stale p.failed p.sender p.packet) socket
          (λ p. s6_udp-IsCounting p.stale p.failed p.sender p.packet))
        (packets-Counts (λ p. s6_raw_icmp p.stale p.packet) (λ p. s6_raw_tcp p.stale p.packet) icmp
          tcp (λ p. s6_raw_icmp-IsCounting p.stale p.packet)
          (λ p. s6_raw_tcp-IsCounting p.stale p.packet)))
      (Served-IsCounting l.state x) e

-- In every state that a secondary router comes to between rounds, from a start without counts and
-- with `m_iDropAfter` above 0: a control message that is not
-- dropped and that has come `count_of m` times since it was last forgotten is acknowledged as often
-- as is left up to `m_iDropAfter`, and not any more from then on, when it comes `j` times.
pub Served-acks :
    (j : ℕ) (stale : List ℕ) (b : Buffer) (s : Session) (seqno : ℕ) (m : OctaneControl)
    → Served s
    → octane_unpack b stale ≡ some (seqno, m)
    → is_dropped m s.router ≡ false
    → acks j stale b s.router
      ≡ some (
          if leb j (s.router.drop_after - count_of m s.router)
          then j
          else s.router.drop_after - count_of m s.router)
Served-acks j stale b s seqno m x u h =
    acks_lem j stale b s.router seqno m u h (count_of-below m s.router (Served-IsCounting s x))
