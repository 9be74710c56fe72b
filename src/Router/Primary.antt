-- ===== src/Router/Primary.antt =====
-- The primary router's state in stages 4 and 5 (RouterPrim.cpp): its unacknowledged messages and
-- the timers that send them again.
pub mod Stage2
pub mod Packets
pub mod Timing
pub mod Watch
pub mod Acked
pub mod Stage6
pub mod Stage7
pub mod Stage9
pub mod Stage10
pub mod Tunnel
pub mod Origin
pub mod Replies
pub mod Firing
pub mod Chained
pub mod Gated
pub mod Steps
pub mod Grant
pub mod Portal
pub mod Message
pub mod Resend
pub mod Loop
pub mod Rounds
pub mod Makes
pub mod Refines
pub mod Idle
pub mod Drain
use simple_sdn.Base.{
  ℕ, Bool, true, false, ◌==◌, ◌%◌, ltb, if◌then◌else◌, List, [], ◌∷◌, ◌++◌, Option, none, some,
  Text, text, Buffer, replicate, take,
}
use simple_sdn.StdMap
use simple_sdn.StdMap.{StdMap}
use simple_sdn.Octane.{OctaneControl}
use simple_sdn.Octane.Bytes.{bytes_of_msg}
use simple_sdn.Packet.Unpack.{octane_unpack}
use simple_sdn.Packet.Build.{build_ip_packet}
use simple_sdn.Timers.Timeval.{Timeval}
use simple_sdn.Timers.Queue.{Event}
use simple_sdn.Timers.Manager.{
  Timers, add_timer, remove_timer, execute_next_timer, Executed, executed, unknown_return, no_event,
  pos,
}
use simple_sdn.Router.{Router, Peer, Sent, udp}
use simple_sdn.Router.Handler.{Stale, Handled, goes_on, returns, exits, overrun}
use simple_sdn.Router.Forward.{localhost}

-- `cOctaneTimer`.
pub record OctaneTimer : Type 0 where
  pub msg : OctaneControl
  pub seq : ℕ
  pub rou2_addr : Peer

-- `Router` with `iPortNum` and `m_unAckBuffer`, the local `timersManager` and `bRefreshTimeout`.
pub record Primary : Type 0 where
  pub router : Router
  pub port_num : ℕ
  pub un_ack : StdMap ℕ ℕ
  pub timers : Timers OctaneTimer
  pub refresh : Bool

-- The packet of 2048 bytes that carries a control message; `junk` is the uninitialised `ip_sum`.
unfoldable pub control_packet : ℕ → OctaneControl → Buffer
unfolding build_ip_packet
control_packet junk m =
    build_ip_packet (replicate 2048 0) 2048 253 localhost localhost (bytes_of_msg m) junk

-- `cOctaneTimer::Expire`: what it sends; it returns RESCHEDULE_SAME.
unfoldable pub expire : ℕ → OctaneTimer → Sent
expire junk t = udp t.rou2_addr (control_packet junk t.msg)

-- `timersManager.ExecuteNextTimer()` at the time `now`: `none` is the access to a null pointer.
unfoldable pub fire : ℕ → Timeval → Primary → Option (Primary × List Sent)
unfolding expire
fire junk now p =
    let sent : List Sent = elim p.timers.eq [ [] ↦ [] | e ∷ q ↦ expire junk e.payload.cb ∷ [] ] in
    elim (execute_next_timer (λ c. pos 0) now p.timers) [
      | executed t ↦ some (record p { timers = t }, sent)
      | unknown_return ↦ none
      | no_event ↦ none
    ]

-- A control message is sent and watched: `AddTimer(2000, ...)` and `m_unAckBuffer[iSeqno] =
-- handle`.
unfoldable pub watch : Timeval → Peer → OctaneControl → ℕ → Primary → Primary
watch now rou2 m seq p =
    let (t, hdl) = add_timer now 2000 (record { msg = m; seq = seq; rou2_addr = rou2 }) p.timers in
    record p { timers = t; un_ack = StdMap.assign ltb seq hdl p.un_ack }

-- The branch of an acknowledgement: the timer of its number is removed and its entry erased. An
-- unknown number gets an entry with the handle 0 first. `none` is `exit(1)`.
unfoldable pub acknowledged : ℕ → Primary → Option Primary
acknowledged seq p =
    let (hdl, un_ack) : ℕ × StdMap ℕ ℕ = elim (StdMap.find ltb seq p.un_ack) [
      | none ↦ (0, StdMap.assign ltb seq 0 p.un_ack)
      | some (k, h) ↦ (h, p.un_ack)
    ] in
    elim (remove_timer hdl p.timers) [
      | none ↦ none
      | some (t, found) ↦ some (record p { timers = t; un_ack = StdMap.erase ltb seq un_ack })
    ]

-- The branch of a control packet from the secondary router.
unfoldable pub on_ack : Stale → Buffer → Primary → Handled Primary
on_ack stale b p = elim (octane_unpack b stale.msg_bytes) [
  | none ↦ overrun
  | some (seq, m) ↦
      if m.octane_flags == 1
      then elim (acknowledged seq p) [ none ↦ exits | some p' ↦ goes_on p' [] ]
      else goes_on p []
]
