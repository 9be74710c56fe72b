-- ===== src/Router/Primary/Portal.antt =====
-- A web flow of a user who is not authenticated, in stage 9.
pub mod Release
use simple_sdn.Base.{
  ◌%◌, ℕ, Bool, true, false, ◌==◌, ◌≡◌, ◌≢◌, refl, sym, ◌∙◌, ap, subst, if◌then◌else◌, List, [],
  ◌∷◌, ◌++◌, none, some, Text, Buffer, take, arith,
}
use simple_sdn.StdMap.Laws.{Keys, Keys-assign}
use simple_sdn.StdMap.Sorted.{IsSorted, assign-IsSorted}
use simple_sdn.Octane.{OctaneControl}
use simple_sdn.Flow.{FlowEntry, entry_of_msg, action_of_msg, reverse, entry_lt, entry_eq}
use simple_sdn.Flow.Order.{HasKind, entry_lt-IsStrictOrder, reverse-HasKind}
use simple_sdn.Flow.Table.{FlowTable, db_insert, reverse_action}
use simple_sdn.Flow.Table.Rules.{rule_for, rule_for-db_insert}
use simple_sdn.Packet.Header.{ip_p}
use simple_sdn.Packet.Edit.{from_tunnel}
use simple_sdn.Packet.Unpack.{entry_of_packet, tcp_unpack, octane_unpack}
use simple_sdn.Timers.Timeval.{Timeval}
use simple_sdn.Router.{Router, Peer, Sent, udp, push_log}
use simple_sdn.Router.Create.{create_octane_msg, create_reverse_octane_msg, next_seqno}
use simple_sdn.Router.Forward.{localhost}
use simple_sdn.Router.Logging.{icmp_forward_log, logged-ip_p}
use simple_sdn.Router.Handler.{Stale, Handled, goes_on, non_empty, log_check}
use simple_sdn.Router.Second.Ruled.Rules.{check-miss}
use simple_sdn.Router.Second.Ruled.Install.{same_entry}
use simple_sdn.Router.Primary.{Primary, control_packet, watch}
use simple_sdn.Router.Primary.Packets.{own_rules, announce_both}
use simple_sdn.Router.Primary.Stage6.{new_flow_to, tunnel_packet, log_hit}
use simple_sdn.Router.Primary.Stage9.{
  Gate, s9_target, save_auth, captive_gate, with_primary, s9_tunnel, s9_control, granted,
}
use simple_sdn.Router.Primary.Grant.{s9_control-rules, log_lines-flow_table}

abbrev portal : ℕ → Peer
portal port3 = record { addr = localhost; port = port3 }

-- A packet of a TCP flow to port 80 without a rule, of a user who is not authenticated.
pub record IsCaptive (stale : Stale) (b : Buffer) (g : Gate) : Type 0 where
  pub user : g.is_authenticated ≡ false
  pub tcp : ip_p b ≡ 6
  pub web : tcp_unpack b ≡ 80
  pub new : rule_for (entry_of_packet b stale.ports) g.primary.router.flow_table ≡ none

-- The primary router when it turns to the packet.
abbrev noted : Stale → ℕ → Buffer → Primary → Primary
noted stale port1 b p = record p {
  router = (icmp_forward_log b stale.ports stale.icmp from_tunnel port1 p.router).1;
  refresh = true;
}

captive-target :
    (stale : Stale) (port1 port2 port3 : ℕ) (b : Buffer) (g : Gate)
    → IsCaptive stale b g
    → s9_target stale g.is_authenticated port1 port2 port3 b ≡ portal port3
unfolding s9_target
captive-target stale port1 port2 port3 b g c = ground (arith, c.user, c.web)

captive-saves :
    (stale : Stale) (port1 : ℕ) (target : Peer) (b : Buffer) (g : Gate)
    → IsCaptive stale b g
    → captive_gate stale port1 target b g ≡ save_auth stale target b g
unfolding captive_gate
captive-saves stale port1 target b g c = ground (
  arith,
  c.user,
  c.tcp,
  c.web,
  logged-ip_p b stale.ports stale.icmp from_tunnel port1 g.primary.router,
  check-miss (entry_of_packet b stale.ports) stale.entry g.primary.router c.new,
)

tunnel_packet-fresh :
    (now : Timeval) (stale : Stale) (check : Text) (port1 port2 : ℕ) (target : Peer)
    (fresh : Primary → Primary × List Sent) (b : Buffer) (junk : ℕ) (p : Primary)
    → non_empty check ≡ false
    → ip_p b ≡ 6
    → tunnel_packet now stale false check port1 port2 target fresh b junk p
      ≡ goes_on
          (fresh (noted stale port1 b p)).0
          ((fresh (noted stale port1 b p)).1 ++ udp target (take 2048 b) ∷ [])
unfolding tunnel_packet
tunnel_packet-fresh now stale check port1 port2 target fresh b junk p n tcp =
    ground (arith, logged-ip_p b stale.ports stale.icmp from_tunnel port1 p.router)

abbrev ruled : Stale → Peer → Buffer → Primary → Primary
ruled stale target b p = record p { router = own_rules stale target b p.router }

new_flow_to-known :
    (now : Timeval) (stale : Stale) (target : Peer) (b : Buffer) (junk : ℕ) (p : Primary)
    → tcp_unpack b ≡ 80
    → new_flow_to now stale target b junk p ≡ (
      log_hit stale b (announce_both now stale target b junk (ruled stale target b p)).0,
      (announce_both now stale target b junk (ruled stale target b p)).1,
    )
unfolding new_flow_to
new_flow_to-known now stale target b junk p h = ground arith

own_message : Stale → Peer → Buffer → Router → OctaneControl
own_message stale target b r = (create_octane_msg b stale.ports 1 target.port false r).0.0

log_hit-flow_table :
    (stale : Stale) (b : Buffer) (p : Primary)
    → (log_hit stale b p).router.flow_table ≡ p.router.flow_table
unfolding log_hit log_check push_log
log_hit-flow_table stale b p = ground arith

announce_both-flow_table :
    (now : Timeval) (stale : Stale) (target : Peer) (b : Buffer) (junk : ℕ) (p : Primary)
    → (announce_both now stale target b junk p).0.router.flow_table ≡ p.router.flow_table
unfolding announce_both watch create_octane_msg create_reverse_octane_msg next_seqno
announce_both-flow_table now stale target b junk p = refl

own_rules-flow_table :
    (stale : Stale) (target : Peer) (b : Buffer) (r : Router)
    → (own_rules stale target b r).flow_table
      ≡ (db_insert (own_message stale target b r) 65535 r.flow_table).0
unfolding own_rules own_message create_octane_msg
own_rules-flow_table stale target b r = log_lines-flow_table _ _

own_message-flow :
    (stale : Stale) (target : Peer) (b : Buffer) (r : Router)
    → (entry_of_msg (own_message stale target b r) ≡ entry_of_packet b stale.ports)
      × (action_of_msg (own_message stale target b r)
          ≡ record { fwd_port = target.port; action = 1 })
unfolding own_message create_octane_msg entry_of_msg entry_of_packet action_of_msg
own_message-flow stale target b r = (refl, refl)

noted-flow_table :
    (stale : Stale) (port1 : ℕ) (b : Buffer) (p : Primary)
    → (noted stale port1 b p).router.flow_table ≡ p.router.flow_table
unfolding icmp_forward_log push_log
noted-flow_table stale port1 b p = ground arith

save_auth-flows :
    (stale : Stale) (target : Peer) (b : Buffer) (g : Gate)
    → (entry_of_msg (save_auth stale target b g).auth_msg ≡ entry_of_packet b stale.ports)
      × (entry_of_msg (save_auth stale target b g).auth_rev
          ≡ reverse (entry_of_packet b stale.ports))
      × ((save_auth stale target b g).is_authenticated ≡ g.is_authenticated)
unfolding save_auth create_octane_msg create_reverse_octane_msg entry_of_msg entry_of_packet reverse
save_auth-flows stale target b g = (refl, refl, refl)

-- The router after a captive flow's packet, and what it sends.
captive_primary : Timeval → Stale → ℕ → ℕ → Buffer → ℕ → Primary → Primary
captive_primary now stale port1 port3 b junk p =
    log_hit stale b
      (announce_both now stale (portal port3) b junk
        (ruled stale (portal port3) b (noted stale port1 b p))).0

captive_sent : Timeval → Stale → ℕ → ℕ → Buffer → ℕ → Primary → List Sent
captive_sent now stale port1 port3 b junk p =
    (announce_both now stale (portal port3) b junk
      (ruled stale (portal port3) b (noted stale port1 b p))).1
    ++ udp (portal port3) (take 2048 b) ∷ []

captive_primary-flow_table :
    (now : Timeval) (stale : Stale) (port1 port3 : ℕ) (b : Buffer) (junk : ℕ) (p : Primary)
    → (captive_primary now stale port1 port3 b junk p).router.flow_table
      ≡ (db_insert
          (own_message stale (portal port3) b (noted stale port1 b p).router)
          65535
          p.router.flow_table).0
unfolding captive_primary
captive_primary-flow_table now stale port1 port3 b junk p =
    let q = noted stale port1 b p in
    log_hit-flow_table stale b _
    ∙ announce_both-flow_table now stale (portal port3) b junk (ruled stale (portal port3) b q)
    ∙ own_rules-flow_table stale (portal port3) b q.router
    ∙ ap (λ t. (db_insert (own_message stale (portal port3) b q.router) 65535 t).0)
        (noted-flow_table stale port1 b p)

s9_tunnel-captive :
    (now : Timeval) (stale : Stale) (port1 port2 port3 : ℕ) (b : Buffer) (junk : ℕ) (g : Gate)
    → IsCaptive stale b g
    → s9_tunnel now stale false port1 port2 port3 b junk g
      ≡ goes_on
          (record (save_auth stale (portal port3) b g) {
            primary = captive_primary now stale port1 port3 b junk g.primary;
          })
          (captive_sent now stale port1 port3 b junk g.primary)
unfolding s9_tunnel captive_primary captive_sent
s9_tunnel-captive now stale port1 port2 port3 b junk g c =
    rw (captive-target stale port1 port2 port3 b g c) (
      rw (captive-saves stale port1 (portal port3) b g c) (
        rw
          (tunnel_packet-fresh now stale _ port1 port2 (portal port3)
            (new_flow_to now stale (portal port3) b junk) b junk g.primary
            (check-miss (entry_of_packet b stale.ports) stale.entry g.primary.router c.new) c.tcp)
          (rw
            (new_flow_to-known now stale (portal port3) b junk (noted stale port1 b g.primary)
              c.web)
            refl)))

-- The messages that install a flow and its reverse: the flow goes out at the router that gets them,
-- and the reverse flow goes to the port `back`.
pub record Installs (e : FlowEntry) (back : ℕ) (m m' : OctaneControl) : Type 0 where
  pub flow : entry_of_msg m ≡ e
  pub back_flow : entry_of_msg m' ≡ reverse e
  pub action : action_of_msg m ≡ record { fwd_port = 0; action = 1 }
  pub back_action : action_of_msg m' ≡ record { fwd_port = back; action = 1 }

captive_sent-portal :
    (now : Timeval) (stale : Stale) (port1 port3 : ℕ) (b : Buffer) (junk : ℕ) (p : Primary)
    → (m : OctaneControl) × (m' : OctaneControl) × Installs
        (entry_of_packet b stale.ports)
        (p.port_num % 65536)
        m
        m'
      × (captive_sent now stale port1 port3 b junk p
          ≡ udp (portal port3) (control_packet junk m)
            ∷ udp (portal port3) (control_packet junk m')
            ∷ udp (portal port3) (take 2048 b)
            ∷ [])
unfolding captive_sent announce_both create_octane_msg create_reverse_octane_msg entry_of_msg
    entry_of_packet reverse action_of_msg
captive_sent-portal now stale port1 port3 b junk p =
    let q = ruled stale (portal port3) b (noted stale port1 b p) in
    let ((m, seq), r) = create_octane_msg b stale.ports 1 0 true q.router in
    let ((m', seq'), r') = create_reverse_octane_msg m (p.port_num % 65536) true r in
    (m, m', record { flow = refl; back_flow = refl; action = refl; back_action = refl }, refl)

db_insert-Keys :
    (w : Bool) (m : OctaneControl) (port : ℕ) (t : FlowTable)
    → HasKind w (entry_of_msg m)
    → Keys (HasKind w) t
    → IsSorted entry_lt t
    → Keys (HasKind w) (db_insert m port t).0 × IsSorted entry_lt (db_insert m port t).0
unfolding db_insert
db_insert-Keys w m port t k ks s =
    let order = entry_lt-IsStrictOrder w in
    let keys = Keys-assign entry_lt (HasKind w) order (entry_of_msg m) (action_of_msg m) t k ks in
    let back = reverse-HasKind w (entry_of_msg m) k in
    (
      Keys-assign entry_lt (HasKind w) order (reverse (entry_of_msg m)) (reverse_action m port) _
          back keys,
      assign-IsSorted entry_lt (HasKind w) order (reverse (entry_of_msg m)) (reverse_action m port)
          _ back keys
          (assign-IsSorted entry_lt (HasKind w) order (entry_of_msg m) (action_of_msg m) t k ks s),
    )

captive_rule :
    (w : Bool) (stale : Stale) (port3 : ℕ) (b : Buffer) (r : Router) (t : FlowTable)
    → HasKind w (entry_of_packet b stale.ports)
    → Keys (HasKind w) t
    → entry_eq (entry_of_packet b stale.ports) (reverse (entry_of_packet b stale.ports)) ≡ false
    → rule_for
        (entry_of_packet b stale.ports)
        (db_insert (own_message stale (portal port3) b r) 65535 t).0
      ≡ some (record { fwd_port = port3; action = 1 })
captive_rule w stale port3 b r t k ks other =
    let (flow, action) = own_message-flow stale (portal port3) b r in
    let m = own_message stale (portal port3) b r in
    let e = entry_of_packet b stale.ports in
    rule_for-db_insert w e m 65535 t k (subst (HasKind w) (sym flow) k) ks
    ∙ ground (arith, flow, action, other, same_entry e)
