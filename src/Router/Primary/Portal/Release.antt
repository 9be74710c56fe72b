-- ===== src/Router/Primary/Portal/Release.antt =====
-- The captive flow of stage 9, from its first packet to the portal's grant.
use simple_sdn.Base.{
  ◌%◌, ℕ, Bool, true, false, ◌≡◌, ◌≢◌, sym, ◌∙◌, ap, subst, if◌then◌else◌, List, [], ◌∷◌, none,
  some, Buffer, take, arith,
}
use simple_sdn.StdMap.Laws.{Keys}
use simple_sdn.StdMap.Sorted.{IsSorted}
use simple_sdn.Octane.{OctaneControl}
use simple_sdn.Flow.{FlowEntry, entry_of_msg, reverse, entry_lt, entry_eq}
use simple_sdn.Flow.Order.{HasKind, reverse-HasKind}
use simple_sdn.Flow.Table.{FlowTable, db_insert}
use simple_sdn.Flow.Table.Rules.{rule_for}
use simple_sdn.Packet.Unpack.{entry_of_packet, octane_unpack}
use simple_sdn.Timers.Timeval.{Timeval}
use simple_sdn.Router.{Sent, udp}
use simple_sdn.Router.Handler.{Stale, goes_on}
use simple_sdn.Router.Second.Ruled.Install.{same_entry}
use simple_sdn.Router.Primary.{control_packet}
use simple_sdn.Router.Primary.Stage9.{Gate, save_auth, s9_tunnel, s9_control, granted}
use simple_sdn.Router.Primary.Grant.{s9_control-rules}
use simple_sdn.Router.Primary.Portal.{
  Installs, portal, IsCaptive, save_auth-flows, own_message, own_message-flow, noted,
  captive_primary, captive_primary-flow_table, captive_sent-portal, s9_tunnel-captive,
  db_insert-Keys, captive_rule,
}

module _ (w : Bool) (now : Timeval) (stale : Stale) (port1 port2 port3 : ℕ) (b : Buffer) (junk : ℕ)
    (g : Gate) (c : IsCaptive stale b g) (k : HasKind w (entry_of_packet b stale.ports))
    (ks : Keys (HasKind w) g.primary.router.flow_table)
    (s : IsSorted entry_lt g.primary.router.flow_table)
    (other : entry_eq (entry_of_packet b stale.ports) (reverse (entry_of_packet b stale.ports))
      ≡ false) where
  flow : FlowEntry
  flow = entry_of_packet b stale.ports

  captured : Gate
  captured = record (save_auth stale (portal port3) b g) {
    primary = captive_primary now stale port1 port3 b junk g.primary;
  }

  table_then : FlowTable
  table_then =
      (db_insert (own_message stale (portal port3) b (noted stale port1 b g.primary).router) 65535
        g.primary.router.flow_table).0

  captured-flow_table : captured.primary.router.flow_table ≡ table_then
  unfolding captured table_then
  captured-flow_table = captive_primary-flow_table now stale port1 port3 b junk g.primary

  table_then-Keys : Keys (HasKind w) table_then × IsSorted entry_lt table_then
  unfolding table_then
  table_then-Keys =
      let m = own_message stale (portal port3) b (noted stale port1 b g.primary).router in
      let same =
        (own_message-flow stale (portal port3) b (noted stale port1 b g.primary).router).0 in
      db_insert-Keys w m 65535 g.primary.router.flow_table (subst (HasKind w) (sym same) k) ks s

  captured-rule :
      rule_for flow captured.primary.router.flow_table
      ≡ some (record { fwd_port = port3; action = 1 })
  unfolding flow table_then
  captured-rule =
      ap (rule_for flow) captured-flow_table
      ∙ captive_rule w stale port3 b (noted stale port1 b g.primary).router
          g.primary.router.flow_table k ks other

  module _ (stale' : Stale) (junk' seqno : ℕ) (b' : Buffer) (m : OctaneControl)
      (unpacks : octane_unpack b' stale'.msg_bytes ≡ some (seqno, m)) (flags : m.octane_flags ≢ 1)
      (action : m.octane_action ≡ 5) (km : HasKind w (entry_of_msg (granted m))) where
    -- Where all flows are of one kind, in a sorted table, and the packet's flow is not its own
    -- reverse: the first packet of a TCP flow to port 80 of a user who is not authenticated goes to
    -- the portal at `port3`, after two control messages to it, one that the flow goes out there and
    -- one that the reverse flow comes back to the primary router's port, and the flow's rule sends
    -- to `port3`. When the portal then sends a control message with the action 5 that is no
    -- acknowledgement, the user is authenticated, and the flow has the rule of that message if it is
    -- about this flow or its reverse, and no rule otherwise.
    pub captive_released :
        (g' : Gate) × (g'' : Gate) × (x : OctaneControl) × (y : OctaneControl) × (sent : List Sent)
        × Installs (entry_of_packet b stale.ports) (g.primary.port_num % 65536) x y
        × (s9_tunnel now stale false port1 port2 port3 b junk g
            ≡ goes_on g' (
                udp (portal port3) (control_packet junk x)
                ∷ udp (portal port3) (control_packet junk y)
                ∷ udp (portal port3) (take 2048 b)
                ∷ []))
        × (rule_for (entry_of_packet b stale.ports) g'.primary.router.flow_table
            ≡ some (record { fwd_port = port3; action = 1 }))
        × (s9_control stale' port1 junk' b' g' ≡ goes_on g'' sent)
        × (g''.is_authenticated ≡ true)
        × (rule_for (entry_of_packet b stale.ports) g''.primary.router.flow_table ≡ (
            if entry_eq (entry_of_packet b stale.ports) (reverse (entry_of_msg (granted m)))
            then some (record { fwd_port = 0; action = 1 })
            else if entry_eq (entry_of_packet b stale.ports) (entry_of_msg (granted m))
            then some (record { fwd_port = m.octane_port; action = 1 })
            else none))
    unfolding flow captured
    captive_released =
        let (auth, rev, user) = save_auth-flows stale (portal port3) b g in
        let (keys, sorted) = table_then-Keys in
        let (x, y, installs, sends) = captive_sent-portal now stale port1 port3 b junk g.primary in
        let (g'', sent, e, is_auth, rules) =
          s9_control-rules w stale' port1 junk' seqno b' m captured unpacks flags action km
            (subst (HasKind w) (sym auth) k)
            (subst (HasKind w) (sym rev) (reverse-HasKind w flow k))
            (subst (Keys (HasKind w)) (sym captured-flow_table) keys)
            (subst (IsSorted entry_lt) (sym captured-flow_table) sorted) in
        (
          captured,
          g'',
          x,
          y,
          sent,
          installs,
          s9_tunnel-captive now stale port1 port2 port3 b junk g c ∙ ap (goes_on captured) sends,
          captured-rule,
          e,
          is_auth,
          rules flow k ∙ ground (arith, auth, same_entry (entry_of_packet b stale.ports)),
        )
