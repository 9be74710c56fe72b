-- ===== src/Examples/Grants.antt =====
-- The portal's grant at a concrete message: the web flow of 10.0.2.15:4001 to 128.52.129.126.
use simple_sdn.Base.{
  ℕ, ◌++◌, take, true, false, ◌≡◌, ◌<◌, refl, [], ◌∷◌, none, some, arith, Buffer, replicate, inl,
  inr, List, if◌then◌else◌,
}
use simple_sdn.Octane.{OctaneControl}
use simple_sdn.Octane.Bytes.{IsMsg}
use simple_sdn.Flow.{FlowEntry, entry_of_msg, entry_eq, reverse, default_entry}
use simple_sdn.Flow.Order.{IsExact, HasKind}
use simple_sdn.Flow.Table.{default_action}
use simple_sdn.Flow.Table.Rules.{rule_for}
use simple_sdn.Packet.Build.{octane_unpack-build_ip_packet}
use simple_sdn.Packet.Unpack.{entry_of_packet}
use simple_sdn.Router.{Sent, Peer, udp}
use simple_sdn.Router.Forward.{localhost}
use simple_sdn.Router.Handler.{goes_on}
use simple_sdn.Router.Primary.{control_packet}
use simple_sdn.Router.Primary.Stage9.{Gate, granted, s9_control, s9_tunnel}
use simple_sdn.Router.Primary.Portal.{IsCaptive, Installs}
use simple_sdn.Router.Primary.Portal.Release.{captive_released}
use simple_sdn.Router.Primary.Grant.{s9_control-rules}
use simple_sdn.Examples.Routers.{stale}
use simple_sdn.Examples.Chains.{begin, here, there, head, tail, noon}

-- The portal's message, with the source address in host order.
abbrev portal : OctaneControl
portal = record {
  octane_action = 5;
  octane_flags = 0;
  octane_seqno = 9;
  octane_source_ip = 0x0A00020F;
  octane_dest_ip = 0x7E813480;
  octane_source_port = 0xA10F;
  octane_dest_port = 0x5000;
  octane_protocol = 6;
  octane_port = 5001;
}

-- The kept message of the captive flow, from another port.
abbrev captive : OctaneControl
captive = record portal {
  octane_action = 1;
  octane_source_ip = 0x0F02000A;
  octane_source_port = 0xA00F;
  octane_port = 5003;
}

abbrev captive_back : OctaneControl
captive_back = record captive {
  octane_source_ip = 0x7E813480;
  octane_dest_ip = 0x0F02000A;
  octane_source_port = 0x5000;
  octane_dest_port = 0xA00F;
}

portal-IsMsg : IsMsg portal
portal-IsMsg = record {
  action = ground arith;
  flags = ground arith;
  seqno = ground arith;
  source_ip = ground arith;
  dest_ip = ground arith;
  source_port = ground arith;
  dest_port = ground arith;
  protocol = ground arith;
  port = ground arith;
}

granted-IsExact : IsExact (entry_of_msg (granted portal))
unfolding entry_of_msg granted simple_sdn.Base.htonl
granted-IsExact = record {
  src_ip = ground arith;
  dst_ip = ground arith;
  src_port = ground arith;
  dst_port = ground arith;
  protocol = ground arith;
}

captive-IsExact : IsExact (entry_of_msg captive)
unfolding entry_of_msg
captive-IsExact = record {
  src_ip = ground arith;
  dst_ip = ground arith;
  src_port = ground arith;
  dst_port = ground arith;
  protocol = ground arith;
}

captive_back-IsExact : IsExact (entry_of_msg captive_back)
unfolding entry_of_msg
captive_back-IsExact = record {
  src_ip = ground arith;
  dst_ip = ground arith;
  src_port = ground arith;
  dst_port = ground arith;
  protocol = ground arith;
}

abbrev gate : Gate
gate = record {
  primary = record begin {
    router = record begin.router { flow_table = (default_entry, default_action) ∷ [] };
  };
  is_authenticated = false;
  auth_msg = captive;
  auth_rev = captive_back;
}

abbrev grant : Buffer
grant = control_packet 0 portal

s9_control-rules_example :
    (g' : Gate) × (sent : List Sent) × (s9_control stale 5001 0 grant gate ≡ goes_on g' sent)
    × (g'.is_authenticated ≡ true)
    × ((e : FlowEntry)
        → HasKind false e
        → rule_for e g'.primary.router.flow_table ≡ (
            if entry_eq e (reverse (entry_of_msg (granted portal)))
            then some (record { fwd_port = 0; action = 1 })
            else if entry_eq e (entry_of_msg (granted portal))
            then some (record { fwd_port = 5001; action = 1 })
            else if entry_eq e (entry_of_msg captive_back)
            then none
            else if entry_eq e (entry_of_msg captive)
            then none
            else rule_for e gate.primary.router.flow_table))
unfolding control_packet
s9_control-rules_example =
    s9_control-rules false stale 5001 0 9 grant portal gate
      (octane_unpack-build_ip_packet (replicate 2048 0) 2048 localhost localhost 0 portal
        (replicate 20 0) portal-IsMsg (ground arith) (ground arith) refl)
      (ground arith) refl (inl granted-IsExact) (inl captive-IsExact) (inl captive_back-IsExact)
      (inr refl, tt) (tt, tt)

-- A packet of the user's web flow.
abbrev http : Buffer
http = head ++ here ++ there ++ 15 ∷ 161 ∷ 0 ∷ 80 ∷ tail

http-IsExact : IsExact (entry_of_packet http stale.ports)
unfolding entry_of_packet simple_sdn.Packet.Unpack.ip_unpack
http-IsExact = record {
  src_ip = ground arith;
  dst_ip = ground arith;
  src_port = ground arith;
  dst_port = ground arith;
  protocol = ground arith;
}

http-IsCaptive : IsCaptive stale http gate
unfolding entry_of_packet simple_sdn.Packet.Unpack.ip_unpack rule_for simple_sdn.StdMap.find
    simple_sdn.Flow.entry_lt simple_sdn.Flow.less_masked simple_sdn.Flow.less_exact
    simple_sdn.Flow.is_wild simple_sdn.Packet.Unpack.tcp_unpack
http-IsCaptive = record { user = refl; tcp = refl; web = refl; new = refl }

abbrev at_portal : Peer
at_portal = record { addr = localhost; port = 5003 }

captive_released_example :
    (g' : Gate) × (g'' : Gate) × (x : OctaneControl) × (y : OctaneControl) × (sent : List Sent)
    × Installs (entry_of_packet http stale.ports) 4000 x y
    × (s9_tunnel noon stale false 5001 5002 5003 http 0 gate
        ≡ goes_on g' (
            udp at_portal (control_packet 0 x)
            ∷ udp at_portal (control_packet 0 y)
            ∷ udp at_portal (take 2048 http)
            ∷ []))
    × (rule_for (entry_of_packet http stale.ports) g'.primary.router.flow_table
        ≡ some (record { fwd_port = 5003; action = 1 }))
    × (s9_control stale 5001 0 grant g' ≡ goes_on g'' sent)
    × (g''.is_authenticated ≡ true)
    × (rule_for (entry_of_packet http stale.ports) g''.primary.router.flow_table
        ≡ some (record { fwd_port = 5001; action = 1 }))
unfolding control_packet entry_of_packet simple_sdn.Packet.Unpack.ip_unpack entry_eq reverse
    entry_of_msg granted simple_sdn.Base.htonl
captive_released_example =
    captive_released false noon stale 5001 5002 5003 http 0 gate http-IsCaptive (inl http-IsExact)
      (inr refl, tt) (tt, tt) refl stale 0 9 grant portal
      (octane_unpack-build_ip_packet (replicate 2048 0) 2048 localhost localhost 0 portal
        (replicate 20 0) portal-IsMsg (ground arith) (ground arith) refl)
      (ground arith) refl (inl granted-IsExact)
