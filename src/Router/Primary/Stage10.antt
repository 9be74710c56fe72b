-- ===== src/Router/Primary/Stage10.antt =====
-- The handlers of `primaryRouter_s10`, which shares the flows between both secondary routers by
-- their source port.
use simple_sdn.Base.{ℕ, Bool, ◌==◌, ◌%◌, if◌then◌else◌, Buffer}
use simple_sdn.Flow.Table.{flow_check}
use simple_sdn.Packet.Unpack.{entry_of_packet, tcp_unpack, tcp_unpack_src}
use simple_sdn.Timers.Timeval.{Timeval}
use simple_sdn.Router.{Peer}
use simple_sdn.Router.Forward.{localhost}
use simple_sdn.Router.Handler.{Stale, Handled}
use simple_sdn.Router.Primary.{Primary}
use simple_sdn.Router.Primary.Stage6.{is_known, new_flow_to, tunnel_packet, s6_reply}

-- The router of a TCP packet: an even source port goes to the second.
unfoldable pub s10_target : Stale → ℕ → ℕ → Buffer → Peer
s10_target stale port1 port2 b = record {
  addr = localhost;
  port =
      if is_known (tcp_unpack b)
      then if tcp_unpack_src b % 2 == 0 then port2 else port1
      else stale.peer.port;
}

-- The handler of a packet from the tunnel.
unfoldable pub s10_tunnel : Timeval → Stale → Bool → ℕ → ℕ → Buffer → ℕ → Primary → Handled Primary
s10_tunnel now stale failed port1 port2 b junk p =
    let target = s10_target stale port1 port2 b in
    tunnel_packet now stale failed (flow_check (entry_of_packet b stale.ports) p.router.flow_table)
      port1 port2 target (new_flow_to now stale target b junk) b junk p

-- The handler of a packet from a secondary router.
unfoldable pub s10_reply : Stale → ℕ → Peer → Buffer → Primary → Handled Primary
s10_reply = s6_reply
