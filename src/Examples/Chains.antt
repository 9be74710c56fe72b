-- ===== src/Examples/Chains.antt =====
-- A chain at a concrete flow to port 443: 10.0.2.15:4001 to 128.52.129.126:443.
use simple_sdn.Base.{
  ℕ, true, false, ◌≡◌, ◌≢◌, ◌<◌, ◌++◌, refl, [], ◌∷◌, arith, Buffer, replicate, take, inr, List,
}
use simple_sdn.Octane.{OctaneControl}
use simple_sdn.Flow.{FlowEntry, default_entry}
use simple_sdn.Flow.Order.{IsExact}
use simple_sdn.Flow.Table.{default_action}
use simple_sdn.Packet.Unpack.{Ports}
use simple_sdn.Timers.Manager.{timers_start}
use simple_sdn.Router.{Peer, udp}
use simple_sdn.Router.Forward.{localhost}
use simple_sdn.Router.Handler.{goes_on}
use simple_sdn.Router.Primary.{Primary, control_packet}
use simple_sdn.Router.Primary.Stage7.{s7_tunnel}
use simple_sdn.Router.Chain.{Node, IsNew, Linked, Forwards}
use simple_sdn.Router.Chain.Path.{chain_path}
use simple_sdn.Examples.Routers.{router, peer, stale}
use simple_sdn.Timers.Timeval.{Timeval}

abbrev pub here : List ℕ
here = 10 ∷ 0 ∷ 2 ∷ 15 ∷ []

abbrev pub there : List ℕ
there = 128 ∷ 52 ∷ 129 ∷ 126 ∷ []

abbrev pub head : List ℕ
head = 0x45 ∷ 0 ∷ 0 ∷ 40 ∷ 0 ∷ 0 ∷ 0 ∷ 0 ∷ 64 ∷ 6 ∷ 0 ∷ 0 ∷ []

abbrev pub tail : List ℕ
tail = replicate 16 0

abbrev pub https : Buffer
https = head ++ here ++ there ++ 15 ∷ 161 ∷ 1 ∷ 187 ∷ tail

abbrev https_back : Buffer
https_back = head ++ there ++ here ++ 1 ∷ 187 ∷ 15 ∷ 161 ∷ tail

abbrev flow : FlowEntry
flow = record {
  src_ip = 0x0F02000A;
  dst_ip = 0x7E813480;
  src_port = 0xA10F;
  dst_port = 0xBB01;
  protocol = 6;
}

flow-IsExact : IsExact flow
flow-IsExact = record {
  src_ip = ground arith;
  dst_ip = ground arith;
  src_port = ground arith;
  dst_port = ground arith;
  protocol = ground arith;
}

abbrev pub begin : Primary
begin = record {
  router = record router { router_id = 0; seqno_cnt = 1 };
  port_num = 4000;
  un_ack = [];
  timers = timers_start;
  refresh = true;
}

abbrev node : ℕ → Node
node id = record {
  stale = stale;
  primary = peer;
  peer = peer;
  session = record {
    router = record router { router_id = id; flow_table = (default_entry, default_action) ∷ [] };
    ori_src_addr = 0;
    peer = peer;
    refresh = false;
  };
}

node-IsNew : (id : ℕ) → IsNew (node id)
node-IsNew id = record {
  msg_bytes = refl;
  fresh = record { msg_count = refl; dropped_msg = refl; drop_after = ground arith };
  rules = (inr refl, tt);
}

abbrev first : Peer
first = record { addr = localhost; port = 5001 }

abbrev second : Peer
second = record { addr = localhost; port = 5002 }

abbrev pub noon : Timeval
noon = record { tv_sec = 100; tv_usec = 0 }

chain_path_example :
    (p' : Primary) × (m1 : OctaneControl) × (m2 : OctaneControl) × (m3 : OctaneControl)
    × (m4 : OctaneControl) × (s7_tunnel noon stale false 5001 5002 https 0 begin
        ≡ goes_on p' (
            udp first (control_packet 0 m1)
            ∷ udp first (control_packet 0 m2)
            ∷ udp second (control_packet 0 m3)
            ∷ udp second (control_packet 0 m4)
            ∷ udp first (take 2048 https)
            ∷ []))
    × ((l1 : Linked (node 1) m1 m2 0 flow 5002 4000) × Forwards stale peer https l1.after 5002
        × Forwards stale peer https_back l1.after 4000)
    × ((l2 : Linked (node 2) m3 m4 0 flow 0 5001) × Forwards stale peer https_back l2.after 5001)
unfolding simple_sdn.Packet.Unpack.entry_of_packet simple_sdn.Packet.Unpack.ip_unpack
    simple_sdn.Packet.Unpack.tcp_unpack simple_sdn.Base.htons simple_sdn.Flow.Table.Rules.rule_for
    simple_sdn.StdMap.find simple_sdn.Flow.entry_eq simple_sdn.Flow.reverse
chain_path_example =
    chain_path noon stale 5001 5002 https https https_back 0 begin (node 1) (node 2) refl refl refl
      flow-IsExact refl (ground arith) (ground arith) (ground arith) (ground arith) (ground arith)
      (ground arith) (node-IsNew 1) (node-IsNew 2) (ground arith) refl (ground arith) refl refl
