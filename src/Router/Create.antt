-- ===== src/Router/Create.antt =====
-- `createOctaneMsg` and `createReverseOctaneMsg` of cRouter.cpp.
use simple_sdn.Base.{
  ℕ, ◌+◌, ◌%◌, ◌<◌, ◌≡◌, ◌≢◌, Bool, true, false, if◌then◌else◌, Buffer, arith, refl,
}
use simple_sdn.Octane.{OctaneControl}
use simple_sdn.Packet.Unpack.{Ports, ip_unpack, entry_of_packet}
use simple_sdn.Flow.{entry_of_msg, reverse}
use simple_sdn.Router.{Router}

-- `m_iSeqnoCnt++` on a `uint16_t`.
unfoldable pub next_seqno : Router → Router
next_seqno r = record r { seqno_cnt = (r.seqno_cnt + 1) % 65536 }

-- `createOctaneMsg`: the message, the number that is returned and the router. `ports` is what the
-- uninitialised port variables hold.
unfoldable pub create_octane_msg :
    Buffer → Ports → ℕ → ℕ → Bool → Router → (OctaneControl × ℕ) × Router
unfolding ip_unpack next_seqno
create_octane_msg b ports action target_port truely_send r =
    let u = ip_unpack b ports in
    let msg : OctaneControl = record {
      octane_action = action;
      octane_flags = 0;
      octane_seqno = if truely_send then r.seqno_cnt else 0;
      octane_source_ip = u.src_addr;
      octane_dest_ip = u.dst_addr;
      octane_source_port = u.src_port;
      octane_dest_port = u.dst_port;
      octane_protocol = u.ip_type;
      octane_port = target_port;
    } in
    ((msg, r.seqno_cnt), if truely_send then next_seqno r else r)

-- `sTargetPort == -1` for a `uint16_t`: the port is compared with -1 as an int, which it never is.
abbrev pub is_minus_one : ℕ → Bool
is_minus_one port = false

-- `createReverseOctaneMsg`; a caller that leaves `sTargetPort` out passes 65535.
unfoldable pub create_reverse_octane_msg :
    OctaneControl → ℕ → Bool → Router → (OctaneControl × ℕ) × Router
unfolding next_seqno
create_reverse_octane_msg ori target_port truely_send r =
    let msg : OctaneControl = record {
      octane_action = ori.octane_action;
      octane_flags = 0;
      octane_seqno = if truely_send then r.seqno_cnt else 0;
      octane_source_ip = ori.octane_dest_ip;
      octane_dest_ip = ori.octane_source_ip;
      octane_source_port = ori.octane_dest_port;
      octane_dest_port = ori.octane_source_port;
      octane_protocol = ori.octane_protocol;
      octane_port = if is_minus_one target_port then ori.octane_port else target_port;
    } in
    ((msg, r.seqno_cnt), if truely_send then next_seqno r else r)

-- From a counter below 65536, the message created for a packet and the one created to reverse it,
-- both to be sent, are for the packet's flow and for the reverse flow and carry the two numbers
-- that are returned, which differ; the counter stays below 65536.
pub create_octane_msg_lem :
    (b : Buffer) (ports : Ports) (action port back : ℕ) (r : Router)
    → r.seqno_cnt < 65536
    → let ((msg, seqno), r') = create_octane_msg b ports action port true r in
      let ((rev, seqno'), r'') = create_reverse_octane_msg msg back true r' in
      (entry_of_msg msg ≡ entry_of_packet b ports)
      × (entry_of_msg rev ≡ reverse (entry_of_packet b ports))
      × (msg.octane_seqno ≡ seqno)
      × (rev.octane_seqno ≡ seqno')
      × (seqno ≢ seqno')
      × (r''.seqno_cnt < 65536)
unfolding create_octane_msg create_reverse_octane_msg entry_of_msg entry_of_packet reverse
create_octane_msg_lem b ports action port back r h =
    (refl, refl, refl, refl, ground arith, ground arith)
