-- ===== src/Router/Ping.antt =====
-- Stage 2 of both routers together: an echo request from the tunnel to the secondary router's own net
-- and its reply.
use simple_sdn.Base.{
  ℕ, suc, true, false, ◌≡◌, ◌<◌, ◌≤◌, ◌+◌, ◌∙◌, ap, sym, refl, [], ◌∷◌, some, text, Buffer, arith,
  length, take, load8, load32,
}
use simple_sdn.Packet.Header.{ip_p, ip_src, ip_dst, ip_header_len, payload_len}
use simple_sdn.Packet.Checksum.{short_count}
use simple_sdn.Packet.Unpack.{icmp_unpack}
use simple_sdn.Packet.Edit.{
  renew_ip_sum, swap_addresses, echo_reply, icmp_reply_edit, from_tunnel, from_udp,
}
use simple_sdn.Packet.Edit.Reply.{IsPacket, reads}
use simple_sdn.Packet.Edit.Echo.{icmp_reply_edit_lem}
use simple_sdn.Packet.Receive.{
  recv_msg, load8-recv_msg, count-recv_msg, load8-take, length-take_le, length-recv_msg,
}
use simple_sdn.Router.{Router, Peer, udp, tunnel}
use simple_sdn.Router.Logging.{icmp_forward_log, logged-ip_p}
use simple_sdn.Router.Forward.{packet_dst_check, icmp_reply}
use simple_sdn.Router.Handler.{Stale, goes_on}
use simple_sdn.Router.Second.{Session}
use simple_sdn.Router.Second.Plain.{mask_24}
use simple_sdn.Router.Second.Stage2.{s2_udp}
use simple_sdn.Router.Primary.Stage2.{s2_tunnel, s2_reply}

to_second :
    (stale : Stale) (rou2 : Peer) (b : Buffer) (r : Router)
    → ip_p b ≡ 1
    → (r' : Router) × (s2_tunnel stale false rou2 b r ≡ goes_on r' (udp rou2 (take 2048 b) ∷ []))
unfolding s2_tunnel
to_second stale rou2 b r p = (
  (icmp_forward_log b stale.ports stale.icmp from_tunnel rou2.port r).1,
  ground (arith, logged-ip_p b stale.ports stale.icmp from_tunnel rou2.port r),
)

answered :
    (stale : Stale) (peer : Peer) (b : Buffer) (s : Session)
    → ip_p b ≡ 1
    → packet_dst_check (ip_dst b) (text "10.5.51.0") mask_24 ≡ 1
    → (s' : Session) × (s2_udp stale false peer b s
        ≡ goes_on s' (udp peer (take 2048 (icmp_reply_edit b)) ∷ []))
unfolding s2_udp icmp_reply icmp_unpack
answered stale peer b s p d = (
  record s {
    router = (icmp_forward_log b stale.ports stale.icmp from_udp peer.port s.router).1;
    peer = peer;
    refresh = true;
  },
  ground arith,
)

to_tunnel :
    (stale : Stale) (nread : ℕ) (rou2 : Peer) (b : Buffer) (r : Router)
    → (r' : Router) × (s2_reply stale false nread rou2 b r
        ≡ goes_on r' (tunnel (take nread b) ∷ []))
unfolding s2_reply
to_tunnel stale nread rou2 b r = (_, refl)

-- The same first 1024 bytes.
abbrev Same1024 : Buffer → Buffer → Type 0
Same1024 b b' = (i : ℕ) → i < 1024 → load8 b i ≡ load8 b' i

received :
    (buffer b : Buffer)
    → 1024 ≤ length buffer
    → 2048 ≤ length b
    → Same1024 (recv_msg buffer (some (take 2048 b))).0 b
received buffer b room long i h =
    load8-recv_msg buffer (take 2048 b) i room
      (let all : length (take 2048 b) ≡ 2048 = length-take_le 2048 b long in omega (arith, all)) h
    ∙ load8-take 2048 i b (omega arith)

length-renew_ip_sum : (b : Buffer) → length (renew_ip_sum b) ≡ length b
unfolding renew_ip_sum
length-renew_ip_sum b = simp reads

length-swap_addresses : (b : Buffer) → length (swap_addresses b) ≡ length b
unfolding swap_addresses
length-swap_addresses b = simp reads

length-echo_reply : (b : Buffer) → length (echo_reply b) ≡ length b
unfolding echo_reply
length-echo_reply b = simp reads

length-icmp_reply_edit : (b : Buffer) → length (icmp_reply_edit b) ≡ length b
unfolding icmp_reply_edit
length-icmp_reply_edit b = ground (
  arith,
  length-renew_ip_sum (swap_addresses (echo_reply b)),
  length-swap_addresses (echo_reply b),
  length-echo_reply b,
)

-- The header's fields that the routers read are among the first 1024 bytes.
header-same :
    (b b' : Buffer)
    → Same1024 b b'
    → (ip_p b ≡ ip_p b')
      × (ip_src b ≡ ip_src b')
      × (ip_dst b ≡ ip_dst b')
      × (ip_header_len b ≡ ip_header_len b')
      × (payload_len b ≡ payload_len b')
unfolding payload_len
header-same b b' h =
    let at : (i : ℕ) → i < 20 → load8 b i ≡ load8 b' i = λ i k. h i (omega arith) in
    let e0 = at 0 (omega arith) in
    let e2 = at 2 (omega arith) in
    let e3 = at 3 (omega arith) in
    let word : (i : ℕ) → i + 3 < 20 → load32 b i ≡ load32 b' i = λ i k. omega (
      arith,
      at i (omega arith),
      at (suc i) (omega arith),
      at (suc (suc i)) (omega arith),
      at (suc (suc (suc i))) (omega arith),
    ) in
    (
      at 9 (omega arith),
      word 12 (omega arith),
      word 16 (omega arith),
      rw e0 refl,
      rw (e0, e2, e3) refl,
    )

-- What the primary router writes has the header and the first bytes of what was sent.
written :
    (edited buffer : Buffer)
    → length edited ≡ 2048
    → length buffer ≡ 2048
    → Same1024 (take 1024 (recv_msg buffer (some (take 2048 edited))).0) edited
written edited buffer size room i h =
    load8-take 1024 i _ h ∙ received buffer edited (omega (arith, room)) (omega (arith, size)) i h

header_len-lt : (b : Buffer) → ip_header_len b < 1024
header_len-lt b = omega arith

-- An ICMP packet from the tunnel to the net 10.5.51.0/24 goes to the secondary router, whose answer
-- the primary router writes to the tunnel: its addresses are the packet's, exchanged, and its type is
-- an echo reply's. Buffers have 2048 bytes; the secondary router's one holds bytes that make a packet
-- with an ICMP message of at least four bytes.
pub ping_answered :
    (stale stale' : Stale) (rou2 peer : Peer) (b buffer buffer' : Buffer) (r : Router) (s : Session)
    → ip_p b ≡ 1
    → length b ≡ 2048
    → length buffer ≡ 2048
    → length buffer' ≡ 2048
    → IsPacket (recv_msg buffer (some (take 2048 b))).0
    → 4 ≤ short_count (payload_len b)
    → packet_dst_check (ip_dst b) (text "10.5.51.0") mask_24 ≡ 1
    → let request = (recv_msg buffer (some (take 2048 b))).0 in
      (r' : Router) × (s' : Session) × (reply : Buffer) × (s2_tunnel stale false rou2 b r
        ≡ goes_on r' (udp rou2 (take 2048 b) ∷ []))
      × (s2_udp stale' false peer request s ≡ goes_on s' (udp peer reply ∷ []))
      × (let (out, nread) = recv_msg buffer' (some reply) in
          (nread ≡ some 1024)
          × ((r'' : Router) × (w : Buffer) × (s2_reply stale false 1024 rou2 out r'
                ≡ goes_on r'' (tunnel w ∷ []))
              × (ip_src w ≡ ip_dst b)
              × (ip_dst w ≡ ip_src b)
              × (load8 w (ip_header_len b) ≡ 0)))
ping_answered stale stale' rou2 peer b buffer buffer' r s p long room room' packet many inside =
    let request = (recv_msg buffer (some (take 2048 b))).0 in
    let same = received buffer b (omega arith) (omega arith) in
    let (p', src, dst, len, pay) = header-same request b same in
    let (r', out) = to_second stale rou2 b r p in
    let (s', back) = answered stale' peer request s (p' ∙ p) (rw dst inside) in
    let size : length request ≡ 2048 = length-recv_msg buffer (take 2048 b) ∙ room in
    let (e_src, e_dst, e_type, e_sum, e_icmp) =
      icmp_reply_edit_lem request packet (p' ∙ p) (omega (arith, size)) (rw pay many) in
    let edited = icmp_reply_edit request in
    let full : length edited ≡ 2048 = length-icmp_reply_edit request ∙ size in
    let kept = written edited buffer' full room' in
    let (w_p, w_src, w_dst, w_len, w_pay) = header-same _ edited kept in
    let (r'', last) = to_tunnel stale 1024 rou2 _ r' in
    (
      r',
      s',
      take 2048 (icmp_reply_edit request),
      out,
      back,
      (
        count-recv_msg buffer' (take 2048 edited) (
            let all : length (take 2048 edited) ≡ 2048 =
              length-take_le 2048 edited (omega (arith, full)) in
            omega (arith, all)),
        (
          r'',
          _,
          last,
          w_src ∙ e_src ∙ dst,
          w_dst ∙ e_dst ∙ src,
          kept (ip_header_len b) (header_len-lt b) ∙ ap (load8 edited) (sym len) ∙ e_type,
        ),
      ),
    )
