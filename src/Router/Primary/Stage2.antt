-- ===== src/Router/Primary/Stage2.antt =====
-- `primaryRouter` and the handlers of `primaryRouter_s2`, which stages 1, 2 and 3 run.
use simple_sdn.Base.{
  ℕ, Bool, ◌==◌, if◌then◌else◌, List, [], ◌∷◌, ◌++◌, Text, text, to_string, Buffer, take,
}
use simple_sdn.Packet.Edit.{from_tunnel, from_udp, icmp_reply_edit}
use simple_sdn.Router.{Router, Peer, Sent, udp, tunnel, push_log}
use simple_sdn.Router.Logging.{icmp_forward_log}
use simple_sdn.Router.Handler.{Stale, Handled, goes_on, exits}

-- `string sMsgRecv(buf)`: the bytes before the first 0.
unfoldable pub c_string : Buffer → Text
c_string [] = []
c_string (c ∷ b) = let rest = c_string b in if c == 0 then [] else c ∷ rest

-- `primaryRouter`: the log of the own port and of the secondary router, whose first message, in the
-- buffer `b`, is its process id.
unfoldable pub primary_router : ℕ → Peer → Buffer → Router → Router
unfolding c_string to_string
primary_router port_num rou2 b r =
    push_log (text "router: 1, pid: " ++ c_string b ++ text ", port: " ++ to_string rou2.port)
      (push_log (text "primary port: " ++ to_string port_num) r)

-- The handler of a packet from the tunnel; `failed` is `nread < 0`.
unfoldable pub s2_tunnel : Stale → Bool → Peer → Buffer → Router → Handled Router
s2_tunnel stale failed rou2 b r =
    let (a, r') = icmp_forward_log b stale.ports stale.icmp from_tunnel rou2.port r in
    if failed
    then exits
    else if a == 1
    then goes_on r' (udp rou2 (take 2048 b) ∷ [])
    else goes_on r' []

-- The handler of a packet of `nread` bytes from the secondary router.
unfoldable pub s2_reply : Stale → Bool → ℕ → Peer → Buffer → Router → Handled Router
s2_reply stale failed nread rou2 b r =
    let (a, r') = icmp_forward_log b stale.ports stale.icmp from_udp rou2.port r in
    if failed then exits else goes_on r' (tunnel (take nread b) ∷ [])

-- `icmpReply_primRouter`, which no stage calls.
unfoldable pub icmp_reply_prim : Buffer → ℕ → List Sent
icmp_reply_prim b nread = tunnel (take nread (icmp_reply_edit b)) ∷ []
