-- ===== src/Router/Second/Stage2.antt =====
-- `secondRouter`, `secondRouter_reqReg` and the handlers of `secondRouter_s2`, which stages 1, 2 and 3
-- run. Buffers have 2048 bytes.
use simple_sdn.Base.{
  ℕ, Bool, true, false, ◌==◌, ◌/=◌, if◌then◌else◌, [], ◌∷◌, ◌++◌, take, none, some, text, to_string,
  Buffer,
}
use simple_sdn.Packet.Unpack.{icmp_unpack, get_icmp_type}
use simple_sdn.Packet.Edit.{from_udp, from_raw_sock, icmp_replace_addr}
use simple_sdn.Router.{Router, Peer, udp, push_log}
use simple_sdn.Router.Logging.{icmp_forward_log}
use simple_sdn.Router.Forward.{packet_dst_check, icmp_reply, icmp_forward}
use simple_sdn.Router.Handler.{Stale, Handled, goes_on, exits, overrun}
use simple_sdn.Router.Second.{Session}
use simple_sdn.Router.Second.Plain.{mask_24}

-- `secondRouter_reqReg`: the router's id, and the line that it logs. The message to the primary
-- router is the text of `pid`.
unfoldable pub request_register : ℕ → ℕ → ℕ → Router → Router
unfolding to_string
request_register id pid port r =
    push_log
      (text "router: "
        ++ to_string id
        ++ text ", pid: "
        ++ to_string pid
        ++ text ", port: "
        ++ to_string port)
      (record r { router_id = id })

-- `secondRouter`, which does the same for the router 1.
unfoldable pub second_router : ℕ → ℕ → Router → Router
second_router = request_register 1

-- The handler of a packet from `peer`; `failed` is `nread < 0`. A packet that is not ICMP leaves the
-- timeout as it was.
unfoldable pub s2_udp : Stale → Bool → Peer → Buffer → Session → Handled Session
s2_udp stale failed peer b s =
    let (a, r) = icmp_forward_log b stale.ports stale.icmp from_udp peer.port s.router in
    let s' = record s { router = r; peer = peer; refresh = true } in
    let (proto, out) = icmp_unpack b stale.icmp in
    if failed
    then exits
    else if proto /= 1
    then goes_on (record s' { refresh = false }) []
    else if packet_dst_check out.dst_addr (text "10.5.51.0") mask_24 == 1
    then goes_on s' (icmp_reply b 2048 peer)
    else if s.router.stage == 3
    then elim (icmp_forward stale.icmp b) [
      | none ↦ overrun
      | some sent ↦ goes_on (record s' { ori_src_addr = out.src_addr }) sent
    ]
    else goes_on s' []

-- The handler of the raw socket in stage 3: an echo reply gets the address of the request's sender
-- and goes to the primary router. Only `getIcmpType` decides about the timeout.
unfoldable pub s3_raw : Stale → Buffer → Session → Handled Session
s3_raw stale b s =
    let (a, r) = icmp_forward_log b stale.ports stale.icmp from_raw_sock stale.peer.port s.router in
    let b' = (icmp_replace_addr s.ori_src_addr b from_raw_sock stale.addr).0 in
    if get_icmp_type b == 0
    then goes_on (record s { router = r }) (udp s.peer (take 2048 b') ∷ [])
    else goes_on (record s { refresh = false }) []
