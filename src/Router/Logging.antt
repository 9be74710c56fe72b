-- ===== src/Router/Logging.antt =====
-- What the routers log: `icmpForward_log` of RouterPrim.cpp, and `close` and `writeLogFile` of
-- cRouter.cpp.
use simple_sdn.Base.{
  ◌≡◌, arith, ℕ, Bool, ◌==◌, ◌&&◌, leb, if◌then◌else◌, List, [], ◌∷◌, ◌++◌, Text, text, to_string,
  inet_ntoa, htons, Buffer, Option, none, some,
}
use simple_sdn.Flow.{FlowEntry}
use simple_sdn.Packet.Unpack.{Ports, IcmpOut, icmp_unpack, entry_of_packet}
use simple_sdn.Packet.Edit.{Source, from_tunnel, from_udp, from_raw_sock}
use simple_sdn.Packet.Header.{ip_p}
use simple_sdn.Router.{Router, push_log}

-- ", dst : <dst>, type : <type>" behind the source address.
addresses_text : IcmpOut → Text
unfolding inet_ntoa to_string
addresses_text out =
    inet_ntoa out.src_addr
    ++ text ", dst : "
    ++ inet_ntoa out.dst_addr
    ++ text ", type : "
    ++ to_string out.icmp_type

unfoldable pub icmp_line : Source → ℕ → IcmpOut → Text
unfolding addresses_text to_string
icmp_line from_tunnel port out = text "ICMP from tunnel, src: " ++ addresses_text out
icmp_line from_udp port out =
    text "ICMP from port : " ++ to_string port ++ text ", src: " ++ addresses_text out
icmp_line from_raw_sock port out = text "ICMP from raw sock, src: " ++ addresses_text out

flow_text : FlowEntry → Text
unfolding inet_ntoa to_string htons
flow_text e =
    text "("
    ++ inet_ntoa e.src_ip
    ++ text ", "
    ++ to_string (htons e.src_port)
    ++ text ", "
    ++ inet_ntoa e.dst_ip
    ++ text ", "
    ++ to_string (htons e.dst_port)
    ++ text ", "
    ++ to_string e.protocol
    ++ text ")"

unfoldable pub tcp_line : Source → ℕ → FlowEntry → Text
unfolding flow_text to_string
tcp_line from_tunnel port e = text "TCP from tunnel, " ++ flow_text e
tcp_line from_udp port e = text "TCP from port : " ++ to_string port ++ text "," ++ flow_text e
tcp_line from_raw_sock port e = text "TCP from raw sock, " ++ flow_text e

-- `icmpForward_log`: the protocol that it returns, and the router with the line of an ICMP packet,
-- or from stage 6 on of a TCP packet.
unfoldable pub icmp_forward_log : Buffer → Ports → IcmpOut → Source → ℕ → Router → ℕ × Router
icmp_forward_log b ports stale source port r =
    let (a, out) = icmp_unpack b stale in
    if a == 1
    then (1, push_log (icmp_line source port out) r)
    else if a == 6 && leb 6 r.stage
    then (6, push_log (tcp_line source port (entry_of_packet b ports)) r)
    else (a, r)

-- `icmpForward_log` returns the packet's protocol.
pub logged-ip_p :
    (b : Buffer) (ports : Ports) (stale : IcmpOut) (flag : Source) (port : ℕ) (r : Router)
    → (icmp_forward_log b ports stale flag port r).0 ≡ ip_p b
unfolding icmp_forward_log icmp_unpack
logged-ip_p b ports stale flag port r = ground arith

-- `writeLogFile`: the name of the file and, if it can be opened, its bytes.
unfoldable pub write_log_file : Bool → Router → Text × Option Text
unfolding to_string
write_log_file opens r = (
  text "stage" ++ to_string r.stage ++ text "." ++ text "r" ++ to_string r.router_id ++ text ".out",
  if opens then some (lines r.log) else none,
)
  where
    lines : List Text → Text
    lines [] = []
    lines (l ∷ ls) = l ++ 10 ∷ lines ls

-- `cRouter::close`.
unfoldable pub close : Bool → Router → Router × (Text × Option Text)
unfolding to_string
close opens r =
    let r' = push_log (text "router " ++ to_string r.router_id ++ text " closed") r in
    (r', write_log_file opens r')
