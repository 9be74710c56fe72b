-- ===== src/Router/Forward.antt =====
-- The forwarding of RouterSecond.cpp: `packetDstCheck`, `icmpForward_secondRouter`,
-- `tcpForward_secondRouter` and `octaneRulesController`.
use Prim.Native.Nat.{bit_and}
use simple_sdn.Base.{
  ℕ, ◌+◌, ◌==◌, ltb, leb, if◌then◌else◌, List, [], ◌∷◌, Option, none, some, Text, inet_ntoa, Buffer,
  drop, take, length,
}
use simple_sdn.StdMap
use simple_sdn.Config.Entries.{text_eq}
use simple_sdn.Flow.{FlowEntry, FlowAction, entry_lt}
use simple_sdn.Flow.Table.{FlowTable, table_find, table_assign}
use simple_sdn.Packet.Header.{ip_header_len, payload_len}
use simple_sdn.Packet.Unpack.{IcmpOut, icmp_unpack_hdr, ip_unpack}
use simple_sdn.Packet.Edit.{icmp_reply_edit, renew_tcp_sum}
use simple_sdn.Router.{Router, Peer, Sent, udp, raw_icmp, raw_tcp}

-- `packetDstCheck`: 1 if the address, cut by the mask, is the target. `mask` is the address that
-- `inet_aton` makes of the mask's text.
unfoldable pub packet_dst_check : ℕ → Text → ℕ → ℕ
unfolding inet_ntoa
packet_dst_check addr target mask = if text_eq target (inet_ntoa (bit_and mask addr)) then 1 else 0

-- The part of the packet behind its header that `sendmsg` is given: the length is a `short`, and a
-- negative one is a size that `sendmsg` refuses, so that nothing is sent. `none` is a length that
-- reaches beyond the buffer.
unfoldable pub payload : Buffer → Option (Option Buffer)
payload b =
    if ltb 32767 (payload_len b)
    then some none
    else if ltb (length b) (ip_header_len b + payload_len b)
    then none
    else some (some (take (payload_len b) (drop (ip_header_len b) b)))

-- `icmpForward_secondRouter`, both overloads: the ICMP message goes to the packet's destination.
-- `stale` are the uninitialised addresses, which a packet that is not ICMP leaves alone.
unfoldable pub icmp_forward : IcmpOut → Buffer → Option (List Sent)
icmp_forward stale b =
    let (a, hdr, out) = icmp_unpack_hdr b [] stale in
    elim (payload b) [
      | none ↦ none
      | some none ↦ some []
      | some (some p) ↦ some (raw_icmp out.dst_addr p ∷ [])
    ]

-- `tcpForward_secondRouter`: the packet with its TCP checksum renewed for the router's own address,
-- in a pseudo buffer of 2048 bytes, and the segment sent. `none` is a copy or a read beyond a
-- buffer.
unfoldable pub tcp_forward : ℕ → Buffer → Option (Buffer × List Sent)
tcp_forward external_addr b =
    let dst = (ip_unpack b (record { src_port = 0; dst_port = 0 })).dst_addr in
    elim (renew_tcp_sum 2048 external_addr b) [
      | none ↦ none
      | some b' ↦ elim (payload b') [
        | none ↦ none
        | some none ↦ some (b', [])
        | some (some p) ↦ some (b', raw_tcp dst p ∷ [])
      ]
    ]

-- `icmpReply_secondRouter`: the first `size` bytes of the reply.
unfoldable pub icmp_reply : Buffer → ℕ → Peer → List Sent
icmp_reply b size peer = udp peer (take size (icmp_reply_edit b)) ∷ []

-- The result of `octaneRulesController`: 0, the port, -1 and -2.
pub data Ruled : Type 0 where
  sent_out : Ruled
  sent_to : ℕ → Ruled
  handled wrong : Ruled

-- What a call leaves: its result, what it sends and the flow table of its copy of the router.
pub record Ruling : Type 0 where
  pub ruled : Ruled
  pub sent : List Sent
  pub copy : FlowTable

-- `inet_addr("127.0.0.1")`.
abbrev pub localhost : ℕ
localhost = 16777343

unfoldable pub forward_rule :
    FlowEntry → FlowAction → FlowTable → Buffer → ℕ → IcmpOut → ℕ → Option Ruling
forward_rule entry action copy b size stale external_addr =
    if action.fwd_port == 0
    then if entry.protocol == 1
      then elim (icmp_forward stale b) [
        | none ↦ none
        | some s ↦ some (record { ruled = sent_out; sent = s; copy = copy })
      ]
      else if entry.protocol == 6
      then elim (tcp_forward external_addr b) [
        | none ↦ none
        | some (b', s) ↦ some (record { ruled = sent_out; sent = s; copy = copy })
      ]
      else some (record { ruled = sent_out; sent = []; copy = copy })
    else if leb action.fwd_port 0
    then some (record { ruled = wrong; sent = []; copy = copy })
    else some (record {
      ruled = sent_to action.fwd_port;
      sent = udp (record { addr = localhost; port = action.fwd_port }) (take size b) ∷ [];
      copy = copy;
    })

-- `octaneRulesController`. The router comes by value: `m_mTable[entry]`, which inserts a missing
-- entry with the uninitialised action `stale_action`, and `erase` work on a copy of the table.
unfoldable pub octane_rules_controller :
    FlowAction → IcmpOut → FlowEntry → Router → Buffer → ℕ → Peer → ℕ → Option Ruling
octane_rules_controller stale_action stale entry r b size peer external_addr =
    let (action, copy) : FlowAction × FlowTable = elim (table_find entry r.flow_table) [
      | none ↦ (stale_action, table_assign entry stale_action r.flow_table)
      | some (k, a) ↦ (a, r.flow_table)
    ] in
    if action.action == 1
    then forward_rule entry action copy b size stale external_addr
    else if action.action == 2
    then some (record { ruled = handled; sent = icmp_reply b size peer; copy = copy })
    else if action.action == 3
    then some (record { ruled = handled; sent = []; copy = copy })
    else if action.action == 4
    then some (record { ruled = handled; sent = []; copy = StdMap.erase entry_lt entry copy })
    else some (record { ruled = wrong; sent = []; copy = copy })
