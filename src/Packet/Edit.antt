-- ===== src/Packet/Edit.antt =====
-- The functions of network.cpp that change a packet in place.
pub mod Reply
pub mod Echo
use simple_sdn.Base.{
  ℕ, ◌+◌, ◌*◌, ◌-◌, ◌/◌, ◌%◌, Bool, Option, none, some, List, [], ◌∷◌, ◌++◌, ◌==◌, ◌/=◌, ltb,
  if◌then◌else◌, Buffer, load8, load16, store8, store16, bytes16, bytes32, htons, drop, take,
}
use simple_sdn.Packet.Checksum.{checksum, short_count}
use simple_sdn.Packet.Header.{
  ip_header_len, ip_len, ip_p, ip_src, ip_dst, set_ip_sum, set_ip_src, set_ip_dst, payload_len,
}

-- `ip_sum = 0; ip_sum = checksum(header)`.
unfoldable pub renew_ip_sum : Buffer → Buffer
renew_ip_sum b = let b' = set_ip_sum b 0 in set_ip_sum b' (checksum b' (ip_header_len b'))

-- `tempAddr = ip_dst; ip_dst = ip_src; ip_src = tempAddr`.
unfoldable pub swap_addresses : Buffer → Buffer
swap_addresses b = set_ip_src (set_ip_dst b (ip_src b)) (ip_dst b)

-- The ICMP part of `icmpReply_Edit(buffer)`: the type becomes ECHOREPLY and the checksum is
-- renewed.
unfoldable pub echo_reply : Buffer → Buffer
echo_reply b =
    let at = ip_header_len b in
    let b' = store16 (store8 b at 0) (at + 2) 0 in
    store16 b' (at + 2) (checksum (drop at b') (short_count (payload_len b')))

-- `icmpReply_Edit(buffer)`.
unfoldable pub icmp_reply_edit : Buffer → Buffer
icmp_reply_edit b = if ip_p b /= 1 then b else renew_ip_sum (swap_addresses (echo_reply b))

-- `octaneReply_Edit`: the acknowledgement flag.
unfoldable pub octane_reply_edit : Buffer → Buffer
octane_reply_edit b = if ip_p b /= 253 then b else store8 b (ip_header_len b + 1) 1

-- `ipChangeProtocol`.
unfoldable pub ip_change_protocol : Buffer → ℕ → Buffer
ip_change_protocol b protocol = renew_ip_sum (store8 (swap_addresses b) 9 protocol)

-- Where a packet came from.
pub data Source : Type 0 where
  from_tunnel from_udp from_raw_sock : Source

-- `icmpReply_Edit(AddrForReplace, buffer, iFlag)`: the packet and the address that was replaced;
-- `stale` is the uninitialised `replacedAddr`, returned for any other flag.
unfoldable pub icmp_replace_addr : ℕ → Buffer → Source → ℕ → Buffer × ℕ
icmp_replace_addr addr b from_udp stale =
    if ip_p b /= 1 then (b, ip_src b) else (renew_ip_sum (set_ip_src b addr), ip_src b)
icmp_replace_addr addr b from_raw_sock stale =
    if ip_p b /= 1 then (b, ip_src b) else (renew_ip_sum (set_ip_dst b addr), ip_dst b)
icmp_replace_addr addr b from_tunnel stale = if ip_p b /= 1 then (b, ip_src b) else (b, stale)

-- `struct psdhdr`.
unfoldable pub pseudo_header : ℕ → ℕ → ℕ → ℕ → List ℕ
pseudo_header saddr daddr protocol tcpl =
    bytes32 saddr ++ bytes32 daddr ++ 0 ∷ protocol ∷ bytes16 (htons tcpl)

-- The TCP checksum of both TCP functions over a pseudo buffer of `room` bytes: `check` is zeroed,
-- the segment is copied behind the pseudo header and the sum of both is stored. `none` is a copy
-- that overruns the pseudo buffer (a negative length is a huge `size_t`).
unfoldable pub renew_tcp_sum : ℕ → ℕ → Buffer → Option Buffer
renew_tcp_sum room saddr b =
    let at = ip_header_len b in
    let len = payload_len b in
    let b' = store16 b (at + 16) 0 in
    let psd = pseudo_header saddr (ip_dst b) (ip_p b) len ++ take len (drop at b') in
    if ltb room (12 + len)
    then none
    else some (store16 b' (at + 16) (checksum psd (short_count (len + 12))))

-- `tcpReply_Edit`: the packet and its total length. The pseudo buffer has 65535 bytes; a length
-- of 32768 or more is a negative `short`.
unfoldable pub tcp_reply_edit : ℕ → Buffer → Option (Buffer × ℕ)
tcp_reply_edit ori_src_addr b =
    let b' = renew_ip_sum (set_ip_dst b ori_src_addr) in
    if ltb 32767 (payload_len b') then none else elim (renew_tcp_sum 65535 (ip_src b') b') [
      | none ↦ none
      | some b'' ↦ some (b'', htons (ip_len b''))
    ]
