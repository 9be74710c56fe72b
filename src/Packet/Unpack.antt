-- ===== src/Packet/Unpack.antt =====
-- The functions of network.cpp that read a packet. An output parameter that a function leaves alone
-- keeps the value that the caller passes; an uninitialised local of the caller is that value.
use simple_sdn.Base.{
  ℕ, Option, none, some, List, ◌+◌, ◌-◌, ◌==◌, ◌/=◌, ltb, if◌then◌else◌, Buffer, load8, load16,
  htons, drop, take, memcpy, ◌%◌,
}
use simple_sdn.Octane.{OctaneControl}
use simple_sdn.Octane.Bytes.{msg_of_bytes}
use simple_sdn.Flow.{FlowEntry}
use simple_sdn.Packet.Header.{ip_header_len, ip_len, ip_p, ip_src, ip_dst}

pub record Unpacked : Type 0 where
  pub src_addr : ℕ
  pub dst_addr : ℕ
  pub src_port : ℕ
  pub dst_port : ℕ
  pub ip_type : ℕ

-- The two ports of a caller that has not set them.
pub record Ports : Type 0 where
  pub src_port : ℕ
  pub dst_port : ℕ

-- `ipUnpack`: the ports are set for ICMP and TCP only.
unfoldable pub ip_unpack : Buffer → Ports → Unpacked
ip_unpack b ports = record {
  src_addr = ip_src b;
  dst_addr = ip_dst b;
  src_port =
      if ip_p b == 1
      then 0xFFFF
      else if ip_p b == 6
      then load16 b (ip_header_len b)
      else ports.src_port;
  dst_port =
      if ip_p b == 1
      then 0xFFFF
      else if ip_p b == 6
      then load16 b (ip_header_len b + 2)
      else ports.dst_port;
  ip_type = ip_p b;
}

-- `flow_entry(char *buffer)`.
unfoldable pub entry_of_packet : Buffer → Ports → FlowEntry
unfolding ip_unpack
entry_of_packet b ports =
    let u = ip_unpack b ports in
    record {
      src_ip = u.src_addr;
      dst_ip = u.dst_addr;
      src_port = u.src_port;
      dst_port = u.dst_port;
      protocol = u.ip_type;
    }

-- The output parameters of `icmpUnpack`.
pub record IcmpOut : Type 0 where
  pub src_addr : ℕ
  pub dst_addr : ℕ
  pub icmp_type : ℕ

-- `icmpUnpack(buffer, srcAddr, dstAddr, icmp_type)`: the protocol number, and the addresses for
-- ICMP and TCP packets.
unfoldable pub icmp_unpack : Buffer → IcmpOut → ℕ × IcmpOut
icmp_unpack b out =
    if ip_p b /= 1
    then (
      ip_p b,
      if ip_p b == 6 then record out { src_addr = ip_src b; dst_addr = ip_dst b } else out,
    )
    else (
      1,
      record { src_addr = ip_src b; dst_addr = ip_dst b; icmp_type = load8 b (ip_header_len b) },
    )

-- `icmpUnpack` with an `icmphdr`: the eight bytes of the ICMP header are copied out too.
unfoldable pub icmp_unpack_hdr : Buffer → List ℕ → IcmpOut → ℕ × List ℕ × IcmpOut
icmp_unpack_hdr b hdr out = if ip_p b /= 1 then (0, hdr, out) else (
  1,
  take 8 (drop (ip_header_len b) b),
  record { src_addr = ip_src b; dst_addr = ip_dst b; icmp_type = load8 b (ip_header_len b) },
)

-- `tcpUnpack`: the destination port in host order, 0 if the packet is not TCP.
unfoldable pub tcp_unpack : Buffer → ℕ
unfolding htons
tcp_unpack b = if ip_p b /= 6 then 0 else htons (load16 b (ip_header_len b + 2))

-- `tcpUnpackSrc`: the source port.
unfoldable pub tcp_unpack_src : Buffer → ℕ
unfolding htons
tcp_unpack_src b = if ip_p b /= 6 then 0 else htons (load16 b (ip_header_len b))

-- `getIcmpType`: -1 as an unsigned byte if the packet is not ICMP.
unfoldable pub get_icmp_type : Buffer → ℕ
get_icmp_type b = if ip_p b /= 1 then 255 else load8 b (ip_header_len b)

-- The header length that `octaneUnpack` goes by.
abbrev pub octane_header_len : Buffer → ℕ
octane_header_len b = if ip_header_len b == 0 then 20 else ip_header_len b

-- The bit pattern of its `short iOctaneTotLen`.
unfoldable pub octane_len : Buffer → ℕ
unfolding htons
octane_len b =
    if ip_len b == 0 then 20 else (htons (ip_len b) + 65536 - octane_header_len b) % 65536

-- `octaneUnpack` into a message whose bytes are `out`: `none` is a copy that overruns the 20 bytes
-- of the message (a negative length is a huge `size_t`). The number returned is read from the
-- packet.
unfoldable pub octane_unpack : Buffer → List ℕ → Option (ℕ × OctaneControl)
unfolding octane_len memcpy msg_of_bytes
octane_unpack b out =
    let at = drop (octane_header_len b) b in
    if ltb 20 (octane_len b)
    then none
    else some (load16 at 2, msg_of_bytes (memcpy out 0 (take (octane_len b) at)))
