-- ===== src/Examples/Packets.antt =====
-- Packets at concrete bytes.
use simple_sdn.Base.{
  ltb, if◌then◌else◌, zero, suc, ℕ, Bool, true, false, ◌≡◌, ◌≤◌, ◌<◌, ◌↔◌, ◌%◌, ◌+◌, refl, List, [],
  ◌∷◌, ◌++◌, some, none, arith, Buffer, load8, load16, store16, drop, length, replicate,
}
use simple_sdn.Octane.Bytes.{bytes_of_msg}
use simple_sdn.Packet.Checksum.{checksum, short_count}
use simple_sdn.Packet.Checksum.Verify.{checksum_verifies}
use simple_sdn.Packet.Header.{ip_src, ip_dst, ip_header_len, payload_len}
use simple_sdn.Packet.Unpack.{octane_unpack}
use simple_sdn.Packet.Build.{build_ip_packet, octane_unpack-build_ip_packet}
use simple_sdn.Packet.Build.HeaderSum.{build_sum_valid_iff}
use simple_sdn.Packet.Edit.{icmp_reply_edit}
use simple_sdn.Packet.Edit.Reply.{IsPacket}
use simple_sdn.Packet.Edit.Echo.{icmp_reply_edit_lem}
use simple_sdn.Examples.Flows.{ping_msg, ping_msg-IsMsg}

-- An echo request of 28 bytes.
abbrev pub request : Buffer
request =
    0x45 ∷ 0 ∷ 0 ∷ 28 ∷ 0 ∷ 0 ∷ 0 ∷ 0 ∷ 64 ∷ 1 ∷ 0 ∷ 0 ∷ 10 ∷ 0 ∷ 2 ∷ 15 ∷ 10 ∷ 5 ∷ 51 ∷ 4 ∷ 8 ∷ 0
    ∷ 0 ∷ 0 ∷ 1 ∷ 2 ∷ 3 ∷ 4 ∷ []

octane_unpack-build_ip_packet_example :
    octane_unpack
      (build_ip_packet (replicate 40 0) 40 253 16777343 16777343 (bytes_of_msg ping_msg) 9)
      (replicate 20 0)
    ≡ some (7, ping_msg)
octane_unpack-build_ip_packet_example =
    octane_unpack-build_ip_packet (replicate 40 0) 40 16777343 16777343 9 ping_msg (replicate 20 0)
      ping_msg-IsMsg (ground arith) (ground arith) refl

build_sum_valid_iff_example :
    (checksum (build_ip_packet (replicate 40 0) 40 253 1 2 (replicate 20 7) 9) 20 ≡ 0)
    ↔ (9 % 65536 % 65535 ≡ 0)
build_sum_valid_iff_example =
    build_sum_valid_iff (replicate 40 0) 40 253 1 2 9 (replicate 20 7) refl (ground arith)
      (ground arith)

unfoldable pub bytes_only : Buffer → Bool
bytes_only [] = true
bytes_only (c ∷ b) = let rest = bytes_only b in if ltb c 256 then rest else false

pub load8-bytes_only : (b : Buffer) (i : ℕ) → bytes_only b ≡ true → load8 b i < 256
unfolding bytes_only
load8-bytes_only [] i h = ground arith
load8-bytes_only (c ∷ b) zero h = ground arith
load8-bytes_only (c ∷ b) (suc i) h = ground (arith, load8-bytes_only b i)

request-IsPacket : IsPacket request
unfolding bytes_only
request-IsPacket = record {
  bytes = λ i. load8-bytes_only request i refl;
  header = ground arith;
  inside = ground arith;
}

icmp_reply_edit_lem_example :
    let r = icmp_reply_edit request in
    (ip_src r ≡ ip_dst request)
    × (ip_dst r ≡ ip_src request)
    × (load8 r 20 ≡ 0)
    × (checksum r (ip_header_len r) ≡ 0)
    × (checksum (drop 20 r) (short_count (payload_len request)) ≡ 0)
unfolding short_count payload_len simple_sdn.Base.htons
icmp_reply_edit_lem_example =
    icmp_reply_edit_lem request request-IsPacket refl (ground arith) (ground arith)

checksum_verifies_example :
    checksum (store16 (1 ∷ 2 ∷ 0 ∷ 0 ∷ 5 ∷ []) 2 (checksum (1 ∷ 2 ∷ 0 ∷ 0 ∷ 5 ∷ []) 5)) 5 ≡ 0
checksum_verifies_example =
    checksum_verifies (1 ∷ 2 ∷ 0 ∷ 0 ∷ 5 ∷ []) 2 5 tt (ground arith) (ground arith) refl
