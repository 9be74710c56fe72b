-- ===== src/Packet/Build.antt =====
-- `buildIpPacket` of network.cpp, with the control message that it carries.
pub mod HeaderSum
pub mod Acknowledge
use simple_sdn.Base.{
  ℕ, suc, ◌+◌, ◌*◌, ◌-◌, ◌/◌, ◌%◌, ◌≤◌, ◌<◌, ◌≡◌, ◌↔◌, refl, Option, none, some, List, [], ◌∷◌,
  ◌++◌, ltb, if◌then◌else◌, Buffer, bytes16, bytes32, htons, memcpy, length, arith, length-memcpy,
  load8-memcpy_below, load8-memcpy, take-drop-memcpy_of, memcpy_whole, load8, load16, take, drop,
  ap, ◌∙◌, htons_involutive, replicate,
}
use simple_sdn.Octane.{OctaneControl}
use simple_sdn.Octane.Bytes.{
  bytes_of_msg, msg_of_bytes, IsMsg, load16-bytes_of_msg, length-bytes_of_msg,
  msg_of_bytes-bytes_of_msg,
}
use simple_sdn.Packet.Checksum.{checksum}
use simple_sdn.Packet.Header.{ip_header_len, ip_p}
use simple_sdn.Packet.Unpack.{octane_unpack, octane_len, octane_header_len}

-- The header that `buildIpPacket` fills in, with `sum` in the checksum field.
unfoldable pub ip_header : ℕ → ℕ → ℕ → ℕ → ℕ → List ℕ
unfolding htons
ip_header protocol total src dst sum =
    0x45
    ∷ 0
    ∷ (bytes16 (htons total)
        ++ bytes16 0
        ++ bytes16 0
        ++ 255 ∷ (protocol % 256) ∷ (bytes16 sum ++ bytes32 src ++ bytes32 dst))

-- `buildIpPacket`. `src` and `dst` are the results of `inet_addr`. The checksum is computed while
-- the local header's `ip_sum` is still uninitialised: `junk` is what it holds. The payload is
-- written at the offset `iPayloadSize`.
unfoldable pub build_ip_packet : Buffer → ℕ → ℕ → ℕ → ℕ → List ℕ → ℕ → Buffer
unfolding ip_header checksum memcpy
build_ip_packet buffer buffer_size protocol src dst payload junk =
    let total = 20 + length payload in
    let sum = checksum (ip_header protocol total src dst junk) 20 in
    if ltb buffer_size total
    then buffer
    else memcpy (memcpy buffer 0 (ip_header protocol total src dst sum)) (length payload) payload

length-ip_header :
    (protocol total src dst sum : ℕ) → length (ip_header protocol total src dst sum) ≡ 20
unfolding ip_header
length-ip_header protocol total src dst sum = refl

ip_header-prefix :
    (src dst sum : ℕ)
    → (load8 (ip_header 253 40 src dst sum) 0 ≡ 0x45)
      × (load8 (ip_header 253 40 src dst sum) 2 ≡ 0)
      × (load8 (ip_header 253 40 src dst sum) 3 ≡ 40)
unfolding ip_header
ip_header-prefix src dst sum = (refl, refl, refl)

-- A header of 20 bytes at the start of the buffer, with a payload of 20 bytes behind it.
abbrev framed : Buffer → List ℕ → List ℕ → Buffer
framed buffer header payload = memcpy (memcpy buffer 0 header) 20 payload

module _ (buffer : Buffer) (header payload out : List ℕ) (room : 40 ≤ length buffer)
    (header_size : length header ≡ 20) (payload_size : length payload ≡ 20) where
  load8-framed : (i : ℕ) → i < 20 → load8 (framed buffer header payload) i ≡ load8 header i
  load8-framed i h = omega (
    arith,
    load8-memcpy_below (memcpy buffer 0 header) 20 i payload h,
    ap (load8 (memcpy buffer 0 header)) (0+ i),
    load8-memcpy buffer 0 i header (omega arith) (omega arith),
  )
    where
      0+ : (i : ℕ) → 0 + i ≡ i
      0+ i = omega arith

  payload-framed : take 20 (drop 20 (framed buffer header payload)) ≡ payload
  payload-framed =
      take-drop-memcpy_of (memcpy buffer 0 header) 20 20 payload payload_size
        (omega (arith, length-memcpy buffer 0 header))

  octane_unpack-framed :
      length out ≡ 20
      → load8 header 0 ≡ 0x45
      → load8 header 2 ≡ 0
      → load8 header 3 ≡ 40
      → octane_unpack (framed buffer header payload) out
        ≡ some (load16 payload 2, msg_of_bytes payload)
  unfolding octane_unpack octane_len
  octane_unpack-framed size b0 b2 b3 = ground (
    arith,
    load8-framed 0 (omega arith),
    load8-framed 2 (omega arith),
    load8-framed 3 (omega arith),
    payload-framed,
    memcpy_whole out payload,
  )

-- With room for it a payload of 20 bytes is framed behind the header.
build_ip_packet-framed :
    (buffer : Buffer) (size protocol src dst junk : ℕ) (payload : List ℕ)
    → length payload ≡ 20
    → 40 ≤ size
    → build_ip_packet buffer size protocol src dst payload junk
      ≡ framed buffer
          (ip_header protocol 40 src dst (checksum (ip_header protocol 40 src dst junk) 20))
          payload
unfolding build_ip_packet
build_ip_packet-framed buffer size protocol src dst junk payload e h = rw e (ground arith)

-- A packet of protocol 253 built around a control message whose fields fit their types, into a
-- buffer with room for 40 bytes, unpacks to the message and its sequence number.
pub octane_unpack-build_ip_packet :
    (buffer : Buffer) (size src dst junk : ℕ) (m : OctaneControl) (out : List ℕ)
    → IsMsg m
    → 40 ≤ size
    → size ≤ length buffer
    → length out ≡ 20
    → octane_unpack (build_ip_packet buffer size 253 src dst (bytes_of_msg m) junk) out
      ≡ some (m.octane_seqno, m)
octane_unpack-build_ip_packet buffer size src dst junk m out v room fits ok =
    let payload = bytes_of_msg m in
    let sum = checksum (ip_header 253 40 src dst junk) 20 in
    let prefix = ip_header-prefix src dst sum in
    rw (build_ip_packet-framed buffer size 253 src dst junk payload (length-bytes_of_msg m) room) (
      octane_unpack-framed buffer (ip_header 253 40 src dst sum) payload out (omega arith)
        (length-ip_header 253 40 src dst sum) (length-bytes_of_msg m) ok prefix.0 prefix.1 prefix.2
      ∙ ground (arith, load16-bytes_of_msg m v, msg_of_bytes-bytes_of_msg m v))

-- The protocol of a packet that carries a control message.
pub ip_p-build_ip_packet :
    (buffer : Buffer) (size src dst junk : ℕ) (m : OctaneControl)
    → 40 ≤ size
    → size ≤ length buffer
    → ip_p (build_ip_packet buffer size 253 src dst (bytes_of_msg m) junk) ≡ 253
unfolding ip_header
ip_p-build_ip_packet buffer size src dst junk m room fits =
    let payload = bytes_of_msg m in
    let sum = checksum (ip_header 253 40 src dst junk) 20 in
    ap ip_p
      (build_ip_packet-framed buffer size 253 src dst junk payload (length-bytes_of_msg m) room)
    ∙ load8-framed buffer (ip_header 253 40 src dst sum) payload [] (omega arith)
        (length-ip_header 253 40 src dst sum) (length-bytes_of_msg m) 9 (omega arith)
