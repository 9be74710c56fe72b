-- ===== src/Packet/Build/Acknowledge.antt =====
-- The acknowledgement of a control message as a packet.
use simple_sdn.Base.{
  ℕ, zero, suc, ◌+◌, ◌≤◌, ◌<◌, ◌≡◌, refl, sym, ◌∙◌, ap, List, [], ◌∷◌, Buffer, load8, set, length,
  memcpy, arith, length-memcpy,
}
use simple_sdn.Octane.{OctaneControl}
use simple_sdn.Octane.Bytes.{bytes_of_msg, length-bytes_of_msg}
use simple_sdn.Packet.Checksum.{checksum}
use simple_sdn.Packet.Header.{ip_header_len, ip_p}
use simple_sdn.Packet.Edit.{octane_reply_edit}
use simple_sdn.Packet.Build.{
  ip_header, build_ip_packet, framed, build_ip_packet-framed, load8-framed, length-ip_header,
  ip_header-prefix,
}

set-memcpy :
    (b : Buffer) (o i v : ℕ) (xs : List ℕ)
    → o + length xs ≤ length b
    → i < length xs
    → set (memcpy b o xs) (o + i) v ≡ memcpy b o (set xs i v)
unfolding memcpy
set-memcpy [] o i v xs h k = absurd (omega arith)
set-memcpy (b ∷ bs) (suc o) i v xs h k =
    let e : suc o + i ≡ suc (o + i) = omega arith in
    rw e (ap (◌∷◌ b) (set-memcpy bs o i v xs (omega arith) k))
set-memcpy (b ∷ bs) zero i v [] h k = absurd (omega arith)
set-memcpy (b ∷ bs) zero zero v (x ∷ xs) h k = refl
set-memcpy (b ∷ bs) zero (suc i) v (x ∷ xs) h k =
    let e : 0 + suc i ≡ suc (0 + i) = omega arith in
    rw e (ap (◌∷◌ x) (set-memcpy bs zero i v xs (omega arith) (omega arith)))

abbrev pub acked : OctaneControl → OctaneControl
acked m = record m { octane_flags = 1 }

flagged : (b : Buffer) → ip_p b ≡ 253 → ip_header_len b ≡ 20 → octane_reply_edit b ≡ set b 21 1
unfolding octane_reply_edit
flagged b p h = ground arith

-- The flag of a message in memory.
flag_set : (m : OctaneControl) → set (bytes_of_msg m) 1 1 ≡ bytes_of_msg (acked m)
unfolding bytes_of_msg
flag_set m = refl

flagged-framed :
    (buffer header : List ℕ) (m : OctaneControl)
    → 40 ≤ length buffer
    → length header ≡ 20
    → load8 header 0 ≡ 0x45
    → load8 header 9 ≡ 253
    → octane_reply_edit (framed buffer header (bytes_of_msg m))
      ≡ framed buffer header (bytes_of_msg (acked m))
flagged-framed buffer header m room size b0 b9 =
    let read = load8-framed buffer header (bytes_of_msg m) [] room size (length-bytes_of_msg m) in
    flagged (framed buffer header (bytes_of_msg m)) (read 9 (omega arith) ∙ b9)
      (omega (arith, read 0 (omega arith), b0))
    ∙ set-memcpy (memcpy buffer 0 header) 20 1 1 (bytes_of_msg m)
        (omega (arith, length-memcpy buffer 0 header, length-bytes_of_msg m))
        (omega (arith, length-bytes_of_msg m))
    ∙ ap (memcpy (memcpy buffer 0 header) 20) (flag_set m)

header-253 : (src dst sum : ℕ) → load8 (ip_header 253 40 src dst sum) 9 ≡ 253
unfolding ip_header
header-253 src dst sum = refl

-- The acknowledgement of a packet that carries a control message is the packet of the message with
-- the acknowledgement flag.
pub octane_reply_edit-build_ip_packet :
    (buffer : Buffer) (size src dst junk : ℕ) (m : OctaneControl)
    → 40 ≤ size
    → size ≤ length buffer
    → octane_reply_edit (build_ip_packet buffer size 253 src dst (bytes_of_msg m) junk)
      ≡ build_ip_packet buffer size 253 src dst (bytes_of_msg (acked m)) junk
octane_reply_edit-build_ip_packet buffer size src dst junk m room fits =
    let sum = checksum (ip_header 253 40 src dst junk) 20 in
    ap octane_reply_edit (
      build_ip_packet-framed buffer size 253 src dst junk (bytes_of_msg m) (length-bytes_of_msg m)
        room)
    ∙ flagged-framed buffer (ip_header 253 40 src dst sum) m (omega arith)
        (length-ip_header 253 40 src dst sum) ((ip_header-prefix src dst sum).0)
        (header-253 src dst sum)
    ∙ sym (
        build_ip_packet-framed buffer size 253 src dst junk (bytes_of_msg (acked m))
          (length-bytes_of_msg (acked m)) room)
