-- ===== src/Packet/Build/HeaderSum.antt =====
-- The checksum that `buildIpPacket` writes.
use simple_sdn.Base.{ℕ, ◌+◌, ◌%◌, ◌≡◌, sym, ap, ◌∙◌, ◌↔◌, ◌<◌, ◌≤◌, List, [], Buffer, length, arith}
use simple_sdn.Packet.Checksum.{checksum}
use simple_sdn.Packet.Checksum.Verify.{
  word_sum, checksum-mod, checksum-eq_zero, checksum-agree, mod-of-checksum_zero,
}
use simple_sdn.Packet.Build.{
  ip_header, length-ip_header, build_ip_packet, framed, load8-framed, build_ip_packet-framed,
}

word_sum-ip_header :
    (protocol total src dst sum : ℕ)
    → word_sum 20 (ip_header protocol total src dst sum)
      ≡ word_sum 20 (ip_header protocol total src dst 0) + sum % 65536
unfolding word_sum ip_header
word_sum-ip_header protocol total src dst sum = omega arith

word_sum-pos :
    (protocol total src dst sum : ℕ) → 0 < word_sum 20 (ip_header protocol total src dst sum)
unfolding word_sum ip_header
word_sum-pos protocol total src dst sum = omega arith

header_sum_valid_iff :
    (protocol total src dst junk : ℕ)
    → (checksum
          (ip_header protocol total src dst (checksum (ip_header protocol total src dst junk) 20))
          20
        ≡ 0)
      ↔ (junk % 65536 % 65535 ≡ 0)
header_sum_valid_iff protocol total src dst junk =
    let sum = checksum (ip_header protocol total src dst junk) 20 in
    let facts = checksum-mod (ip_header protocol total src dst junk) 20 in
    let with_junk = word_sum-ip_header protocol total src dst junk in
    let with_sum = word_sum-ip_header protocol total src dst sum in
    let pos = word_sum-pos protocol total src dst sum in
    (
      λ valid.
          let all = mod-of-checksum_zero (ip_header protocol total src dst sum) 20 valid in
          omega arith,
      λ zero. checksum-eq_zero (ip_header protocol total src dst sum) 20 (omega arith) pos,
    )

-- The header of a packet that `buildIpPacket` makes around a payload of 20 bytes, in a buffer with
-- room for it, has a valid checksum exactly when the uninitialised field held 0 or 65535.
pub build_sum_valid_iff :
    (buffer : Buffer) (size protocol src dst junk : ℕ) (payload : List ℕ)
    → length payload ≡ 20
    → 40 ≤ size
    → size ≤ length buffer
    → (checksum (build_ip_packet buffer size protocol src dst payload junk) 20 ≡ 0)
      ↔ (junk % 65536 % 65535 ≡ 0)
build_sum_valid_iff buffer size protocol src dst junk payload e room fits =
    let sum = checksum (ip_header protocol 40 src dst junk) 20 in
    let header = ip_header protocol 40 src dst sum in
    let same : checksum (build_ip_packet buffer size protocol src dst payload junk) 20
        ≡ checksum header 20 =
      ap (λ b. checksum b 20)
        (build_ip_packet-framed buffer size protocol src dst junk payload e room)
      ∙ checksum-agree 20 (framed buffer header payload) header (
          load8-framed buffer header payload [] (omega arith)
            (length-ip_header protocol 40 src dst sum) e) in
    let iff = header_sum_valid_iff protocol 40 src dst junk in
    (λ valid. iff.0 (sym same ∙ valid), λ zero. same ∙ iff.1 zero)
