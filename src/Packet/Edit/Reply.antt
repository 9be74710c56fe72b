-- ===== src/Packet/Edit/Reply.antt =====
-- The echo reply that `icmpReply_Edit` makes of a request.
use simple_sdn.Base.{
  ℕ, suc, ◌+◌, ◌*◌, ◌%◌, ◌/◌, ◌≤◌, ◌<◌, ◌≡◌, ◌≢◌, refl, Buffer, load8, load16, load32, store8,
  store16, store32, load8-store32, load32-store32, load32-store32_other, load32-lt, inl, inr, ◌⊎◌,
  drop, length, set, get_or, arith, get_or-set, length-set, drop-set_above, drop-set_below,
  get_or-drop, length-drop_add, ltb, ◌==◌, ◌&&◌, if◌then◌else◌, htons, ◌∙◌, ap,
}
use simple_sdn.Packet.Checksum.{checksum}
use simple_sdn.Packet.Checksum.Verify.{checksum_verifies}
use simple_sdn.Packet.Header.{ip_header_len, ip_src, ip_dst}
use simple_sdn.Packet.Edit.{renew_ip_sum, swap_addresses}

pub ruleset reads = (get_or-set, length-set)

-- A packet in memory: bytes, a header of at least 20 bytes, and all of it in the buffer.
pub record IsPacket (b : Buffer) : Type 0 where
  pub bytes : (i : ℕ) → load8 b i < 256
  pub header : 20 ≤ ip_header_len b
  pub inside : ip_header_len b ≤ length b

-- `renew_ip_sum` changes the bytes of the checksum only, and the header's checksum is valid.
pub renew_ip_sum-other :
    (b : Buffer) (i : ℕ) → 10 ≢ i → 11 ≢ i → load8 (renew_ip_sum b) i ≡ load8 b i
unfolding renew_ip_sum
renew_ip_sum-other b i h k = simp reads (ground arith)

pub renew_ip_sum-valid :
    (b : Buffer)
    → 20 ≤ ip_header_len b
    → ip_header_len b ≤ length b
    → checksum (renew_ip_sum b) (ip_header_len (renew_ip_sum b)) ≡ 0
unfolding renew_ip_sum
renew_ip_sum-valid b h k =
    let zeroed = store16 b 10 0 in
    let same : ip_header_len zeroed ≡ ip_header_len b = simp reads in
    let sum = checksum zeroed (ip_header_len zeroed) in
    let kept : ip_header_len (store16 zeroed 10 sum) ≡ ip_header_len zeroed = simp reads in
    rw kept (
      checksum_verifies zeroed 10 (ip_header_len zeroed) tt (omega arith)
        (let long : length zeroed ≡ length b = simp reads in omega arith)
        (simp reads (ground arith)))

pub swap_addresses-other :
    (b : Buffer) (i : ℕ) → (i < 12) ⊎ (19 < i) → load8 (swap_addresses b) i ≡ load8 b i
unfolding swap_addresses
swap_addresses-other b i h = ground (
  arith,
  load8-store32 (store32 b 16 (ip_src b)) 12 i (ip_dst b),
  load8-store32 b 16 i (ip_src b),
)

pub swap_addresses_lem :
    (b : Buffer)
    → IsPacket b
    → (ip_src (swap_addresses b) ≡ ip_dst b) × (ip_dst (swap_addresses b) ≡ ip_src b)
unfolding swap_addresses
swap_addresses_lem b p =
    let long : length (store32 b 16 (ip_src b)) ≡ length b = simp reads in
    let room = p.inside in
    let wide = p.header in
    (
      load32-store32 (store32 b 16 (ip_src b)) 12 (ip_dst b) (omega arith) (load32-lt b 16 p.bytes),
      load32-store32_other (store32 b 16 (ip_src b)) 12 16 (ip_dst b) (inr (omega arith))
          ∙ load32-store32 b 16 (ip_src b) (omega arith) (load32-lt b 12 p.bytes),
    )
