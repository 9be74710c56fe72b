-- ===== src/Packet/Edit/Echo.antt =====
-- `icmpReply_Edit` as a whole: the request becomes its reply.
use simple_sdn.Base.{
  ℕ, ◌+◌, ◌≤◌, ◌<◌, ◌≡◌, Buffer, load8, store8, store16, drop, length, set, arith, drop-store16,
  drop-set_below, get_or-drop, length-drop_add, ltb, ◌∙◌, inl, inr, true,
}
use simple_sdn.Packet.Checksum.{checksum, short_count}
use simple_sdn.Packet.Checksum.Verify.{checksum_verifies}
use simple_sdn.Packet.Header.{ip_header_len, ip_p, ip_src, ip_dst, payload_len}
use simple_sdn.Packet.Edit.{renew_ip_sum, swap_addresses, echo_reply, icmp_reply_edit}
use simple_sdn.Packet.Edit.Reply.{
  reads, IsPacket, renew_ip_sum-other, renew_ip_sum-valid, swap_addresses-other, swap_addresses_lem,
}

module _ (b : Buffer) (p : IsPacket b) where
  echo_reply-header : (i : ℕ) → i < ip_header_len b → load8 (echo_reply b) i ≡ load8 b i
  unfolding echo_reply
  echo_reply-header i h = simp reads (ground arith)

  length-echo_reply : length (echo_reply b) ≡ length b
  unfolding echo_reply
  length-echo_reply = simp reads

  echo_reply-type : ip_header_len b < length b → load8 (echo_reply b) (ip_header_len b) ≡ 0
  unfolding echo_reply
  echo_reply-type h = simp reads (ground arith)

  echo_reply-bytes : (i : ℕ) → load8 (echo_reply b) i < 256
  unfolding echo_reply
  echo_reply-bytes i = simp reads (ground (arith, p.bytes i))

  echo_reply-IsPacket : IsPacket (echo_reply b)
  echo_reply-IsPacket =
      let room = p.header in
      let fits = p.inside in
      let b0 = echo_reply-header 0 (omega arith) in
      record {
        bytes = echo_reply-bytes;
        header = omega arith;
        inside = omega (arith, length-echo_reply);
      }

  payload_len-kept :
      (c : Buffer)
      → load8 c 0 ≡ load8 b 0
      → load8 c 2 ≡ load8 b 2
      → load8 c 3 ≡ load8 b 3
      → payload_len c ≡ payload_len b
  unfolding payload_len
  payload_len-kept c e f g = rw (e, f, g)

  echo_reply-valid :
      ip_header_len b + 4 ≤ length b
      → 4 ≤ short_count (payload_len b)
      → checksum (drop (ip_header_len b) (echo_reply b)) (short_count (payload_len b)) ≡ 0
  unfolding echo_reply
  echo_reply-valid room many =
      let at = ip_header_len b in
      let wide = p.header in
      let b' = store16 (store8 b at 0) (at + 2) 0 in
      let long : length b' ≡ length b = simp reads in
      let same : payload_len b' ≡ payload_len b =
        payload_len-kept b' (simp reads (ground arith)) (simp reads (ground arith))
          (simp reads (ground arith)) in
      let count = short_count (payload_len b) in
      rw (same, drop-store16 at 2 (checksum (drop at b') count) b')
        (checksum_verifies (drop at b') 2 count tt (omega arith)
          (omega (arith, length-drop_add at b' (omega arith)))
          (simp (get_or-drop, reads) (ground arith)))

drop-set_header :
    (n i v : ℕ) (b : Buffer) → 20 ≤ n → ltb i 20 ≡ true → drop n (set b i v) ≡ drop n b
drop-set_header n i v b h k = drop-set_below n i b v (ground arith)

-- The bytes behind the header stay as the echo part left them.
rest_kept : (b : Buffer) (n : ℕ) → 20 ≤ n → drop n (renew_ip_sum (swap_addresses b)) ≡ drop n b
unfolding renew_ip_sum swap_addresses
rest_kept b n h = simp drop-set_header

length_swap : (b : Buffer) → length (swap_addresses b) ≡ length b
unfolding swap_addresses
length_swap b = simp reads

ip_src-renew : (c : Buffer) → ip_src (renew_ip_sum c) ≡ ip_src c
ip_src-renew c = omega (
  arith,
  renew_ip_sum-other c 12 (omega arith) (omega arith),
  renew_ip_sum-other c 13 (omega arith) (omega arith),
  renew_ip_sum-other c 14 (omega arith) (omega arith),
  renew_ip_sum-other c 15 (omega arith) (omega arith),
)

ip_dst-renew : (c : Buffer) → ip_dst (renew_ip_sum c) ≡ ip_dst c
ip_dst-renew c = omega (
  arith,
  renew_ip_sum-other c 16 (omega arith) (omega arith),
  renew_ip_sum-other c 17 (omega arith) (omega arith),
  renew_ip_sum-other c 18 (omega arith) (omega arith),
  renew_ip_sum-other c 19 (omega arith) (omega arith),
)

addresses-echo_reply :
    (b : Buffer) (p : IsPacket b)
    → (ip_src (echo_reply b) ≡ ip_src b) × (ip_dst (echo_reply b) ≡ ip_dst b)
addresses-echo_reply b p =
    let wide = p.header in
    let same = λ (i : ℕ) (h : i < 20). echo_reply-header b p i (omega arith) in
    (
      omega (
        arith,
        same 12 (omega arith),
        same 13 (omega arith),
        same 14 (omega arith),
        same 15 (omega arith),
      ),
      omega (
        arith,
        same 16 (omega arith),
        same 17 (omega arith),
        same 18 (omega arith),
        same 19 (omega arith),
      ),
    )

-- `icmpReply_Edit` turns an ICMP packet whose header and ICMP header lie in the buffer into its
-- reply: the addresses change places, the type is ECHOREPLY, the header's checksum and the ICMP
-- checksum are valid.
pub icmp_reply_edit_lem :
    (b : Buffer)
    → IsPacket b
    → ip_p b ≡ 1
    → ip_header_len b + 4 ≤ length b
    → 4 ≤ short_count (payload_len b)
    → let r = icmp_reply_edit b in
      let at = ip_header_len b in
      (ip_src r ≡ ip_dst b)
      × (ip_dst r ≡ ip_src b)
      × (load8 r at ≡ 0)
      × (checksum r (ip_header_len r) ≡ 0)
      × (checksum (drop at r) (short_count (payload_len b)) ≡ 0)
unfolding icmp_reply_edit
icmp_reply_edit_lem b p icmp room many =
    let echo = echo_reply b in
    let swapped = swap_addresses echo in
    let reply : icmp_reply_edit b ≡ renew_ip_sum swapped = ground arith in
    let q = echo_reply-IsPacket b p in
    let wide = p.header in
    let places = swap_addresses_lem echo q in
    let kept = addresses-echo_reply b p in
    let byte0 : load8 swapped 0 ≡ load8 b 0 =
      swap_addresses-other echo 0 (inl (omega arith)) ∙ echo_reply-header b p 0 (omega arith) in
    rw reply (
      ip_src-renew swapped ∙ places.0 ∙ kept.1,
      ip_dst-renew swapped ∙ places.1 ∙ kept.0,
      renew_ip_sum-other swapped (ip_header_len b) (omega arith) (omega arith)
          ∙ swap_addresses-other echo (ip_header_len b) (inr (omega arith))
          ∙ echo_reply-type b p (omega arith),
      renew_ip_sum-valid swapped (omega arith) (
          let inside = q.inside in
          let long = length_swap echo in
          let hl = echo_reply-header b p 0 (omega arith) in omega arith),
      rw (rest_kept echo (ip_header_len b) wide) (echo_reply-valid b p room many),
    )
