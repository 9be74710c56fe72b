-- ===== src/Packet/Header.antt =====
-- `struct ip`, `struct icmp` and `struct tcphdr` over a buffer. On a little-endian machine `ip_hl`
-- is the low half of the first byte, and a word field is read lowest byte first.
use simple_sdn.Base.{ℕ, ◌+◌, ◌*◌, ◌-◌, ◌%◌, Buffer, load8, load16, load32, store16, store32, htons}

abbrev pub ip_header_len : Buffer → ℕ
ip_header_len b = load8 b 0 % 16 * 4

abbrev pub ip_len : Buffer → ℕ
ip_len b = load16 b 2

abbrev pub ip_p : Buffer → ℕ
ip_p b = load8 b 9

abbrev pub ip_src : Buffer → ℕ
ip_src b = load32 b 12

abbrev pub ip_dst : Buffer → ℕ
ip_dst b = load32 b 16

abbrev pub set_ip_sum : Buffer → ℕ → Buffer
set_ip_sum b v = store16 b 10 v

abbrev pub set_ip_src : Buffer → ℕ → Buffer
set_ip_src b v = store32 b 12 v

abbrev pub set_ip_dst : Buffer → ℕ → Buffer
set_ip_dst b v = store32 b 16 v

-- The bit pattern of `short len = ntohs(ip_len) - iIpHeaderLen`: the subtraction is of unsigned
-- words, and the result is cut to 16 bits.
unfoldable pub payload_len : Buffer → ℕ
unfolding htons
payload_len b = (htons (ip_len b) + 65536 - ip_header_len b) % 65536
