-- ===== src/Packet/Receive.antt =====
-- What `recvMsg` and `recvMsgSafe` of network.cpp leave in a buffer, for a datagram that the socket
-- gives; `none` is the result -1, after which the buffer is as it was.
use simple_sdn.Base.{
  ap, sym, ◌∙◌, ℕ, ◌+◌, ◌<◌, ◌≤◌, ◌≡◌, refl, [], ◌∷◌, Option, none, some, Buffer, zero, suc, load8,
  length, take, memcpy, arith, load8-memcpy, length-memcpy,
}

-- `recvMsg`: it asks for 1024 bytes whatever the size of the buffer is.
unfoldable pub recv_msg : Buffer → Option Buffer → Buffer × Option ℕ
unfolding memcpy
recv_msg buffer none = (buffer, none)
recv_msg buffer (some datagram) =
    let got = take 1024 datagram in (memcpy buffer 0 got, some (length got))

-- `recvMsgSafe`, which asks for the size of the buffer.
unfoldable pub recv_msg_safe : Buffer → Option Buffer → Buffer × Option ℕ
unfolding memcpy
recv_msg_safe buffer none = (buffer, none)
recv_msg_safe buffer (some datagram) =
    let got = take (length buffer) datagram in (memcpy buffer 0 got, some (length got))

pub load8-take : (n i : ℕ) (b : Buffer) → i < n → load8 (take n b) i ≡ load8 b i
load8-take zero i b h = absurd (omega arith)
load8-take (suc n) i [] h = refl
load8-take (suc n) zero (x ∷ b) h = refl
load8-take (suc n) (suc i) (x ∷ b) h = load8-take n i b (omega arith)

pub length-take_le : (n : ℕ) (b : Buffer) → n ≤ length b → length (take n b) ≡ n
length-take_le zero b h = refl
length-take_le (suc n) [] h = absurd (omega arith)
length-take_le (suc n) (x ∷ b) h = omega (arith, length-take_le n b (omega arith))

-- The first 1024 bytes of the datagram stand in the buffer.
pub load8-recv_msg :
    (buffer datagram : Buffer) (i : ℕ)
    → 1024 ≤ length buffer
    → 1024 ≤ length datagram
    → i < 1024
    → load8 (recv_msg buffer (some datagram)).0 i ≡ load8 datagram i
unfolding recv_msg
load8-recv_msg buffer datagram i room long h =
    let got = take 1024 datagram in
    let all : length got ≡ 1024 = length-take_le 1024 datagram long in
    let at : 0 + i ≡ i = omega arith in
    ap (load8 (memcpy buffer 0 got)) (sym at)
    ∙ load8-memcpy buffer 0 i got (omega (arith, all)) (omega (arith, all))
    ∙ load8-take 1024 i datagram h

-- A datagram of 1024 bytes or more is cut to 1024.
pub count-recv_msg :
    (buffer datagram : Buffer)
    → 1024 ≤ length datagram
    → (recv_msg buffer (some datagram)).1 ≡ some 1024
unfolding recv_msg
count-recv_msg buffer datagram long = ap some (length-take_le 1024 datagram long)

pub length-recv_msg :
    (buffer datagram : Buffer) → length (recv_msg buffer (some datagram)).0 ≡ length buffer
unfolding recv_msg
length-recv_msg buffer datagram = length-memcpy buffer 0 (take 1024 datagram)
