-- ===== src/Examples/Pings.antt =====
-- An echo request through stage 2.
use simple_sdn.Base.{
  ◌≡◌, ◌++◌, refl, [], ◌∷◌, some, false, arith, Buffer, load8, length, replicate, take,
}
use simple_sdn.Packet.Header.{ip_src, ip_dst, ip_header_len}
use simple_sdn.Packet.Edit.Reply.{IsPacket}
use simple_sdn.Packet.Receive.{recv_msg}
use simple_sdn.Router.{Router, udp, tunnel}
use simple_sdn.Router.Handler.{goes_on}
use simple_sdn.Router.Second.{Session}
use simple_sdn.Router.Second.Stage2.{s2_udp}
use simple_sdn.Router.Primary.Stage2.{s2_tunnel, s2_reply}
use simple_sdn.Router.Ping.{ping_answered}
use simple_sdn.Examples.Packets.{request, bytes_only, load8-bytes_only}
use simple_sdn.Examples.Routers.{router, peer, stale, quiet}

abbrev read : Buffer
read = request ++ replicate 2020 0

abbrev empty : Buffer
empty = replicate 2048 0

abbrev got : Buffer
got = (recv_msg empty (some (take 2048 read))).0

got-IsPacket : IsPacket got
unfolding recv_msg simple_sdn.Base.memcpy bytes_only
got-IsPacket = record {
  bytes = λ i. load8-bytes_only got i refl;
  header = ground arith;
  inside = ground arith;
}

ping_answered_example :
    (r' : Router) × (s' : Session) × (reply : Buffer) × (s2_tunnel stale false peer read router
      ≡ goes_on r' (udp peer (take 2048 read) ∷ []))
    × (s2_udp stale false peer got quiet ≡ goes_on s' (udp peer reply ∷ []))
    × (let (out, nread) = recv_msg empty (some reply) in
        (nread ≡ some 1024)
        × ((r'' : Router) × (w : Buffer) × (s2_reply stale false 1024 peer out r'
              ≡ goes_on r'' (tunnel w ∷ []))
            × (ip_src w ≡ ip_dst read)
            × (ip_dst w ≡ ip_src read)
            × (load8 w (ip_header_len read) ≡ 0)))
unfolding simple_sdn.Router.Forward.packet_dst_check simple_sdn.Config.Entries.text_eq
    simple_sdn.Packet.Checksum.short_count simple_sdn.Packet.Header.payload_len
    simple_sdn.Base.htons
ping_answered_example =
    ping_answered stale stale peer peer read empty empty router quiet refl refl refl refl
      got-IsPacket (ground arith) refl
