-- ===== src/Router/Primary/Message.antt =====
-- The packet of a control message, and of its acknowledgement.
use simple_sdn.Base.{ℕ, List, some, ◌≡◌, length, replicate, arith}
use simple_sdn.Octane.{OctaneControl}
use simple_sdn.Octane.Bytes.{IsMsg}
use simple_sdn.Packet.Build.{octane_unpack-build_ip_packet, ip_p-build_ip_packet}
use simple_sdn.Packet.Build.Acknowledge.{acked, octane_reply_edit-build_ip_packet}
use simple_sdn.Packet.Edit.{octane_reply_edit}
use simple_sdn.Packet.Unpack.{octane_unpack}
use simple_sdn.Packet.Header.{ip_p}
use simple_sdn.Router.Forward.{localhost}
use simple_sdn.Router.Primary.{control_packet}

pub control_packet-ip_p : (junk : ℕ) (m : OctaneControl) → ip_p (control_packet junk m) ≡ 253
unfolding control_packet
control_packet-ip_p junk m =
    ip_p-build_ip_packet (replicate 2048 0) 2048 localhost localhost junk m (omega arith)
      (omega arith)

pub octane_unpack-control_packet :
    (junk : ℕ) (m : OctaneControl) (out : List ℕ)
    → IsMsg m
    → length out ≡ 20
    → octane_unpack (control_packet junk m) out ≡ some (m.octane_seqno, m)
unfolding control_packet
octane_unpack-control_packet junk m out v size =
    octane_unpack-build_ip_packet (replicate 2048 0) 2048 localhost localhost junk m out v
      (omega arith) (omega arith) size

pub octane_reply_edit-control_packet :
    (junk : ℕ) (m : OctaneControl)
    → octane_reply_edit (control_packet junk m) ≡ control_packet junk (acked m)
unfolding control_packet
octane_reply_edit-control_packet junk m =
    octane_reply_edit-build_ip_packet (replicate 2048 0) 2048 localhost localhost junk m
      (omega arith) (omega arith)
