-- ===== src/Octane/Bytes.antt =====
-- `octane_control` as it lies in memory: 20 bytes, with no padding.
use simple_sdn.Base.{
  ℕ, ◌+◌, ◌*◌, ◌/◌, ◌%◌, ◌<◌, ◌≡◌, refl, List, ◌∷◌, ◌++◌, Buffer, load8, load16, load32, bytes16,
  bytes32, length, arith,
}
use simple_sdn.Octane.{OctaneControl}

unfoldable pub bytes_of_msg : OctaneControl → List ℕ
bytes_of_msg m =
    m.octane_action
    ∷ m.octane_flags
    ∷ (bytes16 m.octane_seqno
        ++ bytes32 m.octane_source_ip
        ++ bytes32 m.octane_dest_ip
        ++ bytes16 m.octane_source_port
        ++ bytes16 m.octane_dest_port
        ++ bytes16 m.octane_protocol
        ++ bytes16 m.octane_port)

unfoldable pub msg_of_bytes : Buffer → OctaneControl
msg_of_bytes b = record {
  octane_action = load8 b 0;
  octane_flags = load8 b 1;
  octane_seqno = load16 b 2;
  octane_source_ip = load32 b 4;
  octane_dest_ip = load32 b 8;
  octane_source_port = load16 b 12;
  octane_dest_port = load16 b 14;
  octane_protocol = load16 b 16;
  octane_port = load16 b 18;
}

-- Every field fits its type.
pub record IsMsg (m : OctaneControl) : Type 0 where
  pub action : m.octane_action < 256
  pub flags : m.octane_flags < 256
  pub seqno : m.octane_seqno < 65536
  pub source_ip : m.octane_source_ip < 4294967296
  pub dest_ip : m.octane_dest_ip < 4294967296
  pub source_port : m.octane_source_port < 65536
  pub dest_port : m.octane_dest_port < 65536
  pub protocol : m.octane_protocol < 65536
  pub port : m.octane_port < 65536

pub length-bytes_of_msg : (m : OctaneControl) → length (bytes_of_msg m) ≡ 20
unfolding bytes_of_msg
length-bytes_of_msg m = refl

load32-bytes32 :
    (v : ℕ)
    → v < 4294967296
    → v % 256 + 256 * (v / 256 % 256) + 65536 * (v / 65536 % 256 + 256 * (v / 16777216 % 256)) ≡ v
load32-bytes32 v h = omega arith

-- A message whose fields fit their types is read back from its 20 bytes in memory.
pub msg_of_bytes-bytes_of_msg : (m : OctaneControl) → IsMsg m → msg_of_bytes (bytes_of_msg m) ≡ m
unfolding msg_of_bytes bytes_of_msg
msg_of_bytes-bytes_of_msg m h = ground (
  arith,
  load32-bytes32 m.octane_source_ip h.source_ip,
  load32-bytes32 m.octane_dest_ip h.dest_ip,
)

pub load16-bytes_of_msg : (m : OctaneControl) → IsMsg m → load16 (bytes_of_msg m) 2 ≡ m.octane_seqno
unfolding bytes_of_msg
load16-bytes_of_msg m h = omega arith
