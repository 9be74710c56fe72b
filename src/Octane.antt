-- ===== src/Octane.antt =====
-- The control message of network.h, `octane_control`, and its order (network.cpp).
pub mod Order
pub mod Bytes
use simple_sdn.Base.{ℕ, Bool, true, ◌==◌, ◌/=◌, ◌&&◌, ltb, if◌then◌else◌}

-- Ports and addresses are words as they stand in memory, in network order.
pub record OctaneControl : Type 0 where
  pub octane_action : ℕ
  pub octane_flags : ℕ
  pub octane_seqno : ℕ
  pub octane_source_ip : ℕ
  pub octane_dest_ip : ℕ
  pub octane_source_port : ℕ
  pub octane_dest_port : ℕ
  pub octane_protocol : ℕ
  pub octane_port : ℕ

abbrev pub any_ip : ℕ
any_ip = 0xFFFFFFFF

abbrev pub any_port : ℕ
any_port = 0xFFFF

-- `octane_control::operator<`, the key order of `m_MsgCount` and `m_droppedMsg`.
unfoldable pub octane_lt : OctaneControl → OctaneControl → Bool
octane_lt a b =
    if a.octane_source_ip /= b.octane_source_ip && a.octane_source_ip /= any_ip
    then ltb a.octane_source_ip b.octane_source_ip
    else if a.octane_source_port /= b.octane_source_port && a.octane_source_port /= any_port
    then ltb a.octane_source_port b.octane_source_port
    else if a.octane_dest_ip /= b.octane_dest_ip && a.octane_dest_ip /= any_ip
    then ltb a.octane_dest_ip b.octane_dest_ip
    else if a.octane_dest_port /= b.octane_dest_port && a.octane_dest_port /= any_port
    then ltb a.octane_dest_port b.octane_dest_port
    else if ltb a.octane_action b.octane_action
    then ltb a.octane_action b.octane_action
    else ltb a.octane_port b.octane_port
