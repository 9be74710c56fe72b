-- ===== src/Octane/Order.antt =====
-- What `octane_control::operator<` orders, and where it is no order.
use simple_sdn.Base.{ℕ, ◌≡◌, ◌<◌, true, false, arith}
use simple_sdn.Octane.{OctaneControl, octane_lt}

-- No message is less than itself, so a message finds its own entry.
pub octane_lt_irrefl : (m : OctaneControl) → octane_lt m m ≡ false
unfolding octane_lt
octane_lt_irrefl m = ground arith

-- Of two messages that differ in action and port only, where the one with the smaller action has
-- the larger port, each is less than the other.
pub octane_lt-both :
    (m : OctaneControl) (action port : ℕ)
    → m.octane_action < action
    → port < m.octane_port
    → (octane_lt m (record m { octane_action = action; octane_port = port }) ≡ true)
      × (octane_lt (record m { octane_action = action; octane_port = port }) m ≡ true)
unfolding octane_lt
octane_lt-both m action port ha hp = ground arith
