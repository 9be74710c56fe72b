-- ===== src/Router/Control/Counts.antt =====
-- The counts of the control messages stay below `m_iDropAfter`.
use simple_sdn.Base.{
  ℕ, ◌+◌, ◌<◌, ◌≤◌, ◌==◌, ◌≡◌, sym, ◌∙◌, subst, ap, if◌then◌else◌, List, Option, some, Buffer,
  Option-cases, Bool-cases, inl, inr, arith,
}
use simple_sdn.StdMap
use simple_sdn.StdMap.{StdMap}
use simple_sdn.StdMap.Values.{Values, Values-find, Values-assign, Values-erase-assign}
use simple_sdn.Octane.{OctaneControl, octane_lt}
use simple_sdn.Octane.Order.{octane_lt_irrefl}
use simple_sdn.Packet.Unpack.{octane_unpack}
use simple_sdn.Router.{Router, push_log}
use simple_sdn.Router.Control.{subscript, count_msg, drop_counted, accept_msg, control_msg}
use simple_sdn.Router.Control.Acks.{count_of, subscript-assign}

-- Messages are dropped at some count, and every count is below it.
pub record AreBelow (d : ℕ) (c : StdMap OctaneControl ℕ) : Type 0 where
  pub drops : 0 < d
  pub below : Values (λ n. n < d) c

abbrev pub IsCounting : Router → Type 0
IsCounting r = AreBelow r.drop_after r.msg_count

pub count_of-below : (m : OctaneControl) (r : Router) → IsCounting r → count_of m r < r.drop_after
unfolding count_of subscript
count_of-below m r i = elim (Option-cases (StdMap.find octane_lt m r.msg_count)) [
  | inl missing ↦ ground (arith, i.drops)
  | inr ((k, n), f) ↦
      ground (arith, Values-find octane_lt (λ n. n < r.drop_after) m k n r.msg_count i.below f)
]

count_msg-assign :
    (m : OctaneControl) (c : StdMap OctaneControl ℕ)
    → count_msg m c ≡ StdMap.assign octane_lt m ((subscript m c).0 + 1) c
unfolding count_msg subscript
count_msg-assign m c = elim (Option-cases (StdMap.find octane_lt m c)) [
  | inl missing ↦ ground arith
  | inr (x, hit) ↦ ground arith
]

drop_counted-assign :
    (m : OctaneControl) (n : ℕ) (c : StdMap OctaneControl ℕ) (r : Router)
    → r.msg_count ≡ StdMap.assign octane_lt m n c
    → (drop_counted m r).msg_count ≡ (
        if n == r.drop_after
        then StdMap.erase octane_lt m (StdMap.assign octane_lt m n c)
        else StdMap.assign octane_lt m n c)
unfolding drop_counted
drop_counted-assign m n c r e = let k = ap (subscript m) e ∙ subscript-assign m n c in ground arith

below_again :
    (m : OctaneControl) (n d : ℕ) (c : StdMap OctaneControl ℕ)
    → n ≤ d
    → AreBelow d c
    → AreBelow d (
        if n == d
        then StdMap.erase octane_lt m (StdMap.assign octane_lt m n c)
        else StdMap.assign octane_lt m n c)
below_again m n d c h a = elim (Bool-cases (n == d)) [
  | inl last ↦ record {
    drops = a.drops;
    below =
        ground
          (arith, Values-erase-assign octane_lt (λ n. n < d) m n c (octane_lt_irrefl m) a.below);
  }
  | inr more ↦ record {
    drops = a.drops;
    below = ground (arith, Values-assign octane_lt (λ n. n < d) m n c (ground arith) a.below);
  }
]

drop_counted-after : (m : OctaneControl) (r : Router) → (drop_counted m r).drop_after ≡ r.drop_after
unfolding drop_counted
drop_counted-after m r = ground arith

accept_msg-IsCounting :
    (m : OctaneControl) (r : Router) → IsCounting r → IsCounting (accept_msg m r)
unfolding accept_msg push_log count_of
accept_msg-IsCounting m r i =
    let n = (subscript m r.msg_count).0 + 1 in
    subst (λ d. AreBelow d (accept_msg m r).msg_count) (sym (drop_counted-after m _))
      (subst (AreBelow r.drop_after)
        (sym (drop_counted-assign m n r.msg_count _ (count_msg-assign m r.msg_count)))
        (below_again m n r.drop_after r.msg_count (omega (arith, count_of-below m r i)) i))

pub control_msg-IsCounting :
    (stale : List ℕ) (b : Buffer) (r r' : Router) (reply : Option Buffer)
    → IsCounting r
    → control_msg stale b r ≡ some (r', reply)
    → IsCounting r'
unfolding control_msg
control_msg-IsCounting stale b r r' reply i e = elim (Option-cases (octane_unpack b stale)) [
  | inl fails ↦ absurd (ground arith)
  | inr ((seqno, m), u) ↦ elim (Option-cases (StdMap.find octane_lt m r.dropped_msg)) [
    | inl new ↦
        let k : accept_msg m r ≡ r' = ground arith in
        subst IsCounting k (accept_msg-IsCounting m r i)
    | inr (x, dropped) ↦ let k : r ≡ r' = ground arith in subst IsCounting k i
  ]
]
