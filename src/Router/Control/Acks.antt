-- ===== src/Router/Control/Acks.antt =====
-- How often a control message that keeps coming is acknowledged.
use simple_sdn.Base.{
  Bool-cases, ◌⊎◌, Option-cases, sym, ◌∙◌, inl, inr, ◌≢◌, ℕ, zero, suc, ◌+◌, ◌-◌, ◌<◌, ◌≡◌, refl,
  ◌==◌, if◌then◌else◌, leb, List, Option, none, some, Buffer, Bool, true, false, arith,
}
use simple_sdn.StdMap
use simple_sdn.StdMap.{StdMap}
use simple_sdn.StdMap.Laws.{find-assign_self}
use simple_sdn.Octane.{OctaneControl, octane_lt}
use simple_sdn.Octane.Order.{octane_lt_irrefl}
use simple_sdn.Flow.{action_of_msg}
use simple_sdn.Packet.Edit.{octane_reply_edit}
use simple_sdn.Packet.Unpack.{octane_unpack}
use simple_sdn.Router.{Router, push_log}
use simple_sdn.Router.Control.{subscript, count_msg, drop_counted, accept_msg, control_msg}

-- The count of the message in `m_MsgCount`.
unfoldable pub count_of : OctaneControl → Router → ℕ
unfolding subscript
count_of m r = (subscript m r.msg_count).0

unfoldable pub is_dropped : OctaneControl → Router → Bool
is_dropped m r = elim (StdMap.find octane_lt m r.dropped_msg) [ none ↦ false | some x ↦ true ]

-- The number of acknowledgements for `j` copies of the packet, one after the other.
unfoldable pub acks : ℕ → List ℕ → Buffer → Router → Option ℕ
unfolding control_msg
acks zero stale b r = some 0
acks (suc j) stale b r = elim (control_msg stale b r) [
  | none ↦ none
  | some (r', none) ↦ acks j stale b r'
  | some (r', some reply) ↦ elim (acks j stale b r') [ none ↦ none | some n ↦ some (n + 1) ]
]

equal-or : (x y : ℕ) → (x ≡ y) ⊎ (x ≢ y)
equal-or x y = elim (Bool-cases (x == y)) [
  | inl e ↦ inl (ground arith)
  | inr e ↦ inr (ground arith)
]

found_self :
    {V : Type 0} (m : OctaneControl) (v : V) (c : StdMap OctaneControl V)
    → (k : OctaneControl) × (StdMap.find octane_lt m (StdMap.assign octane_lt m v c) ≡ some (k, v))
found_self m v c = find-assign_self octane_lt m v c (octane_lt_irrefl m)

pub subscript-assign :
    (m : OctaneControl) (n : ℕ) (c : StdMap OctaneControl ℕ)
    → subscript m (StdMap.assign octane_lt m n c) ≡ (n, StdMap.assign octane_lt m n c)
unfolding subscript
subscript-assign m n c = let (k, e) = found_self m n c in ground arith

subscript_again :
    (m : OctaneControl) (c : StdMap OctaneControl ℕ) → subscript m (subscript m c).1 ≡ subscript m c
unfolding subscript
subscript_again m c = elim (Option-cases (StdMap.find octane_lt m c)) [
  | inl missing ↦ let (k, e) = found_self m 0 c in ground arith
  | inr (x, hit) ↦ ground arith
]

count-count_msg :
    (m : OctaneControl) (c : StdMap OctaneControl ℕ)
    → (subscript m (count_msg m c)).0 ≡ (subscript m c).0 + 1
unfolding count_msg subscript
count-count_msg m c = elim (Option-cases (StdMap.find octane_lt m c)) [
  | inl missing ↦ let (k, e) = found_self m 1 c in ground arith
  | inr (x, hit) ↦ let (k, e) = found_self m (x.1 + 1) c in ground arith
]

drop_counted-dropped :
    (m : OctaneControl) (r : Router)
    → count_of m r ≡ r.drop_after
    → is_dropped m (drop_counted m r) ≡ true
unfolding drop_counted count_of is_dropped
drop_counted-dropped m r h =
    let (k, e) = found_self m (action_of_msg m) r.dropped_msg in ground arith

drop_counted-kept :
    (m : OctaneControl) (r : Router)
    → count_of m r ≢ r.drop_after
    → (is_dropped m (drop_counted m r) ≡ is_dropped m r)
      × (count_of m (drop_counted m r) ≡ count_of m r)
      × ((drop_counted m r).drop_after ≡ r.drop_after)
unfolding drop_counted count_of is_dropped
drop_counted-kept m r h = ground (arith, subscript_again m r.msg_count)

accept_msg-last :
    (m : OctaneControl) (r : Router)
    → count_of m r + 1 ≡ r.drop_after
    → is_dropped m (accept_msg m r) ≡ true
unfolding accept_msg count_of push_log
accept_msg-last m r h = drop_counted-dropped m _ (count-count_msg m r.msg_count ∙ h)

accept_msg-more :
    (m : OctaneControl) (r : Router)
    → count_of m r + 1 ≢ r.drop_after
    → (is_dropped m (accept_msg m r) ≡ is_dropped m r)
      × (count_of m (accept_msg m r) ≡ count_of m r + 1)
      × ((accept_msg m r).drop_after ≡ r.drop_after)
unfolding accept_msg count_of is_dropped push_log
accept_msg-more m r h =
    let (dropped, count, after) =
      drop_counted-kept m _ (λ e. h (sym (count-count_msg m r.msg_count) ∙ e)) in
    (dropped, count ∙ count-count_msg m r.msg_count, after)

pub control_msg-accepts :
    (stale : List ℕ) (b : Buffer) (r : Router) (seqno : ℕ) (m : OctaneControl)
    → octane_unpack b stale ≡ some (seqno, m)
    → is_dropped m r ≡ false
    → control_msg stale b r ≡ some (accept_msg m r, some (octane_reply_edit b))
unfolding control_msg is_dropped
control_msg-accepts stale b r seqno m u h = ground arith

control_msg-drops :
    (stale : List ℕ) (b : Buffer) (r : Router) (seqno : ℕ) (m : OctaneControl)
    → octane_unpack b stale ≡ some (seqno, m)
    → is_dropped m r ≡ true
    → control_msg stale b r ≡ some (r, none)
unfolding control_msg is_dropped
control_msg-drops stale b r seqno m u h = ground arith

acks_dropped :
    (j : ℕ) (stale : List ℕ) (b : Buffer) (r : Router) (seqno : ℕ) (m : OctaneControl)
    → octane_unpack b stale ≡ some (seqno, m)
    → is_dropped m r ≡ true
    → acks j stale b r ≡ some 0
unfolding acks
acks_dropped zero stale b r seqno m u h = refl
acks_dropped (suc j) stale b r seqno m u h =
    ground (arith, control_msg-drops stale b r seqno m u h, acks_dropped j stale b r seqno m u h)

acks-next :
    (j : ℕ) (stale : List ℕ) (b : Buffer) (r : Router) (seqno n : ℕ) (m : OctaneControl)
    → octane_unpack b stale ≡ some (seqno, m)
    → is_dropped m r ≡ false
    → acks j stale b (accept_msg m r) ≡ some n
    → acks (suc j) stale b r ≡ some (n + 1)
unfolding acks
acks-next j stale b r seqno n m u h a = ground (arith, control_msg-accepts stale b r seqno m u h)

-- The same control message, coming `j` times while it is not dropped and its count is below
-- `m_iDropAfter`, is acknowledged until the count is `m_iDropAfter` and not any more from then on.
pub acks_lem :
    (j : ℕ) (stale : List ℕ) (b : Buffer) (r : Router) (seqno : ℕ) (m : OctaneControl)
    → octane_unpack b stale ≡ some (seqno, m)
    → is_dropped m r ≡ false
    → count_of m r < r.drop_after
    → acks j stale b r
      ≡ some (if leb j (r.drop_after - count_of m r) then j else r.drop_after - count_of m r)
unfolding acks
acks_lem zero stale b r seqno m u h c = ground arith
acks_lem (suc j) stale b r seqno m u h c = elim (equal-or (count_of m r + 1) r.drop_after) [
  | inl last ↦
      acks-next j stale b r seqno 0 m u h
        (acks_dropped j stale b (accept_msg m r) seqno m u (accept_msg-last m r last))
      ∙ ground arith
  | inr more ↦
      let (d, n, a) = accept_msg-more m r more in
      acks-next j stale b r seqno _ m u h
        (acks_lem j stale b (accept_msg m r) seqno m u (d ∙ h) (ground arith))
      ∙ ground arith
]
