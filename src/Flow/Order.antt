-- ===== src/Flow/Order.antt =====
-- Where `flow_entry::operator<` is an order on flows.
use simple_sdn.Base.{◌≡◌, ◌<◌, ◌⊎◌, inl, inr, refl, ap, Bool, true, false, arith}
use simple_sdn.StdMap.Laws.{IsStrictOrder}
use simple_sdn.Flow.{FlowEntry, is_wild, less_exact, entry_lt, reverse, default_entry}

less_exact_trans :
    (a b c : FlowEntry) → less_exact a b ≡ true → less_exact b c ≡ true → less_exact a c ≡ true
unfolding less_exact
less_exact_trans a b c p q = ground arith

less_exact-connected : (a b : FlowEntry) → less_exact a b ≡ false → less_exact b a ≡ false → a ≡ b
unfolding less_exact
less_exact-connected a b p q = ground arith

less_exact_irrefl : (a : FlowEntry) → less_exact a a ≡ false
unfolding less_exact
less_exact_irrefl a = ground arith

-- A flow in which no field has all bits set, as those of TCP packets are.
pub record IsExact (e : FlowEntry) : Type 0 where
  pub src_ip : e.src_ip < 0xFFFFFFFF
  pub dst_ip : e.dst_ip < 0xFFFFFFFF
  pub src_port : e.src_port < 0xFFFF
  pub dst_port : e.dst_port < 0xFFFF
  pub protocol : e.protocol < 0xFFFF

-- The kind of an entry: with a field that has all bits set, as the flows of ICMP packets and the
-- default rule's entry, or without one or the default rule's entry.
abbrev pub HasKind : Bool → FlowEntry → Type 0
HasKind true e = is_wild e ≡ true
HasKind false e = IsExact e ⊎ (e ≡ default_entry)

exact-less : (a b : FlowEntry) → IsExact a → IsExact b → entry_lt a b ≡ less_exact a b
unfolding entry_lt
exact-less a b p q = ground arith

exact-less_default :
    (a : FlowEntry) → IsExact a → entry_lt a default_entry ≡ less_exact a default_entry
unfolding entry_lt
exact-less_default a p = ground arith

default-less : (b : FlowEntry) → entry_lt default_entry b ≡ less_exact default_entry b
unfolding entry_lt
default-less b = refl

-- Between entries of one kind `operator<` compares field by field.
pub entry_lt-eq-less_exact :
    (w : Bool) (a b : FlowEntry) → HasKind w a → HasKind w b → entry_lt a b ≡ less_exact a b
unfolding entry_lt
entry_lt-eq-less_exact true a b p q = ground arith
entry_lt-eq-less_exact false a b (inl p) (inl q) = exact-less a b p q
entry_lt-eq-less_exact false a b (inl p) (inr q) = rw q (exact-less_default a p)
entry_lt-eq-less_exact false a b (inr p) q = rw p (default-less b)

-- Between entries of one kind (all with a field of all bits set, or each without one or the default
-- rule's) `operator<` is a strict total order.
pub entry_lt-IsStrictOrder : (w : Bool) → IsStrictOrder entry_lt (HasKind w)
entry_lt-IsStrictOrder w = record {
  irrefl = λ a p. cc (entry_lt-eq-less_exact w a a p p, less_exact_irrefl a);
  trans = λ a b c p q r h k. ground (
    arith,
    entry_lt-eq-less_exact w a b p q,
    entry_lt-eq-less_exact w b c q r,
    entry_lt-eq-less_exact w a c p r,
    less_exact_trans a b c,
  );
  connected = λ a b p q h k. ground (
    arith,
    entry_lt-eq-less_exact w a b p q,
    entry_lt-eq-less_exact w b a q p,
    less_exact-connected a b,
  );
}

pub reverse-HasKind : (w : Bool) (e : FlowEntry) → HasKind w e → HasKind w (reverse e)
unfolding is_wild reverse
reverse-HasKind true e h = ground arith
reverse-HasKind false e (inl h) = inl (record {
  src_ip = h.dst_ip;
  dst_ip = h.src_ip;
  src_port = h.dst_port;
  dst_port = h.src_port;
  protocol = h.protocol;
})
reverse-HasKind false e (inr h) = inr (ap reverse h)
