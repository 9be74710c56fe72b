-- ===== src/Router/Primary/Origin/Handlers.antt =====
-- The timers that the handlers of the primary router start send what the handlers have sent.
use simple_sdn.Base.{
  ℕ, Bool, true, false, ◌==◌, ◌&&◌, not, if◌then◌else◌, List, [], ◌∷◌, ◌++◌, refl, inl, inr, Buffer,
  text, take,
}
use simple_sdn.Flow.Table.{flow_check}
use simple_sdn.Packet.Unpack.{entry_of_packet, tcp_unpack}
use simple_sdn.Packet.Edit.{from_tunnel}
use simple_sdn.Timers.Timeval.{Timeval}
use simple_sdn.Router.{Peer, Sent, udp}
use simple_sdn.Router.Create.{create_octane_msg, create_reverse_octane_msg}
use simple_sdn.Router.Forward.{localhost, packet_dst_check}
use simple_sdn.Router.Logging.{icmp_forward_log}
use simple_sdn.Router.Handler.{
  Stale, Handled, goes_on, returns, exits, overrun, log_check, non_empty,
}
use simple_sdn.Router.Primary.{Primary, OctaneTimer, expire}
use simple_sdn.Router.Primary.Packets.{own_rules, announce, announce_both, new_flow, on_tunnel}
use simple_sdn.Router.Primary.Stage6.{new_icmp_flow, new_flow_to, is_known, log_hit, icmp_target}
use simple_sdn.Router.Primary.Stage7.{announce_chain, new_chain, s7_target}
use simple_sdn.Router.Primary.Origin.{Announced, Announced-left, Are, watch-Are}

module _ (Q : OctaneTimer → Type 0) where
  -- If the predicate holds for what was sent, it holds for all timers.
  abbrev pub Fine : Primary × List Sent → Type 0
  Fine x = ((c : OctaneTimer) → Announced c x.1 → Q c) → Are Q x.0

  abbrev pub AreFine : Handled Primary → Type 0
  AreFine (goes_on p sent) = Fine (p, sent)
  AreFine (returns p) = Unit
  AreFine exits = Unit
  AreFine overrun = Unit

  announce-Fine :
      (now : Timeval) (stale : Stale) (action : ℕ) (rou2 : Peer) (b : Buffer) (junk : ℕ)
      (p : Primary)
      → Are Q p
      → Fine (announce now stale action rou2 b junk p)
  unfolding announce create_octane_msg expire
  announce-Fine now stale action rou2 b junk p a new =
      watch-Are Q now rou2 _ _ _ (new _ (record { number = refl; junk = junk; sent = inl refl })) a

  announce_both-Fine :
      (now : Timeval) (stale : Stale) (rou2 : Peer) (b : Buffer) (junk : ℕ) (p : Primary)
      → Are Q p
      → Fine (announce_both now stale rou2 b junk p)
  unfolding announce_both create_octane_msg create_reverse_octane_msg expire
  announce_both-Fine now stale rou2 b junk p a new =
      watch-Are Q now rou2 _ _ _
        (new _ (record { number = refl; junk = junk; sent = inr (inl refl) }))
        (watch-Are Q now rou2 _ _ _ (new _ (record { number = refl; junk = junk; sent = inl refl }))
          a)

  announce_chain-Fine :
      (now : Timeval) (stale : Stale) (port1 port2 : ℕ) (b : Buffer) (junk : ℕ) (p : Primary)
      → Are Q p
      → Fine (announce_chain now stale port1 port2 b junk p)
  unfolding announce_chain create_octane_msg create_reverse_octane_msg expire
  announce_chain-Fine now stale port1 port2 b junk p a new =
      watch-Are Q now _ _ _ _
        (new _ (record { number = refl; junk = junk; sent = inr (inr (inr (inl refl))) }))
        (watch-Are Q now _ _ _ _
          (new _ (record { number = refl; junk = junk; sent = inr (inr (inl refl)) }))
          (watch-Are Q now _ _ _ _
            (new _ (record { number = refl; junk = junk; sent = inr (inl refl) }))
            (watch-Are Q now _ _ _ _
              (new _ (record { number = refl; junk = junk; sent = inl refl })) a)))

  pub pick : (t : Bool) (x y : Primary × List Sent) → Fine x → Fine y → Fine (if t then x else y)
  pick true x y f g = f
  pick false x y f g = g

  pick-Are : (t : Bool) (p q : Primary) → Are Q p → Are Q q → Are Q (if t then p else q)
  pick-Are true p q a b = a
  pick-Are false p q a b = b

  -- How the handlers of the tunnel end.
  pub ends :
      (failed icmp tcp : Bool) (x y : Primary × List Sent) (q : Primary) (more more' : List Sent)
      → Fine x
      → Fine y
      → Are Q q
      → AreFine (
          if failed
          then exits
          else if icmp
          then goes_on x.0 (x.1 ++ more)
          else if tcp
          then goes_on y.0 (y.1 ++ more')
          else goes_on q [])
  ends true icmp tcp x y q more more' f g a = tt
  ends false true tcp x y q more more' f g a = λ new. f (λ c n. new c (Announced-left c x.1 more n))
  ends false false true x y q more more' f g a =
      λ new. g (λ c n. new c (Announced-left c y.1 more' n))
  ends false false false x y q more more' f g a = λ new. a

  ends2 :
      (failed icmp : Bool) (x : Primary × List Sent) (q : Primary) (more : List Sent)
      → Fine x
      → Are Q q
      → AreFine (if failed then exits else if icmp then goes_on x.0 (x.1 ++ more) else goes_on q [])
  ends2 true icmp x q more f a = tt
  ends2 false true x q more f a = λ new. f (λ c n. new c (Announced-left c x.1 more n))
  ends2 false false x q more f a = λ new. a

  new_flow-Fine :
      (logged : Bool) (now : Timeval) (stale : Stale) (rou2 : Peer) (b : Buffer) (junk : ℕ)
      (p : Primary)
      → Are Q p
      → Fine (new_flow logged now stale rou2 b junk p)
  unfolding new_flow
  new_flow-Fine logged now stale rou2 b junk p a new =
      let p' = record p { router = own_rules stale rou2 b p.router } in
      let inside = packet_dst_check stale.addr (text "10.5.51.0") 0x00FFFFFF == 1 in
      let drops = not logged && packet_dst_check stale.addr (text "10.5.51.4") 0xFFFFFFFF == 1 in
      let act = if drops then 3 else 2 in
      let done =
        pick inside (announce now stale act rou2 b junk p') (announce_both now stale rou2 b junk p')
          (announce-Fine now stale act rou2 b junk p' a)
          (announce_both-Fine now stale rou2 b junk p' a) new in
      pick-Are logged _ _ done done

  pub on_tunnel-AreFine :
      (logged : Bool) (now : Timeval) (stale : Stale) (failed : Bool) (rou2 : Peer) (b : Buffer)
      (junk : ℕ) (p : Primary)
      → Are Q p
      → AreFine (on_tunnel logged now stale failed rou2 b junk p)
  unfolding on_tunnel
  on_tunnel-AreFine logged now stale failed rou2 b junk p a =
      let check = flow_check (entry_of_packet b stale.ports) p.router.flow_table in
      let (proto, r) = icmp_forward_log b stale.ports stale.icmp from_tunnel rou2.port p.router in
      let q : Primary = record p { router = r; refresh = true } in
      let q' : Primary = record q { router = log_check check r } in
      ends2 failed (proto == 1)
        (if non_empty check
          then (if logged then q' else q, [])
          else new_flow logged now stale rou2 b junk q)
        (record q { refresh = false }) (udp rou2 (take 2048 b) ∷ [])
        (pick (non_empty check) (if logged then q' else q, [])
          (new_flow logged now stale rou2 b junk q) (λ new. pick-Are logged q' q a a)
          (new_flow-Fine logged now stale rou2 b junk q a))
        a

  pub new_icmp_flow-Fine :
      (now : Timeval) (stale : Stale) (port1 port2 : ℕ) (b : Buffer) (junk : ℕ) (p : Primary)
      → Are Q p
      → Fine (new_icmp_flow now stale port1 port2 b junk p)
  unfolding new_icmp_flow log_hit
  new_icmp_flow-Fine now stale port1 port2 b junk p a =
      let target = icmp_target stale port1 port2 in
      let p' = record p { router = own_rules stale target b p.router } in
      let first : Peer = record { addr = localhost; port = port1 } in
      pick (packet_dst_check stale.addr (text "10.5.51.0") 0x00FFFFFF == 1)
        (announce now stale 2 target b junk p') (announce_both now stale first b junk p')
        (announce-Fine now stale 2 target b junk p' a)
        (announce_both-Fine now stale first b junk p' a)

  pub new_flow_to-Fine :
      (now : Timeval) (stale : Stale) (target : Peer) (b : Buffer) (junk : ℕ) (p : Primary)
      → Are Q p
      → Fine (new_flow_to now stale target b junk p)
  unfolding new_flow_to log_hit
  new_flow_to-Fine now stale target b junk p a =
      let p' = record p { router = own_rules stale target b p.router } in
      let x = announce_both now stale target b junk p' in
      pick (is_known (tcp_unpack b)) (log_hit stale b x.0, x.1) (record p { refresh = false }, [])
        (announce_both-Fine now stale target b junk p' a) (λ new. a)

  pub new_chain-Fine :
      (now : Timeval) (stale : Stale) (port1 port2 : ℕ) (b : Buffer) (junk : ℕ) (p : Primary)
      → Are Q p
      → Fine (new_chain now stale port1 port2 b junk p)
  unfolding new_chain log_hit
  new_chain-Fine now stale port1 port2 b junk p a =
      let target = s7_target stale port1 b in
      let p' = record p { router = own_rules stale target b p.router } in
      let x = announce_both now stale target b junk p' in
      let y = announce_chain now stale port1 port2 b junk p' in
      pick (tcp_unpack b == 80) (log_hit stale b x.0, x.1)
        (if tcp_unpack b == 443
          then (log_hit stale b y.0, y.1)
          else (record p { refresh = false }, []))
        (announce_both-Fine now stale target b junk p' a)
        (pick (tcp_unpack b == 443) (log_hit stale b y.0, y.1) (record p { refresh = false }, [])
          (announce_chain-Fine now stale port1 port2 b junk p' a) (λ new. a))
