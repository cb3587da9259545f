-- ===== src/Udp/Reach.antt =====
-- Every state that the operations of src/udp.rs reach.
use microps_rs.Base.{
  ℕ, zero, suc, ◌+◌, ◌≤◌, ◌<◌, ◌≡◌, refl, subst, not, inl, inr, List, [], ◌∷◌, ◌++◌, Option, none,
  some, arith, is_none, Bool-cases, Option-cases, if_cases, drop, ◌==◌,
}
use mathlib.Core.Option.{some-injective}
use microps_rs.Addr.{addr_eq, IpAddr, IpEndp}
use microps_rs.Link.{IpIface, Net}
use microps_rs.Table.{slot}
use microps_rs.Ip.Packet.{src_of, dst_of}
use microps_rs.Udp.Pcb.{Udp, UdpPcb, UdpQueueEntry, pcb_select, pcb_alloc, pcb_release}
use microps_rs.Udp.Datagram.{accepts, hdr_dst, hdr_src, udp_hdr_size}
use microps_rs.Udp.{
  bind, deliver, unreachable, input, recvfrom_poll, receive_next, sendto, find_port,
  assign_dynamic_port, local_port, send_from, dynamic_ports, dynamic_port_min, source_addr,
}
use microps_rs.Udp.Exclusive.{set-Changes, IsExclusive-bind}
use microps_rs.Udp.Laws.{
  IsTable, set-IsTable, keep-IsTable, pcb_alloc-IsTable, pcb_release-IsTable, bind-IsTable,
  is_none-none,
}

input-IsTable :
    (hdr dgram : List ℕ) (iface : IpIface) (s : Udp) → IsTable s → IsTable (input hdr dgram iface s)
unfolding input deliver unreachable
input-IsTable hdr dgram iface s h =
    if_cases IsTable (not (accepts (src_of hdr) (dst_of hdr) dgram)) (λ _. h)
      λ _. elim (Option-cases (pcb_select dst s.pcbs)) [
        | inl e ↦ rw e (
            if_cases IsTable (addr_eq (dst_of hdr) iface.unicast)
              (λ _. record { exclusive = h.exclusive; bounded = h.bounded }) (λ _. h))
        | inr (d, e) ↦ elim (Option-cases (slot s.pcbs d)) [
          | inl f ↦ rw (e, f) h
          | inr (p, f) ↦ rw (e, f) (keep-IsTable d p (queued p) s _ f refl refl h)
        ]
      ]
  where
    dst : IpEndp
    dst = record { addr = dst_of hdr; port = hdr_dst dgram }

    queued : UdpPcb → UdpPcb
    queued p =
        let src : IpEndp = record { addr = src_of hdr; port = hdr_src dgram } in
        let entry : UdpQueueEntry = record { remote = src; payload = drop udp_hdr_size dgram } in
        record p { queue = p.queue ++ entry ∷ [] }

receive_next-IsTable :
    (es : List UdpQueueEntry) (d len : ℕ) (p : UdpPcb) (s : Udp)
    → slot s.pcbs d ≡ some p
    → IsTable s
    → IsTable (receive_next es d len p s).1
unfolding receive_next
receive_next-IsTable [] d len p s e h = h
receive_next-IsTable (x ∷ xs) d len p s e h =
    keep-IsTable d p (record p { queue = xs }) s _ e refl refl h

recvfrom_poll-IsTable : (d len : ℕ) (s : Udp) → IsTable s → IsTable (recvfrom_poll d len s).1
unfolding recvfrom_poll
recvfrom_poll-IsTable d len s h = elim (Option-cases (slot s.pcbs d)) [
  | inl e ↦ rw (e, recvfrom_poll) h
  | inr (p, e) ↦ rw (e, recvfrom_poll) (receive_next-IsTable p.queue d len p s e h)
]

-- The port that is found is one of those searched, and no block collides with it.
pub find_port_lem :
    (left port : ℕ) (addr : IpAddr) (pcbs : List (Option UdpPcb)) (x : ℕ)
    → find_port left port addr pcbs ≡ some x
    → (pcb_select (record { addr = addr; port = x }) pcbs ≡ none) × (port ≤ x) × (x < port + left)
unfolding find_port
find_port_lem zero port addr pcbs x h = absurd (cc)
find_port_lem (suc left) port addr pcbs x h =
    elim (Bool-cases (is_none (pcb_select (record { addr = addr; port = port }) pcbs))) [
      | inl t ↦
          let same : port ≡ x = some-injective port x (rw t at h) in
          (
            subst (λ y. pcb_select (record { addr = addr; port = y }) pcbs ≡ none) same
                (is_none-none (pcb_select (record { addr = addr; port = port }) pcbs) t),
            omega arith,
            omega arith,
          )
      | inr f ↦
          let (a, b, c) = find_port_lem left (port + 1) addr pcbs x (rw f at h) in
          (a, omega arith, omega arith)
    ]

assign_dynamic_port-IsTable :
    (d : ℕ) (p : UdpPcb) (s : Udp)
    → slot s.pcbs d ≡ some p
    → IsTable s
    → IsTable (assign_dynamic_port d p s).1
unfolding assign_dynamic_port
assign_dynamic_port-IsTable d p s e h =
    elim (Option-cases (find_port dynamic_ports dynamic_port_min p.local.addr s.pcbs)) [
      | inl f ↦ rw (f, assign_dynamic_port) h
      | inr (port, f) ↦
          let q : UdpPcb = record p { local = record (p.local) { port = port } } in
          rw (f, assign_dynamic_port)
            (set-IsTable d (some q) s _ refl
              (λ c.
                IsExclusive-bind d q s.pcbs _
                  (find_port_lem dynamic_ports dynamic_port_min p.local.addr s.pcbs port f).0 c
                  h.exclusive)
              (set-Changes d p q s.pcbs e) h)
    ]

send_from-IsTable :
    (local : IpAddr) (port : ℕ) (payload : List ℕ) (remote : IpEndp) (s : Udp)
    → IsTable s
    → IsTable (send_from local port payload remote s).1
unfolding send_from
send_from-IsTable local port payload remote s h =
    elim (Option-cases (source_addr local remote.addr s.net)) [
      | inl e ↦ rw (e, send_from) h
      | inr (a, e) ↦ rw (e, send_from) record { exclusive = h.exclusive; bounded = h.bounded }
    ]

sendto-IsTable :
    (d : ℕ) (payload : List ℕ) (remote : IpEndp) (s : Udp)
    → IsTable s
    → IsTable (sendto d payload remote s).1
unfolding sendto local_port
sendto-IsTable d payload remote s h = elim (Option-cases (slot s.pcbs d)) [
  | inl e ↦ rw (e, sendto) h
  | inr (p, e) ↦ rw (e, sendto) (sent p (local_port d p s) (with_port p e))
]
  where
    with_port : (p : UdpPcb) → slot s.pcbs d ≡ some p → IsTable (local_port d p s).1
    with_port p e =
        if_cases (λ (r : Option ℕ × Udp). IsTable r.1) (p.local.port == 0)
          (λ _. assign_dynamic_port-IsTable d p s e h) (λ _. h)

    sent :
        (p : UdpPcb) (r : Option ℕ × Udp)
        → IsTable r.1
        → IsTable
            (elim r.0 as (λ _. Option ℕ × Udp) [
              | none ↦ (none, r.1)
              | some port ↦ send_from p.local.addr port payload remote r.1
            ]).1
    sent p (none, t) k = k
    sent p (some port, t) k = send_from-IsTable p.local.addr port payload remote t k

-- One operation, with any arguments, or a change of the layers below.
pub data Step : Udp → Udp → Type 0 where
  opened : {s : Udp} → Step s (pcb_alloc s).1
  closed : {s : Udp} (d : ℕ) → Step s (pcb_release d s).1
  bound : {s : Udp} (d : ℕ) (local : IpEndp) → Step s (bind d local s).1
  arrived : {s : Udp} (hdr dgram : List ℕ) (iface : IpIface) → Step s (input hdr dgram iface s)
  fetched : {s : Udp} (d len : ℕ) → Step s (recvfrom_poll d len s).1
  sent_out :
      {s : Udp} (d : ℕ) (payload : List ℕ) (remote : IpEndp) → Step s (sendto d payload remote s).1
  below : {s : Udp} (n : Net) → Step s (record s { net = n })

-- What a table without blocks leads to.
pub data Reachable : Udp → Type 0 where
  start : {s : Udp} → s.pcbs ≡ [] → Reachable s
  next : {s t : Udp} → Reachable s → Step s t → Reachable t

Step-IsTable : {s t : Udp} → Step s t → IsTable s → IsTable t
Step-IsTable (opened {s}) h = pcb_alloc-IsTable s h
Step-IsTable (closed {s} d) h = pcb_release-IsTable d s h
Step-IsTable (bound {s} d local) h = bind-IsTable d local s h
Step-IsTable (arrived {s} hdr dgram iface) h = input-IsTable hdr dgram iface s h
Step-IsTable (fetched {s} d len) h = recvfrom_poll-IsTable d len s h
Step-IsTable (sent_out {s} d payload remote) h = sendto-IsTable d payload remote s h
Step-IsTable (below n) h = record { exclusive = h.exclusive; bounded = h.bounded }

-- In every reachable state no two blocks collide of which one is bound to a port, and there are
-- at most 16 slots, whatever the order of the operations.
pub Reachable-IsTable : {s : Udp} → Reachable s → IsTable s
Reachable-IsTable (start e) = record {
  exclusive = rw e (λ i j p q ne a. absurd (cc));
  bounded = rw e (omega arith);
}
Reachable-IsTable (next r step) = Step-IsTable step (Reachable-IsTable r)
