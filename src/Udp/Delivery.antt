-- ===== src/Udp/Delivery.antt =====
-- A datagram from one host's `output` to another's `recvfrom` (src/udp.rs).
use microps_rs.Base.{ℕ, ◌≡◌, refl, ap, ap₂, ◌∙◌, List, [], ◌∷◌, ◌++◌, some, true, take, drop}
use microps_rs.Addr.{IpEndp}
use microps_rs.Link.{IpIface}
use microps_rs.Table.{slot}
use microps_rs.Table.Laws.{slot-lt, slot-set_self}
use microps_rs.Ip.Packet.{src_of, dst_of}
use microps_rs.Udp.Pcb.{Udp, UdpPcb, UdpQueueEntry, pcb_select}
use microps_rs.Udp.Datagram.{accepts, build_datagram, hdr_src, hdr_dst, udp_hdr_size}
use microps_rs.Udp.Datagram.RoundTrip.{IsDatagram, Reads, build_datagram-Reads}
use microps_rs.Udp.{input, deliver, recvfrom_poll, receive_next, received}

-- The entry that is taken off next when `e` is put behind `es`.
abbrev pub first_of : List UdpQueueEntry → UdpQueueEntry → UdpQueueEntry
first_of [] e = e
first_of (x ∷ xs) e = x

-- A datagram that passes the tests goes to the block that is selected.
input-deliver :
    (hdr dgram : List ℕ) (iface : IpIface) (s : Udp) (d : ℕ) (p : UdpPcb)
    → accepts (src_of hdr) (dst_of hdr) dgram ≡ true
    → pcb_select (record { addr = dst_of hdr; port = hdr_dst dgram }) s.pcbs ≡ some d
    → slot s.pcbs d ≡ some p
    → input hdr dgram iface s
      ≡ deliver d p (record { addr = src_of hdr; port = hdr_src dgram }) (drop udp_hdr_size dgram) s
unfolding input
input-deliver hdr dgram iface s d p ok chosen found = rw (ok, chosen, found, input) refl

receive_next-first :
    (es : List UdpQueueEntry) (e : UdpQueueEntry) (d len : ℕ) (p : UdpPcb) (s : Udp)
    → (receive_next (es ++ e ∷ []) d len p s).0
      ≡ received (first_of es e).remote (take len (first_of es e).payload)
unfolding receive_next
receive_next-first [] e d len p s = refl
receive_next-first (x ∷ xs) e d len p s = refl

recvfrom_poll-deliver :
    (src : IpEndp) (payload : List ℕ) (s : Udp) (d len : ℕ) (p : UdpPcb)
    → slot s.pcbs d ≡ some p
    → (recvfrom_poll d len (deliver d p src payload s)).0
      ≡ received
          (first_of p.queue (record { remote = src; payload = payload })).remote
          (take len (first_of p.queue (record { remote = src; payload = payload })).payload)
unfolding recvfrom_poll deliver
recvfrom_poll-deliver src payload s d len p found =
    let stored =
      slot-set_self s.pcbs d
        (some (record p { queue = p.queue ++ record { remote = src; payload = payload } ∷ [] }))
        (slot-lt s.pcbs d p found) in
    rw (stored, recvfrom_poll)
      (receive_next-first p.queue (record { remote = src; payload = payload }) d len _ _)

-- A datagram that one host's `output` builds of fields that fit their widths, in a packet with the
-- same addresses, goes to the block that is selected for its
-- destination. `recvfrom` there then gives the oldest datagram that waits, this one if no other
-- does, with its sender's endpoint and its payload cut to the caller's buffer.
pub recvfrom_poll-input :
    (src dst : IpEndp) (payload hdr : List ℕ) (iface : IpIface) (s : Udp) (d len : ℕ) (p : UdpPcb)
    → IsDatagram src dst payload
    → src_of hdr ≡ src.addr
    → dst_of hdr ≡ dst.addr
    → pcb_select dst s.pcbs ≡ some d
    → slot s.pcbs d ≡ some p
    → (recvfrom_poll d len (input hdr (build_datagram src dst payload) iface s)).0
      ≡ received
          (first_of p.queue (record { remote = src; payload = payload })).remote
          (take len (first_of p.queue (record { remote = src; payload = payload })).payload)
recvfrom_poll-input src dst payload hdr iface s d len p h a b chosen found =
    rw delivered (recvfrom_poll-deliver src payload s d len p found)
  where
    dgram : List ℕ
    dgram = build_datagram src dst payload

    r : Reads src dst payload dgram
    r = build_datagram-Reads src dst payload h

    from : record { addr = src_of hdr; port = hdr_src dgram } ≡ src
    from = rw (a, r.src_read) refl

    to : record { addr = dst_of hdr; port = hdr_dst dgram } ≡ dst
    to = rw (b, r.dst_read) refl

    ok : accepts (src_of hdr) (dst_of hdr) dgram ≡ true
    ok = rw (a, b) r.accepted

    delivered : input hdr dgram iface s ≡ deliver d p src payload s
    delivered =
        input-deliver hdr dgram iface s d p ok (ap (λ key. pcb_select key s.pcbs) to ∙ chosen) found
        ∙ ap₂ (λ e bytes. deliver d p e bytes s) from r.payload_read
