-- ===== src/Arp/Exchange.antt =====
-- Two stations of src/arp.rs: the request of the one, the reply of the other, and what each of
-- them then knows.
use microps_rs.Base.{
  ℕ, ◌-◌, ◌≤◌, ◌<◌, ◌≡◌, refl, sym, ap, subst, ◌∙◌, List, none, some, arith, ◌==◌, length, take,
  drop, replicate, length-take, if◌then◌else◌,
}
use microps_rs.Addr.{IpAddr, addr_eq_refl}
use microps_rs.Link.{Net, IpIface, incomplete, resolved, device_at}
use microps_rs.Link.Driver.{build_frame}
use microps_rs.Arp.{
  build_packet, request, reply, found, pending, resolve, answer, input, ether_type_arp,
  arp_op_request, arp_op_reply,
}
use microps_rs.Arp.Station.{IsStation, written, output-written, moved, newest, drop-build_frame}
use microps_rs.Arp.Reads.{Reads, build_packet-Reads, length-build_packet}
use microps_rs.Arp.Cache.Learned.{learned, HasPlace, cache_select-learned}
use microps_rs.Arp.Cache.{cache_select, cache_insert, ether_addr_any}

-- A packet for the station's own address: the sender is learned, and a request is answered.
input_lem :
    (n : Net) (i : IpIface) (op : ℕ) (sha : List ℕ) (spa : IpAddr) (buf : List ℕ)
    → IsStation n i
    → Reads op sha spa i.unicast buf
    → let n' = record n { cache = learned n.now spa sha n.cache } in
      input buf i.dev n
      ≡ (if op == arp_op_request then (reply i.dev sha spa i.unicast n').1 else n')
unfolding input answer
input_lem n i op sha spa buf st r =
    rw
      (
        input,
        r.valid,
        st.iface,
        answer,
        r.spa_read,
        r.sha_read,
        r.tpa_read,
        addr_eq_refl i.unicast,
        r.op_read,
      )
      refl

-- The packets of a station that asks, and of one that answers.
abbrev asking : Net → IpIface → IpAddr → List ℕ
asking n i tpa = build_packet arp_op_request (device_at n i.dev).addr i.unicast (replicate 6 0) tpa

abbrev answering : Net → IpIface → List ℕ → IpAddr → List ℕ
answering n i tha tpa = build_packet arp_op_reply (device_at n i.dev).addr i.unicast tha tpa

-- The cache of a station that asks.
abbrev pub awaiting : Net → IpAddr → Net
awaiting n pa = record n { cache = cache_insert n.now pa ether_addr_any incomplete n.cache }

resolve-asking :
    (n : Net) (i : IpIface) (pa : IpAddr)
    → IsStation n i
    → cache_select pa n.cache ≡ none
    → resolve i pa n ≡ (
      pending,
      written i.dev ether_type_arp
          (asking n i pa)
          (take 6 (device_at n i.dev).broadcast)
          (awaiting n pa),
    )
unfolding resolve request
resolve-asking n i pa st miss =
    let dst = take 6 (device_at n i.dev).broadcast in
    let sent =
      output-written (awaiting n pa) i ether_type_arp (asking n i pa) dst
        (moved n i (cache_insert n.now pa ether_addr_any incomplete n.cache) n.wire st)
        (length-build_packet arp_op_request (device_at n i.dev).addr (replicate 6 0) i.unicast pa
          st.addr_len (omega arith))
        (omega (arith, length-take 6 (device_at n i.dev).broadcast, st.broadcast_len)) in
    rw (miss, resolve, request, sent) refl

resolve-found :
    (n : Net) (i : IpIface) (pa : IpAddr) (ha : List ℕ)
    → cache_select pa n.cache ≡ some (resolved, ha)
    → resolve i pa n ≡ (found ha, n)
unfolding resolve
resolve-found n i pa ha h = rw (h, resolve) refl

-- A station that is asked answers, and knows who asked.
input-asked :
    (n : Net) (i : IpIface) (sha : List ℕ) (spa : IpAddr) (buf : List ℕ)
    → IsStation n i
    → 6 ≤ length sha
    → Reads arp_op_request sha spa i.unicast buf
    → input buf i.dev n
      ≡ written i.dev ether_type_arp
          (answering n i sha spa)
          sha
          (record n { cache = learned n.now spa sha n.cache })
unfolding reply
input-asked n i sha spa buf st len r =
    let n' : Net = record n { cache = learned n.now spa sha n.cache } in
    let sent =
      output-written n' i ether_type_arp (answering n i sha spa) sha
        (moved n i (learned n.now spa sha n.cache) n.wire st)
        (length-build_packet arp_op_reply (device_at n i.dev).addr sha i.unicast spa st.addr_len
          len)
        len in
    input_lem n i arp_op_request sha spa buf st r ∙ ap (λ p. p.1) sent

-- A reply is learned from.
input-answered :
    (n : Net) (i : IpIface) (sha : List ℕ) (spa : IpAddr) (buf : List ℕ)
    → IsStation n i
    → Reads arp_op_reply sha spa i.unicast buf
    → input buf i.dev n ≡ record n { cache = learned n.now spa sha n.cache }
input-answered n i sha spa buf st r = input_lem n i arp_op_reply sha spa buf st r

take_six : (xs : List ℕ) → 6 ≤ length xs → 6 ≤ length (take 6 xs)
take_six xs h = omega (arith, length-take 6 xs)

-- A packet as it arrives, out of the frame.
arrived-Reads :
    (dst src : List ℕ) (op : ℕ) (tha : List ℕ) (spa tpa : IpAddr)
    → op < 65536
    → 6 ≤ length dst
    → 6 ≤ length src
    → 6 ≤ length tha
    → Reads op
        (take 6 src)
        spa
        tpa
        (drop 14 (build_frame dst src ether_type_arp (build_packet op src spa tha tpa)))
arrived-Reads dst src op tha spa tpa lt p q t =
    let packet = build_packet op src spa tha tpa in
    subst (Reads op (take 6 src) spa tpa) (sym (drop-build_frame dst src ether_type_arp packet p q))
      (build_packet-Reads op src tha spa tpa (replicate (46 - length packet) 0) lt q t)

-- A station on the tap asks for another's address, which it does not know; the other gets the
-- request, and the first the reply. Where both caches have a place for it (room, or an entry
-- already), both know each other then: each resolves the other's address.
pub resolve-exchange :
    (a b : Net) (i j : IpIface)
    → IsStation a i
    → IsStation b j
    → cache_select j.unicast a.cache ≡ none
    → HasPlace j.unicast (awaiting a j.unicast).cache
    → HasPlace i.unicast b.cache
    → let asked = resolve i j.unicast a in
      let b' = input (newest asked.1) j.dev b in
      let a' = input (newest b') i.dev asked.1 in
      (asked.0 ≡ pending)
      × (resolve j i.unicast b' ≡ (found (take 6 (device_at a i.dev).addr), b'))
      × (resolve i j.unicast a' ≡ (found (take 6 (device_at b j.dev).addr), a'))
resolve-exchange a b i j sa sb miss pa pb =
    let to_all = take 6 (device_at a i.dev).broadcast in
    let my_addr = take 6 (device_at a i.dev).addr in
    let to_all_len : 6 ≤ length to_all = take_six (device_at a i.dev).broadcast sa.broadcast_len in
    let my_len : 6 ≤ length my_addr = take_six (device_at a i.dev).addr sa.addr_len in
    let a1 = written i.dev ether_type_arp (asking a i j.unicast) to_all (awaiting a j.unicast) in
    let b1 =
      written j.dev ether_type_arp (answering b j my_addr i.unicast) my_addr
        (record b { cache = learned b.now i.unicast my_addr b.cache }) in
    let a1_station = moved a i (awaiting a j.unicast).cache a1.wire sa in
    let ea = resolve-asking a i j.unicast sa miss in
    let eb = input-asked b j my_addr i.unicast (newest a1) sb my_len (
      arrived-Reads to_all (device_at a i.dev).addr arp_op_request (replicate 6 0) i.unicast
        j.unicast (omega arith) to_all_len sa.addr_len (omega arith)) in
    let ec =
      input-answered a1 i (take 6 (device_at b j.dev).addr) j.unicast (newest b1) a1_station (
        arrived-Reads my_addr (device_at b j.dev).addr arp_op_reply my_addr j.unicast i.unicast
          (omega arith) my_len sb.addr_len my_len) in
    rw (ea, eb, ec)
      (
        refl,
        resolve-found b1 j i.unicast my_addr
            (cache_select-learned b.now i.unicast my_addr b.cache pb),
        resolve-found
            (record a1 {
              cache = learned a1.now j.unicast (take 6 (device_at b j.dev).addr) a1.cache;
            })
            i j.unicast (take 6 (device_at b j.dev).addr)
            (cache_select-learned a1.now j.unicast (take 6 (device_at b j.dev).addr) a1.cache pa),
      )
