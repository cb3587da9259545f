-- ===== src/Tests/Datagrams.antt =====
-- Datagrams between two sockets, and a sequence of operations.
use microps_rs.Base.{ℕ, ◌≡◌, refl, List, [], ◌∷◌, none, some, arith}
use microps_rs.Addr.{addr_eq}
use microps_rs.Task.{fresh_task}
use microps_rs.Udp.Pcb.{Udp, UdpPcb, pcb_select, endp_match, pcb_alloc, empty}
use microps_rs.Udp.Datagram.{build_datagram}
use microps_rs.Udp.Datagram.RoundTrip.{IsDatagram}
use microps_rs.Udp.{bind, input, recvfrom_poll, received}
use microps_rs.Udp.Laws.{IsTable}
use microps_rs.Udp.Reach.{Reachable, start, next, opened, bound, Reachable-IsTable}
use microps_rs.Udp.{find_port}
use microps_rs.Udp.Delivery.{recvfrom_poll-input}
use microps_rs.Tests.Data.{here, local, remote, net, iface}

payload-IsDatagram : IsDatagram remote local (5 ∷ 6 ∷ 7 ∷ [])
payload-IsDatagram = record {
  payload_fits = omega arith;
  bytes = omega arith;
  src_fits = omega arith;
  dst_fits = omega arith;
}

abbrev block : UdpPcb
block = record (empty 0) { local = local }

abbrev udp : Udp
udp = record { pcbs = none ∷ some block ∷ []; tasks = fresh_task ∷ []; net = net }

-- The header of the packet that carries the datagram.
abbrev hdr : List ℕ
hdr = 69 ∷ 0 ∷ 0 ∷ 31 ∷ 0 ∷ 9 ∷ 0 ∷ 0 ∷ 255 ∷ 17 ∷ 0 ∷ 0 ∷ 192 ∷ 0 ∷ 2 ∷ 1 ∷ 192 ∷ 0 ∷ 2 ∷ 2 ∷ []

chosen : pcb_select local udp.pcbs ≡ some 1
unfolding pcb_select endp_match addr_eq
chosen = refl

recvfrom_poll-input_example :
    (recvfrom_poll 1 2 (input hdr (build_datagram remote local (5 ∷ 6 ∷ 7 ∷ [])) iface udp)).0
    ≡ received remote (5 ∷ 6 ∷ [])
recvfrom_poll-input_example =
    recvfrom_poll-input remote local (5 ∷ 6 ∷ 7 ∷ []) hdr iface udp 1 2 block payload-IsDatagram
      refl refl chosen refl

abbrev fresh : Udp
fresh = record { pcbs = []; tasks = []; net = net }

-- Two sockets are opened, and one is bound.
two_opened : Reachable (bind 1 local (pcb_alloc (pcb_alloc fresh).1).1).1
two_opened = next (next (next (start {s = fresh} refl) opened) opened) (bound 1 local)

Reachable-IsTable_example : IsTable (bind 1 local (pcb_alloc (pcb_alloc fresh).1).1).1
Reachable-IsTable_example = Reachable-IsTable two_opened

first_port : find_port 16384 49152 here udp.pcbs ≡ some 49152
unfolding find_port pcb_select endp_match addr_eq
first_port = refl
