-- ===== src/Udp.antt =====
-- src/udp.rs: the control blocks, datagrams in and out, and the calls of the application.
pub mod Pcb
pub mod Datagram
pub mod Laws
pub mod Exclusive
pub mod Reach
pub mod Delivery
pub mod Print
use microps_rs.Base.{
  ℕ, zero, suc, ◌+◌, ◌-◌, Bool, true, false, not, ◌||◌, List, [], ◌∷◌, ◌++◌, Option, none, some,
  ltb, ◌==◌, if◌then◌else◌, length, take, drop, set, is_none, min,
}
use microps_rs.Addr.{IpAddr, IpEndp, addr_eq, any}
use microps_rs.Link.{Net, IpIface}
use microps_rs.Ip.Packet.{src_of, dst_of, hdr_bytes}
use microps_rs.Ip.Route.{route_lookup}
use microps_rs.Ip.{output as ip_output}
use microps_rs.Icmp.{dest_unreach, code_port_unreach, output as icmp_output}
use microps_rs.Table.{slot, alloc}
use microps_rs.Task.{fresh_task, snapshot}
use microps_rs.Task
use Pcb.{Udp, UdpPcb, UdpQueueEntry, pcb_select, pcb_alloc, pcb_release}
use Datagram.{build_datagram, accepts, hdr_src, hdr_dst, udp_hdr_size, ip_protocol_udp}

unfoldable pub bind : ℕ → IpEndp → Udp → Bool × Udp
bind desc local s = elim (slot s.pcbs desc) [
  | none ↦ (false, s)
  | some p ↦
      if is_none (pcb_select local s.pcbs)
      then (true, record s { pcbs = set s.pcbs desc (some (record p { local = local })) })
      else (false, s)
]

-- The datagram is queued on the block, and whoever waits on it is woken.
unfoldable pub deliver : ℕ → UdpPcb → IpEndp → List ℕ → Udp → Udp
deliver desc p src payload s =
    let entry : UdpQueueEntry = record { remote = src; payload = payload } in
    record s {
      pcbs = set s.pcbs desc (some (record p { queue = p.queue ++ entry ∷ [] }));
      tasks = Task.notify p.task s.tasks;
    }

-- No block is bound: the sender is told, if it was a unicast.
unfoldable pub unreachable : List ℕ → List ℕ → IpIface → Udp → Udp
unreachable hdr dgram iface s =
    let quoted = hdr_bytes hdr ++ take 8 dgram in
    let sent =
      icmp_output dest_unreach code_port_unreach 0 quoted iface.unicast (src_of hdr) s.net in
    if addr_eq (dst_of hdr) iface.unicast then record s { net = sent.1 } else s

-- `input`; `hdr` is the packet whose header describes the datagram.
unfoldable pub input : List ℕ → List ℕ → IpIface → Udp → Udp
input hdr dgram iface s =
    let src : IpEndp = record { addr = src_of hdr; port = hdr_src dgram } in
    let dst : IpEndp = record { addr = dst_of hdr; port = hdr_dst dgram } in
    if not (accepts (src_of hdr) (dst_of hdr) dgram) then s else elim (pcb_select dst s.pcbs) [
      | none ↦ unreachable hdr dgram iface s
      | some desc ↦ elim (slot s.pcbs desc) [
        | none ↦ s
        | some p ↦ deliver desc p src (drop udp_hdr_size dgram) s
      ]
    ]

-- One turn of `recvfrom`: a datagram cut to the caller's buffer, an error, or a wait.
pub data Received : Type 0 where
  received : IpEndp → List ℕ → Received
  not_bound : Received
  wait : ℕ → ℕ → Received

unfoldable pub receive_next : List UdpQueueEntry → ℕ → ℕ → UdpPcb → Udp → Received × Udp
receive_next [] desc len p s = (wait p.task (snapshot p.task s.tasks), s)
receive_next (e ∷ es) desc len p s = (
  received e.remote (take len e.payload),
  record s { pcbs = set s.pcbs desc (some (record p { queue = es })) },
)

unfoldable pub recvfrom_poll : ℕ → ℕ → Udp → Received × Udp
recvfrom_poll desc len s = elim (slot s.pcbs desc) [
  | none ↦ (not_bound, s)
  | some p ↦ receive_next p.queue desc len p s
]

-- `output`: the number of bytes sent.
unfoldable pub output : IpEndp → IpEndp → List ℕ → Net → Option ℕ × Net
output src dst payload n =
    let (sent, n') =
      ip_output ip_protocol_udp (build_datagram src dst payload) src.addr dst.addr n in
    if ltb 65535 (udp_hdr_size + length payload)
    then (none, n)
    else (if sent then some (length payload) else none, n')

abbrev pub dynamic_port_min : ℕ
dynamic_port_min = 49152

abbrev pub dynamic_ports : ℕ
dynamic_ports = 16384

-- The loop of `assign_dynamic_port` over `left` ports from `port`.
unfoldable pub find_port : ℕ → ℕ → IpAddr → List (Option UdpPcb) → Option ℕ
find_port zero port addr pcbs = none
find_port (suc left) port addr pcbs =
    let rest = find_port left (port + 1) addr pcbs in
    if is_none (pcb_select (record { addr = addr; port = port }) pcbs) then some port else rest

unfoldable pub assign_dynamic_port : ℕ → UdpPcb → Udp → Option ℕ × Udp
assign_dynamic_port desc p s = elim (find_port dynamic_ports dynamic_port_min p.local.addr s.pcbs) [
  | none ↦ (none, s)
  | some port ↦
      let local : IpEndp = record (p.local) { port = port } in
      (some port, record s { pcbs = set s.pcbs desc (some (record p { local = local })) })
]

-- The local port, assigned at the first use.
unfoldable pub local_port : ℕ → UdpPcb → Udp → Option ℕ × Udp
local_port desc p s =
    let assigned = assign_dynamic_port desc p s in
    if p.local.port == 0 then assigned else (some p.local.port, s)

unfoldable pub source_addr : IpAddr → IpAddr → Net → Option IpAddr
source_addr local remote n =
    if addr_eq local any
    then elim (route_lookup remote n.routes) [ none ↦ none | some r ↦ some r.iface.unicast ]
    else some local

unfoldable pub send_from : IpAddr → ℕ → List ℕ → IpEndp → Udp → Option ℕ × Udp
send_from local port payload remote s = elim (source_addr local remote.addr s.net) [
  | none ↦ (none, s)
  | some src ↦
      let (sent, n) = output (record { addr = src; port = port }) remote payload s.net in
      (sent, record s { net = n })
]

unfoldable pub sendto : ℕ → List ℕ → IpEndp → Udp → Option ℕ × Udp
sendto desc payload remote s = elim (slot s.pcbs desc) [
  | none ↦ (none, s)
  | some p ↦
      let (port, s') = local_port desc p s in
      elim port [ none ↦ (none, s') | some port' ↦ send_from p.local.addr port' payload remote s' ]
]
