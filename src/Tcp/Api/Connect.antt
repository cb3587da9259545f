-- ===== src/Tcp/Api/Connect.antt =====
-- `open` and `connect` of src/tcp.rs: the choice of the local endpoint, the SYN, and the wait.
use microps_rs.Base.{
  ℕ, zero, suc, ◌+◌, Bool, true, false, List, [], Option, none, some, ◌==◌, if◌then◌else◌, is_none,
  wrapping_add,
}
use microps_rs.Addr.{IpAddr, IpEndp, addr_eq, any}
use microps_rs.Link.{IpRoute, random32, device_at}
use microps_rs.Ip.Route.{route_lookup}
use microps_rs.Table.{slot}
use microps_rs.Tcp.{
  TcpState, closed, listen, syn_sent, syn_received, established, Tcp, TcpPcb, SndVars, RcvVars,
}
use microps_rs.Tcp.Flags.{syn}
use microps_rs.Tcp.Pcb.{pcb_alloc, pcb_release, pcb_select, store, transition, output}
use microps_rs.Tcp.Arrives.Opening.{recv_buf_size}
use microps_rs.Task.{snapshot}
use microps_rs.Tcp.Api.Transfer.{Poll, ready, failed, wait, mss_of}

abbrev pub dynamic_port_min : ℕ
dynamic_port_min = 49152

-- The ports from `DYNAMIC_PORT_MIN` to `DYNAMIC_PORT_MAX`.
abbrev pub dynamic_ports : ℕ
dynamic_ports = 16384

-- The loop over `left` ports from `port`: the first that no block uses.
unfoldable pub find_port : ℕ → ℕ → IpAddr → IpEndp → List (Option TcpPcb) → Option ℕ
find_port zero port addr remote pcbs = none
find_port (suc left) port addr remote pcbs =
    let rest = find_port left (port + 1) addr remote pcbs in
    if is_none (pcb_select (record { addr = addr; port = port }) remote pcbs)
    then some port
    else rest

-- A wildcard address becomes that of the interface towards the peer.
unfoldable pub local_addr : IpAddr → IpAddr → List IpRoute → Option IpAddr
local_addr local remote routes =
    if addr_eq local any
    then elim (route_lookup remote routes) [ none ↦ none | some r ↦ some r.iface.unicast ]
    else some local

unfoldable pub local_port : ℕ → IpAddr → IpEndp → List (Option TcpPcb) → Option ℕ
local_port port addr remote pcbs =
    let found = find_port dynamic_ports dynamic_port_min addr remote pcbs in
    if port == 0 then found else some port

-- The local endpoint of an active open; none if there is no route, no port, or the pair is in use.
unfoldable pub choose_local : IpEndp → IpEndp → List IpRoute → List (Option TcpPcb) → Option IpEndp
choose_local local remote routes pcbs = elim (local_addr local.addr remote.addr routes) [
  | none ↦ none
  | some addr ↦ elim (local_port local.port addr remote pcbs) [
    | none ↦ none
    | some port ↦
        let chosen : IpEndp = record { addr = addr; port = port } in
        if is_none (pcb_select chosen remote pcbs) then some chosen else none
  ]
]

-- The SYN of an active open, and whether it could be sent.
unfoldable pub send_syn : ℕ → TcpPcb → IpEndp → IpEndp → Tcp → Bool × Tcp
send_syn desc p local remote s =
    let (iss, n) = random32 s.net in
    let rcv : RcvVars = record (p.rcv) { wnd = recv_buf_size } in
    let p1 = record p { local = local; remote = remote; rcv = rcv; iss = iss } in
    let (sent, p2, n') = output syn [] p1 n in
    let snd : SndVars = record (p2.snd) { una = p2.iss; nxt = wrapping_add p2.iss 1 } in
    if is_none sent
    then (false, store desc (transition closed p2) (record s { net = n' }))
    else (true, store desc (transition syn_sent (record p2 { snd = snd })) (record s { net = n' }))

-- `connect`, up to the wait.
unfoldable pub connect_start : ℕ → IpEndp → Tcp → Bool × Tcp
connect_start desc remote s = elim (slot s.pcbs desc) [
  | none ↦ (false, s)
  | some p ↦ elim (choose_local p.local remote s.net.routes s.pcbs) [
    | none ↦ (false, s)
    | some local ↦ send_syn desc p local remote s
  ]
]

-- An error behind the allocation gives the block back.
unfoldable pub give_up : ℕ → Tcp → Option ℕ × Tcp
give_up desc s = (none, (pcb_release desc s).1)

unfoldable pub open_active : ℕ → TcpPcb → IpEndp → IpEndp → Tcp → Option ℕ × Tcp
open_active desc p local remote s = elim (choose_local local remote s.net.routes s.pcbs) [
  | none ↦ give_up desc s
  | some chosen ↦
      let (sent, s') = send_syn desc p chosen remote s in
      if sent then (some desc, s') else give_up desc s'
]

unfoldable pub open_passive : ℕ → TcpPcb → IpEndp → IpEndp → Tcp → Option ℕ × Tcp
open_passive desc p local remote s =
    if is_none (pcb_select local remote s.pcbs)
    then (some desc, store desc (transition listen (record p { local = local; remote = remote })) s)
    else give_up desc s

-- `open`, up to the wait: the new block listens, or has sent its SYN.
unfoldable pub open_start : IpEndp → IpEndp → Bool → Tcp → Option ℕ × Tcp
open_start local remote active s =
    let (desc, s') = pcb_alloc s in
    elim desc [
      | none ↦ (none, s')
      | some d ↦ elim (slot s'.pcbs d) [
        | none ↦ (none, s')
        | some p ↦
            if active then open_active d p local remote s' else open_passive d p local remote s'
      ]
    ]

-- One turn of the wait, of `open` (`release` is true) and of `connect`.
unfoldable pub establish_by_state : TcpState → Bool → ℕ → TcpPcb → Tcp → Poll (Unit {0}) × Tcp
establish_by_state established release desc p s = (ready tt, s)
establish_by_state listen release desc p s = (wait p.task (snapshot p.task s.tasks), s)
establish_by_state syn_received release desc p s = (wait p.task (snapshot p.task s.tasks), s)
establish_by_state syn_sent release desc p s = (wait p.task (snapshot p.task s.tasks), s)
establish_by_state _ release desc p s =
    let s' = store desc (transition closed p) s in
    (failed, if release then (pcb_release desc s').1 else s')

unfoldable pub establish_poll : Bool → ℕ → Tcp → Poll (Unit {0}) × Tcp
establish_poll release desc s = elim (slot s.pcbs desc) [
  | none ↦ (failed, s)
  | some p ↦ establish_by_state p.state release desc p s
]

-- A wait that is interrupted closes the block, and `open` releases it.
unfoldable pub establish_interrupted : Bool → ℕ → Tcp → Tcp
establish_interrupted release desc s =
    let s' : Tcp = elim (slot s.pcbs desc) [
      | none ↦ s
      | some p ↦ store desc (transition closed p) s
    ] in
    if release then (pcb_release desc s').1 else s'

-- The end of both: the segment size follows from the MTU towards the peer.
unfoldable pub set_mss : ℕ → Tcp → Bool × Tcp
set_mss desc s = elim (slot s.pcbs desc) [
  | none ↦ (false, s)
  | some p ↦ elim (route_lookup p.remote.addr s.net.routes) [
    | none ↦ (false, s)
    | some r ↦ (true, store desc (record p { mss = mss_of (device_at s.net r.iface.dev).mtu }) s)
  ]
]
