-- ===== src/Stack.antt =====
-- The stack as a whole: the handler of src/ip.rs with the protocols above it, and the soft
-- interrupt of src/net.rs that drains the input queue.
pub mod Sock
pub mod Lifecycle
use microps_rs.Base.{
  ℕ, ◌+◌, ◌-◌, Bool, true, false, not, List, [], ◌∷◌, ◌++◌, Option, none, some, ltb, ◌==◌,
  if◌then◌else◌, length, take, slice, min, is_none,
}
use microps_rs.Addr.{IpAddr, IpEndp}
use microps_rs.Link.{
  Net, IpIface, Device, InputEntry, NetHandler, ip_input, arp_input, NetProtocol, device_at,
}
use microps_rs.Link.Devices.{get_iface, family_ip}
use microps_rs.Arp
use microps_rs.Icmp
use microps_rs.Ip.Packet.{check, is_for, hdr_len, total, protocol_of, src_of, dst_of}
use microps_rs.Table.{slot}
use microps_rs.Task.{TaskState}
use microps_rs.Udp.Pcb.{Udp, UdpPcb}
use microps_rs.Udp
use microps_rs.Tcp.{Tcp, TcpPcb}
use microps_rs.Tcp.Segment.{Parsed, dropped, panics, arrived, parse}
use microps_rs.Tcp.Arrives.{segment_arrives}

pub data IpHandler : Type 0 where
  icmp_handler udp_handler tcp_handler : IpHandler

pub record IpProtocol : Type 0 where
  pub protocol : ℕ
  pub handler : IpHandler

-- Everything that the crate keeps in statics, but the sockets.
pub record Host : Type 0 where
  pub net : Net
  pub tasks : List TaskState
  pub ip_protocols : List IpProtocol
  pub udp_pcbs : List (Option UdpPcb)
  pub tcp_pcbs : List (Option TcpPcb)

abbrev pub udp_view : Host → Udp
udp_view h = record { pcbs = h.udp_pcbs; tasks = h.tasks; net = h.net }

abbrev pub set_udp : Udp → Host → Host
set_udp u h = record h { net = u.net; tasks = u.tasks; udp_pcbs = u.pcbs }

abbrev pub tcp_view : Host → Tcp
tcp_view h = record { pcbs = h.tcp_pcbs; tasks = h.tasks; net = h.net }

abbrev pub set_tcp : Tcp → Host → Host
set_tcp t h = record h { net = t.net; tasks = t.tasks; tcp_pcbs = t.pcbs }

unfoldable pub find_handler : ℕ → List IpProtocol → Option IpHandler
find_handler protocol [] = none
find_handler protocol (p ∷ ps) =
    if p.protocol == protocol then some p.handler else find_handler protocol ps

-- `ip::register_protocol`.
unfoldable pub register_protocol : IpProtocol → Host → Bool × Host
register_protocol p h =
    if is_none (find_handler p.protocol h.ip_protocols)
    then (true, record h { ip_protocols = h.ip_protocols ++ p ∷ [] })
    else (false, h)

-- `none` is a panic: a slice or a subtraction out of range.
unfoldable pub tcp_input : Parsed → Host → Option Host
tcp_input dropped h = some h
tcp_input panics h = none
tcp_input (arrived seg flags payload local remote) h =
    some (set_tcp (segment_arrives seg flags payload local remote (tcp_view h)) h)

unfoldable pub run_handler : IpHandler → List ℕ → List ℕ → IpIface → Host → Option Host
run_handler icmp_handler hdr payload iface h =
    some (record h { net = Icmp.input (src_of hdr) payload iface h.net })
run_handler udp_handler hdr payload iface h =
    some (set_udp (Udp.input hdr payload iface (udp_view h)) h)
run_handler tcp_handler hdr payload iface h =
    tcp_input (parse (src_of hdr) (dst_of hdr) iface payload) h

-- No handler: the sender is told, with the header and 8 bytes of what follows it.
unfoldable pub proto_unreach : List ℕ → IpIface → Host → Host
proto_unreach buf iface h =
    let len = hdr_len buf + min 8 (total buf - hdr_len buf) in
    record h {
      net =
          (Icmp.output Icmp.dest_unreach Icmp.code_proto_unreach 0 (take len buf) iface.unicast
            (src_of buf) h.net).1;
    }

-- The end of `input`: the slice and the subtraction want the header within the total length.
unfoldable pub hand_up : List ℕ → IpIface → Host → Option Host
hand_up buf iface h =
    if ltb (total buf) (hdr_len buf)
    then none
    else elim (find_handler (protocol_of buf) h.ip_protocols) [
      | some handler ↦ run_handler handler buf (slice buf (hdr_len buf) (total buf)) iface h
      | none ↦ some (proto_unreach buf iface h)
    ]

-- `input` of src/ip.rs.
unfoldable pub ip_receive : List ℕ → ℕ → Host → Option Host
ip_receive buf dev h =
    if not (is_none (check buf))
    then some h
    else elim (get_iface family_ip (device_at h.net dev).ifaces) [
      | none ↦ some h
      | some iface ↦ if is_for iface buf then hand_up buf iface h else some h
    ]

unfoldable pub net_handler : ℕ → List NetProtocol → Option NetHandler
net_handler ty [] = none
net_handler ty (p ∷ ps) = if p.ty == ty then some p.handler else net_handler ty ps

unfoldable pub run_net_handler : Option NetHandler → InputEntry → Host → Option Host
run_net_handler none e h = some h
run_net_handler (some ip_input) e h = ip_receive e.payload e.dev h
run_net_handler (some arp_input) e h = some (record h { net = Arp.input e.payload e.dev h.net })

-- One turn of the loop of `softirq_handler`: the oldest entry is taken off and handled.
unfoldable pub handle_next : List InputEntry → Host → Option Host
handle_next [] h = some h
handle_next (e ∷ es) h =
    run_net_handler (net_handler e.ty h.net.protocols) e
      (record h { net = record (h.net) { input_queue = es } })
