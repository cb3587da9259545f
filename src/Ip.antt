-- ===== src/Ip.antt =====
-- src/ip.rs: routes and interfaces, and the way out of a packet.
pub mod Route
pub mod Packet
pub mod Iface
pub mod Print
use microps_rs.Base.{
  ℕ, ◌+◌, ◌%◌, Bool, true, false, not, ◌&&◌, ◌||◌, List, [], ◌∷◌, ◌++◌, Option, none, some, ltb,
  ◌==◌, if◌then◌else◌, length, take, drop, replicate, bit_and, u16,
}
use microps_rs.Addr.{IpAddr, addr_eq, any, broadcast_addr}
use microps_rs.Link.{Net, Device, IpIface, IpRoute, device_at, random32}
use microps_rs.Link.Devices.{flag_need_arp}
use microps_rs.Link.Driver.{output as device_output}
use microps_rs.Arp.{Resolution, failed, pending, found, resolve, ether_type_ip}
use Route.{route_lookup}
use Packet.{build_packet, ip_hdr_size_min}

-- The first `alen` bytes of an address, in a buffer of 16.
abbrev pub hw_addr : ℕ → List ℕ → List ℕ
hw_addr alen a = take alen a ++ drop alen (replicate 16 0)

-- A device that needs ARP gets the broadcast address or the resolved one; while it is being
-- resolved the packet is dropped, and that is no error.
unfoldable pub output_device : IpIface → List ℕ → IpAddr → Net → Bool × Net
output_device iface buf target n =
    let d = device_at n iface.dev in
    let send = λ (hw : List ℕ) (m : Net). device_output iface.dev ether_type_ip buf hw m in
    let (answer, n') = resolve iface target n in
    if bit_and d.flags flag_need_arp == 0
    then send (replicate 16 0) n
    else if addr_eq target iface.broadcast || addr_eq target broadcast_addr
    then send (hw_addr d.alen d.broadcast) n
    else elim answer [
      | failed ↦ (false, n')
      | pending ↦ (true, n')
      | found mac ↦ send (hw_addr d.alen mac) n'
    ]

-- The source address that `output` settles on: that of the route's interface, or none.
unfoldable pub source_addr : IpAddr → IpIface → Option IpAddr
source_addr src iface =
    if addr_eq src any
    then some iface.unicast
    else if addr_eq src iface.unicast
    then some src
    else none

unfoldable pub nexthop_of : IpRoute → IpAddr → IpAddr
nexthop_of r dst = if addr_eq r.nexthop any then dst else r.nexthop

-- `output`, once the route and the source are known.
unfoldable pub output_via : IpRoute → ℕ → List ℕ → IpAddr → IpAddr → Net → Bool × Net
output_via r protocol payload src dst n =
    let (id, n') = random32 n in
    if ltb (device_at n r.iface.dev).mtu (ip_hdr_size_min + length payload)
    then (false, n)
    else elim (build_packet protocol payload src dst (u16 id)) [
      | none ↦ (false, n')
      | some buf ↦ output_device r.iface buf (nexthop_of r dst) n'
    ]

unfoldable pub output : ℕ → List ℕ → IpAddr → IpAddr → Net → Bool × Net
output protocol payload src dst n =
    if addr_eq src any && addr_eq dst broadcast_addr
    then (false, n)
    else elim (route_lookup dst n.routes) [
      | none ↦ (false, n)
      | some r ↦ elim (source_addr src r.iface) [
        | none ↦ (false, n)
        | some src' ↦ output_via r protocol payload src' dst n
      ]
    ]
