-- ===== src/Link/Devices.antt =====
-- src/device.rs: registration, the flags, and the interfaces of a device.
use microps_rs.Base.{
  ℕ, Bool, true, false, not, List, [], ◌∷◌, ◌++◌, Option, none, some, bit_and, bit_or, ◌==◌,
  if◌then◌else◌, length, get_elem?, take, drop,
}
use microps_rs.Link.{Device, Ops, loopback, ether_tap, Net, IpIface}

abbrev pub flag_up : ℕ
flag_up = 1

abbrev pub flag_need_arp : ℕ
flag_need_arp = 256

-- `FAMILY_IP`, the family of every `IpIface`.
abbrev pub family_ip : ℕ
family_ip = 1

abbrev pub family : IpIface → ℕ
family i = family_ip

unfoldable pub is_up : Device → Bool
is_up d = not (bit_and d.flags flag_up == 0)

unfoldable pub has_family : ℕ → List IpIface → Bool
has_family f [] = false
has_family f (i ∷ is) = if family i == f then true else has_family f is

-- At most one interface of a family.
unfoldable pub add_iface : Device → IpIface → Bool × Device
unfolding has_family
add_iface d iface =
    if has_family (family iface) d.ifaces
    then (false, d)
    else (true, record d { ifaces = d.ifaces ++ iface ∷ [] })

unfoldable pub get_iface : ℕ → List IpIface → Option IpIface
get_iface f [] = none
get_iface f (i ∷ is) = if family i == f then some i else get_iface f is

-- What the system calls of the tap's `open` come to: refused before the address is known, after
-- it was stored, or never. The address is the configured one or the kernel's.
pub data TapOpen : Type 0 where
  refused : TapOpen
  refused_late opened : List ℕ → TapOpen

unfoldable pub store_mac : List ℕ → List ℕ → List ℕ
store_mac mac addr = take 6 mac ++ drop 6 addr

-- `ops.open` and `ops.close`.
unfoldable pub ops_open : Ops → TapOpen → Device → Bool × Device
unfolding store_mac
ops_open loopback k d = (true, d)
ops_open (ether_tap up) refused d = (false, d)
ops_open (ether_tap up) (refused_late mac) d = (false, record d { addr = store_mac mac d.addr })
ops_open (ether_tap up) (opened mac) d =
    (true, record d { addr = store_mac mac d.addr; ops = ether_tap true })

unfoldable pub ops_close : Ops → Device → Bool × Device
ops_close loopback d = (true, d)
ops_close (ether_tap up) d = (true, record d { ops = ether_tap false })

-- `Device::open`.
unfoldable pub open_device : TapOpen → Device → Bool × Device
unfolding is_up ops_open
open_device k d =
    let (done, d') = ops_open d.ops k d in
    if is_up d
    then (false, d)
    else if done
    then (true, record d' { flags = bit_or d'.flags flag_up })
    else (false, d')

-- `Device::close`.
unfoldable pub close_device : Device → Bool × Device
unfolding is_up ops_close
close_device d =
    let (done, d') = ops_close d.ops d in
    if not (is_up d)
    then (false, d)
    else if done
    then (true, record d' { flags = bit_and d'.flags 65534 })
    else (false, d')

-- `register`: the index is the position in `DEVICES`.
unfoldable pub register : Device → Net → ℕ × Net
register d n =
    let index = length n.devices in
    (index, record n { devices = n.devices ++ (record d { index = index }) ∷ [] })

abbrev pub by_index : Net → ℕ → Option Device
by_index n i = get_elem? n.devices i
