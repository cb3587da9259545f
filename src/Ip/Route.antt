-- ===== src/Ip/Route.antt =====
-- The routing table and the interfaces of src/ip.rs.
pub mod Best
use microps_rs.Base.{
  ℕ, ◌+◌, ◌-◌, ◌/◌, ◌%◌, Bool, true, false, ◌&&◌, List, [], ◌∷◌, ◌++◌, Option, none, some, ltb,
  ◌==◌, if◌then◌else◌, bit_and, bit_or,
}
use microps_rs.Addr.{IpAddr, addr_eq, any}
use microps_rs.Link.{Net, IpIface, IpRoute, device_at}

unfoldable pub addr_and : IpAddr → IpAddr → IpAddr
addr_and a m = record {
  o0 = bit_and a.o0 m.o0;
  o1 = bit_and a.o1 m.o1;
  o2 = bit_and a.o2 m.o2;
  o3 = bit_and a.o3 m.o3;
}

-- `unicast | !netmask`.
unfoldable pub addr_or_not : IpAddr → IpAddr → IpAddr
addr_or_not a m = record {
  o0 = bit_or a.o0 (255 - m.o0);
  o1 = bit_or a.o1 (255 - m.o1);
  o2 = bit_or a.o2 (255 - m.o2);
  o3 = bit_or a.o3 (255 - m.o3);
}

-- `IpIface::contains`.
unfoldable pub contains : IpIface → IpAddr → Bool
unfolding addr_and
contains iface a = addr_eq (addr_and a iface.netmask) (addr_and iface.unicast iface.netmask)

-- `u8::count_ones`.
unfoldable pub count_ones : ℕ → ℕ
count_ones b =
    b % 2 + b / 2 % 2 + b / 4 % 2 + b / 8 % 2 + b / 16 % 2 + b / 32 % 2 + b / 64 % 2 + b / 128 % 2

unfoldable pub prefix : IpAddr → ℕ
unfolding count_ones
prefix m = count_ones m.o0 + count_ones m.o1 + count_ones m.o2 + count_ones m.o3

unfoldable pub matches : IpAddr → IpRoute → Bool
unfolding addr_and
matches dst r = addr_eq (addr_and dst r.netmask) r.network

-- `best` and `best_prefix` of the loop, which starts at -1: no route yet.
better : IpRoute → Option IpRoute → Option IpRoute
better r none = some r
better r (some b) = if ltb (prefix b.netmask) (prefix r.netmask) then some r else some b

route_scan : IpAddr → List IpRoute → Option IpRoute → Option IpRoute
unfolding better
route_scan dst [] best = best
route_scan dst (r ∷ rs) best = route_scan dst rs (if matches dst r then better r best else best)

unfoldable pub route_lookup : IpAddr → List IpRoute → Option IpRoute
unfolding route_scan
route_lookup dst routes = route_scan dst routes none

unfoldable pub route_add : IpRoute → Net → Net
route_add r n = record n { routes = n.routes ++ r ∷ [] }

-- `set_default_gateway`.
unfoldable pub set_default_gateway : IpIface → IpAddr → Net → Net
unfolding route_add
set_default_gateway iface gw n =
    route_add (record { network = any; netmask = any; nexthop = gw; iface = iface }) n

unfoldable pub iface_select : IpAddr → List IpIface → Option IpIface
iface_select a [] = none
iface_select a (i ∷ is) = if addr_eq i.unicast a then some i else iface_select a is
