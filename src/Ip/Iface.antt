-- ===== src/Ip/Iface.antt =====
-- `iface_register` of src/ip.rs.
pub mod Laws
use microps_rs.Base.{
  ℕ, ◌+◌, ◌≡◌, refl, ◌⊎◌, inl, inr, Bool, true, false, List, [], ◌∷◌, ◌++◌, Option, none, some, set,
  if◌then◌else◌, length, get_elem?, get_elem?-set_self, Bool-cases, Option-cases,
}
use microps_rs.Addr.{IpAddr, addr_eq, any, IsAddr}
use microps_rs.Addr.Text.{parse_addr, print_addr}
use microps_rs.Addr.RoundTrip.{parse-print_addr}
use microps_rs.Link.{Net, Device, IpIface, IpRoute, device_at}
use microps_rs.Link.Devices.{add_iface, get_iface, has_family, family_ip, by_index}
use microps_rs.Ip.Route.{addr_and, addr_or_not, contains, matches, route_add, route_lookup}
use microps_rs.Ip.Route.Best.{In, IsBest, NoMatch, route_lookup-IsBest}

abbrev pub new_iface : ℕ → IpAddr → IpAddr → IpIface
new_iface dev unicast netmask = record {
  dev = dev;
  unicast = unicast;
  netmask = netmask;
  broadcast = addr_or_not unicast netmask;
}

-- The route to the interface's own network.
abbrev pub connected : IpIface → IpRoute
connected i = record {
  network = addr_and i.unicast i.netmask;
  netmask = i.netmask;
  nexthop = any;
  iface = i;
}

-- The device that the caller holds is the entry of `DEVICES` that it names.
unfoldable pub attach : IpIface → Net → Option IpIface × Net
attach i n =
    let (done, d) = add_iface (device_at n i.dev) i in
    if done
    then (
      some i,
      route_add (connected i)
          (record n { devices = set n.devices i.dev d; ifaces = n.ifaces ++ i ∷ [] }),
    )
    else (none, n)

unfoldable pub iface_register : ℕ → List ℕ → List ℕ → Net → Option IpIface × Net
unfolding attach
iface_register dev unicast netmask n = elim (parse_addr unicast) [
  | none ↦ (none, n)
  | some u ↦ elim (parse_addr netmask) [ none ↦ (none, n) | some m ↦ attach (new_iface dev u m) n ]
]
