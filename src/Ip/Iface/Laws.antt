-- ===== src/Ip/Iface/Laws.antt =====
-- What `iface_register` of src/ip.rs leaves behind.
use microps_rs.Base.{
  ℕ, ◌<◌, ◌≡◌, refl, true, false, List, [], ◌∷◌, ◌++◌, Option, none, some, set, get_or, length,
  arith, inl, inr, ◌⊎◌, ◌≤◌, if_cases,
}
use microps_rs.Addr.{IpAddr, IsAddr, addr_eq, addr_eq_refl}
use microps_rs.Addr.Text.{print_addr}
use microps_rs.Addr.RoundTrip.{parse-print_addr}
use microps_rs.Link.{Net, IpIface, IpRoute, device_at}
use microps_rs.Link.Devices.{add_iface, get_iface, has_family, family_ip}
use microps_rs.Ip.Route.{addr_and, contains, matches, prefix, route_add, route_lookup, iface_select}
use microps_rs.Ip.Route.Best.{In, Below, IsBest, NoMatch, route_lookup-IsBest}
use microps_rs.Ip.Iface.{new_iface, attach, iface_register}

get_or-set :
    {A : Type 0} (xs : List A) (i : ℕ) (v d : A) → i < length xs → get_or (set xs i v) i d ≡ v
get_or-set [] i v d h = absurd (omega arith)
get_or-set (x ∷ xs) ℕ.zero v d h = refl
get_or-set (x ∷ xs) (ℕ.suc i) v d h = get_or-set xs i v d (omega arith)

-- Every interface is one of IPv4, so a device has none before its first.
first_iface :
    (i : IpIface) (is : List IpIface)
    → has_family family_ip is ≡ false
    → get_iface family_ip (is ++ i ∷ []) ≡ some i
unfolding has_family get_iface
first_iface i [] h = refl
first_iface i (x ∷ xs) h = absurd (cc)

-- What a table with one route more finds.
Below-last :
    (dst : IpAddr) (n : ℕ) (rs : List IpRoute) (r : IpRoute)
    → Below dst n (rs ++ r ∷ [])
    → matches dst r ≡ true
    → prefix r.netmask ≤ n
Below-last dst n [] r (h, _) hit = h hit
Below-last dst n (x ∷ xs) r (_, h) hit = Below-last dst n xs r h hit

NoMatch-last :
    (dst : IpAddr) (rs : List IpRoute) (r : IpRoute)
    → NoMatch dst (rs ++ r ∷ [])
    → matches dst r ≡ false
NoMatch-last dst [] r (h, _) = h
NoMatch-last dst (x ∷ xs) r (_, h) = NoMatch-last dst xs r h

In-last : (q r : IpRoute) (rs : List IpRoute) → In q (rs ++ r ∷ []) → (q ≡ r) ⊎ In q rs
In-last q r [] (inl e) = inl e
In-last q r [] (inr h) = absurd h
In-last q r (x ∷ xs) (inl e) = inr (inl e)
In-last q r (x ∷ xs) (inr h) = elim (In-last q r xs h) [ inl e ↦ inl e | inr m ↦ inr (inr m) ]

-- The last route of the table, or an older one that is as long at least.
abbrev pub FindsRoute : IpAddr → IpRoute → List IpRoute → Option IpRoute → Type 0
FindsRoute dst r rs none = ⊥
FindsRoute dst r rs (some q) =
    (q ≡ r) ⊎ (In q rs × (matches dst q ≡ true) × (prefix r.netmask ≤ prefix q.netmask))

route_lookup-last :
    (dst : IpAddr) (rs : List IpRoute) (r : IpRoute)
    → matches dst r ≡ true
    → FindsRoute dst r rs (route_lookup dst (rs ++ r ∷ []))
route_lookup-last dst rs r hit =
    found (route_lookup dst (rs ++ r ∷ [])) (route_lookup-IsBest dst (rs ++ r ∷ []))
  where
    found : (o : Option IpRoute) → IsBest dst (rs ++ r ∷ []) o → FindsRoute dst r rs o
    found none miss = let no = NoMatch-last dst rs r miss in absurd (cc)
    found (some q) (one, fits, below) = elim (In-last q r rs one) [
      | inl e ↦ inl e
      | inr m ↦ inr (m, fits, Below-last dst (prefix q.netmask) rs r below hit)
    ]

-- The first interface with an address.
abbrev pub SelectsAddr : IpAddr → Option IpIface → Type 0
SelectsAddr a none = ⊥
SelectsAddr a (some j) = addr_eq j.unicast a ≡ true

iface_select-last :
    (i : IpIface) (is : List IpIface)
    → SelectsAddr i.unicast (iface_select i.unicast (is ++ i ∷ []))
unfolding iface_select
iface_select-last i [] = rw (addr_eq_refl i.unicast) (addr_eq_refl i.unicast)
iface_select-last i (x ∷ xs) =
    if_cases (SelectsAddr i.unicast) (addr_eq x.unicast i.unicast) (λ e. e)
      (λ _. iface_select-last i xs)

-- The route to the network that an interface is in: nothing is between.
abbrev pub direct : IpIface → IpRoute
direct i = record {
  network = addr_and i.unicast i.netmask;
  netmask = i.netmask;
  nexthop = record { o0 = 0; o1 = 0; o2 = 0; o3 = 0 };
  iface = i;
}

-- The interface is returned and is its device's; the tables of interfaces and of routes have one
-- entry more at the end; the address selects an interface that has it; and the lookup for the
-- destination finds the new route, or one from before that is as long at least.
abbrev pub IsRegistered : IpIface → IpAddr → Net → Option IpIface × Net → Type 0
IsRegistered i dst n (o, n') =
    (o ≡ some i)
    × (get_iface family_ip (device_at n' i.dev).ifaces ≡ some i)
    × (n'.ifaces ≡ n.ifaces ++ i ∷ [])
    × (n'.routes ≡ n.routes ++ direct i ∷ [])
    × SelectsAddr i.unicast (iface_select i.unicast n'.ifaces)
    × FindsRoute dst (direct i) n.routes (route_lookup dst n'.routes)

attach-IsRegistered :
    (i : IpIface) (dst : IpAddr) (n : Net)
    → i.dev < length n.devices
    → has_family family_ip (device_at n i.dev).ifaces ≡ false
    → contains i dst ≡ true
    → IsRegistered i dst n (attach i n)
unfolding attach add_iface contains matches route_add
attach-IsRegistered i dst n lt fresh near =
    let d = device_at n i.dev in
    rw (fresh, attach)
      (
        refl,
        rw (get_or-set n.devices i.dev (record d { ifaces = d.ifaces ++ i ∷ [] }) _ lt)
            (first_iface i d.ifaces fresh),
        refl,
        refl,
        iface_select-last i n.ifaces,
        route_lookup-last dst n.routes (direct i) near,
      )

-- Registering an interface, of printed addresses, at a registered device that has none gives the
-- device that interface, and puts it at the end of the interfaces and, at the end of the routes, one
-- to its network without a next hop. Its address then selects an interface with that address, and
-- the lookup for a destination in its network finds the new route, or an older one that matches
-- with a prefix that is no shorter.
pub iface_register-IsRegistered :
    (dev : ℕ) (u m dst : IpAddr) (n : Net)
    → IsAddr u
    → IsAddr m
    → dev < length n.devices
    → has_family family_ip (device_at n dev).ifaces ≡ false
    → contains (new_iface dev u m) dst ≡ true
    → IsRegistered (new_iface dev u m) dst n (iface_register dev (print_addr u) (print_addr m) n)
unfolding iface_register
iface_register-IsRegistered dev u m dst n hu hm lt fresh near =
    rw (iface_register, parse-print_addr u hu, parse-print_addr m hm)
      (attach-IsRegistered (new_iface dev u m) dst n lt fresh near)
