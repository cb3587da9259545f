-- ===== src/Tests/Links.antt =====
-- Addresses in print, interfaces, taps and frames, and the exchange of two stations.
use microps_rs.Base.{
  ℕ, ◌≡◌, refl, inl, List, [], ◌∷◌, ◌++◌, none, some, true, false, arith, replicate,
}
use microps_rs.Addr.{IpAddr, addr_eq}
use microps_rs.Addr.Text.{
  print_addr, parse_endp, print_endp, parse_sockaddr, print_sockaddr, from_endp, to_endp,
}
use microps_rs.Addr.RoundTrip.{parse-print_sockaddr}
use microps_rs.Link.{Net, Device, IpIface, ether_tap, device_at}
use microps_rs.Link.Devices.{has_family, family_ip, get_iface, is_up}
use microps_rs.Link.Driver.{tap_transmit, tap_input, input_handler, build_frame, bytes_eq}
use microps_rs.Link.Tap.{TapSys, TapIo, open_tap, tap_device}
use microps_rs.Link.Tap.Laws.{IsOpening, open_tap-IsOpening}
use microps_rs.Link.Tap.Frame.{padded, for_station, tap_input-tap_transmit}
use microps_rs.Ip.Route.{contains}
use microps_rs.Ip.Iface.{new_iface, iface_register}
use microps_rs.Ip.Iface.Laws.{IsRegistered, iface_register-IsRegistered}
use microps_rs.Arp.{pending, found, resolve, input}
use microps_rs.Arp.Cache.{cache_select, cache_insert}
use microps_rs.Arp.Cache.Learned.{HasPlace}
use microps_rs.Arp.Station.{IsStation, newest}
use microps_rs.Arp.Exchange.{awaiting, resolve-exchange}
use microps_rs.Tests.Data.{here, peer, remote, net, iface}

parse-print_sockaddr_example :
    (parse_endp (print_endp remote) ≡ some remote)
    × (parse_sockaddr (print_sockaddr (from_endp remote)) ≡ some (from_endp remote))
    × (to_endp (from_endp remote) ≡ remote)
parse-print_sockaddr_example =
    parse-print_sockaddr remote (omega arith, omega arith, omega arith, omega arith) (omega arith)

abbrev mask : IpAddr
mask = record { o0 = 255; o1 = 255; o2 = 255; o3 = 0 }

abbrev mac_of : ℕ → List ℕ
mac_of k = 0 ∷ 0 ∷ 94 ∷ 0 ∷ 83 ∷ k ∷ []

-- An open tap, with the address that it got.
abbrev tap : ℕ → List IpIface → Device
tap k is = record tap_device {
  addr = mac_of k ++ replicate 10 0;
  flags = 289;
  ifaces = is;
  ops = ether_tap true;
}

abbrev bare : Net
bare = record net { devices = tap 1 [] ∷ [] }

no_iface : has_family family_ip (device_at bare 0).ifaces ≡ false
unfolding has_family
no_iface = refl

near_peer : contains (new_iface 0 here mask) peer ≡ true
unfolding contains addr_eq
near_peer = refl

iface_register-IsRegistered_example :
    IsRegistered
      (new_iface 0 here mask)
      peer
      bare
      (iface_register 0 (print_addr here) (print_addr mask) bare)
iface_register-IsRegistered_example =
    iface_register-IsRegistered 0 here mask peer bare
      (omega arith, omega arith, omega arith, omega arith)
      (omega arith, omega arith, omega arith, omega arith) (omega arith) no_iface near_peer

-- The last call of `open` fails: the descriptor is closed again.
abbrev refusing : TapSys
refusing = record {
  open_fd = some 5;
  set_iff = true;
  socket_fd = some 6;
  hwaddr = some (mac_of 9 ++ replicate 8 0);
  set_own = true;
  get_fl = some 2;
  set_fl = true;
  set_sig = false;
}

abbrev io : TapIo
io = record { fd = none; addr = replicate 16 0; opened = 2 ∷ 1 ∷ 0 ∷ [] }

open_tap-IsOpening_example : IsOpening none refusing tap_device io (open_tap none refusing io)
open_tap-IsOpening_example = open_tap-IsOpening none refusing tap_device io

abbrev far : IpIface
far = record {
  dev = 0;
  unicast = peer;
  netmask = mask;
  broadcast = record { o0 = 192; o1 = 0; o2 = 2; o3 = 255 };
}

abbrev asker : Net
asker = record net { devices = tap 1 (iface ∷ []) ∷ [] }

abbrev other : Net
other = record net { devices = tap 2 (far ∷ []) ∷ [] }

sent : (tap_transmit true (tap 1 (iface ∷ [])) 2048 (1 ∷ 2 ∷ []) (mac_of 2) asker).0 ≡ true
unfolding tap_transmit
sent = refl

for_other : for_station (mac_of 2) (device_at other 0) ≡ true
unfolding bytes_eq
for_other = refl

tap_input-tap_transmit_example :
    let d = tap 1 (iface ∷ []) in
    let frame = build_frame (mac_of 2) d.addr 2048 (1 ∷ 2 ∷ []) in
    ((tap_transmit true d 2048 (1 ∷ 2 ∷ []) (mac_of 2) asker).1.wire
      ≡ (d.index, frame) ∷ asker.wire)
    × (tap_input 0 frame other ≡ (input_handler 2048 (padded (1 ∷ 2 ∷ [])) 0 other).1)
tap_input-tap_transmit_example =
    tap_input-tap_transmit (tap 1 (iface ∷ [])) 2048 (1 ∷ 2 ∷ []) (mac_of 2) asker other 0
      (omega arith) (omega arith) sent for_other

asker-IsStation : IsStation asker iface
unfolding is_up get_iface
asker-IsStation = record {
  up = refl;
  tap = refl;
  mtu_fits = omega arith;
  addr_len = omega arith;
  broadcast_len = omega arith;
  iface = refl;
  writes = λ frame. refl;
}

other-IsStation : IsStation other far
unfolding is_up get_iface
other-IsStation = record {
  up = refl;
  tap = refl;
  mtu_fits = omega arith;
  addr_len = omega arith;
  broadcast_len = omega arith;
  iface = refl;
  writes = λ frame. refl;
}

unknown : cache_select peer asker.cache ≡ none
unfolding cache_select
unknown = refl

place_awaiting : HasPlace peer (awaiting asker peer).cache
unfolding cache_insert
place_awaiting = inl (omega arith)

resolve-exchange_example :
    let asked = resolve iface peer asker in
    let b' = input (newest asked.1) 0 other in
    let a' = input (newest b') 0 asked.1 in
    (asked.0 ≡ pending)
    × (resolve far here b' ≡ (found (mac_of 1), b'))
    × (resolve iface peer a' ≡ (found (mac_of 2), a'))
resolve-exchange_example =
    resolve-exchange asker other iface far asker-IsStation other-IsStation unknown place_awaiting
      (inl (omega arith))
