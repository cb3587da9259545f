-- ===== src/Arp.antt =====
-- src/arp.rs: the cache, requests and replies, and the handler of received packets.
pub mod Cache
pub mod Reads
pub mod Station
pub mod Exchange
pub mod Print
use microps_rs.Base.{
  ℕ, ◌+◌, Bool, true, false, not, ◌&&◌, ◌||◌, List, [], ◌∷◌, ◌++◌, Option, none, some, ltb, ◌==◌,
  if◌then◌else◌, length, take, replicate, byte_at, slice, from_be16, to_be16,
}
use microps_rs.Addr.{IpAddr, addr_eq, octets, addr_at}
use microps_rs.Link.{
  Net, Device, IpIface, CacheEntry, CacheState, incomplete, resolved, static, device_at,
}
use microps_rs.Link.Devices.{get_iface, family_ip}
use microps_rs.Link.Driver.{output}
use Cache.{cache_select, cache_update, cache_insert, ether_addr_any}

abbrev pub ether_type_ip : ℕ
ether_type_ip = 2048

abbrev pub ether_type_arp : ℕ
ether_type_arp = 2054

abbrev pub arp_op_request : ℕ
arp_op_request = 1

abbrev pub arp_op_reply : ℕ
arp_op_reply = 2

abbrev pub arp_ether_ip_size : ℕ
arp_ether_ip_size = 28

-- The buffer that `request` and `reply` fill in.
unfoldable pub build_packet : ℕ → List ℕ → IpAddr → List ℕ → IpAddr → List ℕ
build_packet op sha spa tha tpa =
    to_be16 1
    ++ (to_be16 ether_type_ip
        ++ (6 ∷ 4 ∷ (to_be16 op ++ (take 6 sha ++ (octets spa ++ (take 6 tha ++ octets tpa))))))

-- `request`: a broadcast that asks for `tpa`.
unfoldable pub request : IpIface → IpAddr → Net → Bool × Net
request iface tpa n =
    let d = device_at n iface.dev in
    output iface.dev ether_type_arp
      (build_packet arp_op_request d.addr iface.unicast (replicate 6 0) tpa) (take 6 d.broadcast) n

-- `reply`: an answer to `tha`.
unfoldable pub reply : ℕ → List ℕ → IpAddr → IpAddr → Net → Bool × Net
reply dev tha tpa src n =
    output dev ether_type_arp (build_packet arp_op_reply (device_at n dev).addr src tha tpa) tha n

-- What `resolve` returns: an error of `request`, an address still unknown, or the address.
pub data Resolution : Type 0 where
  failed pending : Resolution
  found : List ℕ → Resolution

-- On a miss the address is entered as incomplete, and asked for.
unfoldable pub resolve : IpIface → IpAddr → Net → Resolution × Net
resolve iface pa n =
    let n' = record n { cache = cache_insert n.now pa ether_addr_any incomplete n.cache } in
    let asked = request iface pa n' in
    elim (cache_select pa n.cache) [
      | some (resolved, ha) ↦ (found ha, n)
      | some (static, ha) ↦ (found ha, n)
      | some (incomplete, ha) ↦ (pending, n)
      | none ↦ (if asked.0 then pending else failed, asked.1)
    ]

-- The tests of `input` before the packet is used.
unfoldable pub is_ether_ip : List ℕ → Bool
is_ether_ip buf =
    not (ltb (length buf) 8)
    && ((from_be16 (byte_at buf 0) (byte_at buf 1) == 1)
        && ((byte_at buf 4 == 6)
            && ((from_be16 (byte_at buf 2) (byte_at buf 3) == ether_type_ip)
                && ((byte_at buf 5 == 4) && not (ltb (length buf) arp_ether_ip_size)))))

-- What `input` does for the interface that it finds; `merge` says that the sender was cached.
unfoldable pub answer : List ℕ → ℕ → IpIface → Bool → Net → Net
answer buf dev iface merge n =
    let spa = addr_at buf 14 in
    let sha = slice buf 8 14 in
    let n' = record n {
      cache = if merge then n.cache else cache_insert n.now spa sha resolved n.cache;
    } in
    if not (addr_eq (addr_at buf 24) iface.unicast)
    then n
    else if from_be16 (byte_at buf 6) (byte_at buf 7) == arp_op_request
    then (reply dev sha spa iface.unicast n').1
    else n'

-- The handler `input`.
unfoldable pub input : List ℕ → ℕ → Net → Net
input buf dev n =
    let (merge, cache) = cache_update n.now (addr_at buf 14) (slice buf 8 14) n.cache in
    let n' = record n { cache = cache } in
    if not (is_ether_ip buf) then n else elim (get_iface family_ip (device_at n dev).ifaces) [
      | none ↦ n'
      | some iface ↦ answer buf dev iface merge n'
    ]
