-- ===== src/Ip/Packet.antt =====
-- The IPv4 header of src/ip.rs: how `build_packet` writes it and `IpHdr` and `input` read it.
pub mod RoundTrip
use microps_rs.Base.{
  ℕ, ◌+◌, ◌*◌, ◌/◌, ◌%◌, Bool, true, false, not, ◌&&◌, ◌||◌, List, [], ◌∷◌, ◌++◌, Option, none,
  some, ltb, ◌==◌, if◌then◌else◌, length, take, slice, byte_at, from_be16, to_be16, to_ne16,
  bit_and, u16,
}
use microps_rs.Addr.{IpAddr, addr_eq, any, octets, addr_at, broadcast_addr}
use microps_rs.Util.{cksum16}
use microps_rs.Link.{IpIface}

abbrev pub ip_hdr_size_min : ℕ
ip_hdr_size_min = 20

-- The bytes before and behind the checksum field.
unfoldable pub hdr_head : ℕ → ℕ → ℕ → List ℕ
hdr_head total id protocol =
    69 ∷ 0 ∷ (to_be16 total ++ (to_be16 id ++ (0 ∷ 0 ∷ 255 ∷ protocol ∷ [])))

unfoldable pub build_packet : ℕ → List ℕ → IpAddr → IpAddr → ℕ → Option (List ℕ)
unfolding hdr_head
build_packet protocol payload src dst id =
    let total = ip_hdr_size_min + length payload in
    let head = hdr_head total id protocol in
    let tail = octets src ++ octets dst in
    let checksum = cksum16 (head ++ 0 ∷ 0 ∷ tail) 0 in
    if ltb 65535 total then none else some ((head ++ (to_ne16 checksum ++ tail)) ++ payload)

-- The accessors of `IpHdr`.
abbrev pub version : List ℕ → ℕ
version buf = byte_at buf 0 / 16

abbrev pub hdr_len : List ℕ → ℕ
hdr_len buf = byte_at buf 0 % 16 * 4

abbrev pub total : List ℕ → ℕ
total buf = from_be16 (byte_at buf 2) (byte_at buf 3)

abbrev pub offset : List ℕ → ℕ
offset buf = from_be16 (byte_at buf 6) (byte_at buf 7)

abbrev pub protocol_of : List ℕ → ℕ
protocol_of buf = byte_at buf 9

abbrev pub src_of : List ℕ → IpAddr
src_of buf = addr_at buf 12

abbrev pub dst_of : List ℕ → IpAddr
dst_of buf = addr_at buf 16

-- `as_bytes`.
abbrev pub hdr_bytes : List ℕ → List ℕ
hdr_bytes buf = take (hdr_len buf) buf

-- What `input` finds wrong with a packet, in the order of its tests.
pub data Fault : Type 0 where
  too_short not_ipv4 header_truncated total_truncated checksum_error fragmented : Fault

-- The tests of `input` on the packet itself.
unfoldable pub check : List ℕ → Option Fault
check buf =
    if ltb (length buf) ip_hdr_size_min
    then some too_short
    else if not (version buf == 4)
    then some not_ipv4
    else if ltb (length buf) (hdr_len buf)
    then some header_truncated
    else if ltb (length buf) (total buf)
    then some total_truncated
    else if not (cksum16 (take (hdr_len buf) buf) 0 == 0)
    then some checksum_error
    else if not (bit_and (offset buf) 8192 == 0) || not (bit_and (offset buf) 8191 == 0)
    then some fragmented
    else none

-- Whether the packet is addressed to the interface.
unfoldable pub is_for : IpIface → List ℕ → Bool
is_for iface buf =
    addr_eq (dst_of buf) iface.unicast
    || (addr_eq (dst_of buf) iface.broadcast || addr_eq (dst_of buf) broadcast_addr)
