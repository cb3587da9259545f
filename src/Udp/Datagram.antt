-- ===== src/Udp/Datagram.antt =====
-- The bytes of a datagram (src/udp.rs): `output` writes them, `UdpHdr` and `input` read them.
pub mod RoundTrip
use microps_rs.Base.{
  ℕ, ◌+◌, ◌-◌, Bool, true, false, not, ◌||◌, ◌&&◌, List, [], ◌∷◌, ◌++◌, ltb, ◌==◌, if◌then◌else◌,
  length, byte_at, from_be16, to_be16, to_ne16, u16,
}
use microps_rs.Addr.{IpAddr, IpEndp, octets}
use microps_rs.Util.{cksum16}

abbrev pub udp_hdr_size : ℕ
udp_hdr_size = 8

abbrev pub ip_protocol_udp : ℕ
ip_protocol_udp = 17

unfoldable pub build_pseudo_header : IpAddr → IpAddr → ℕ → List ℕ
build_pseudo_header src dst len = octets src ++ (octets dst ++ (0 ∷ ip_protocol_udp ∷ to_be16 len))

unfoldable pub pseudo_init : IpAddr → IpAddr → ℕ → ℕ
unfolding build_pseudo_header
pseudo_init src dst len = 65535 - cksum16 (build_pseudo_header src dst len) 0

-- A checksum of 0 is sent as 0xffff, since 0 says that there is none.
unfoldable pub never_zero : ℕ → ℕ
never_zero sum = if sum == 0 then 65535 else sum

unfoldable pub hdr_head : ℕ → ℕ → ℕ → List ℕ
hdr_head sport dport len = to_be16 sport ++ (to_be16 dport ++ to_be16 len)

unfoldable pub build_datagram : IpEndp → IpEndp → List ℕ → List ℕ
unfolding pseudo_init never_zero hdr_head
build_datagram src dst payload =
    let total = udp_hdr_size + length payload in
    let head = hdr_head src.port dst.port total in
    let init = pseudo_init src.addr dst.addr (u16 total) in
    head ++ (to_ne16 (never_zero (cksum16 (head ++ 0 ∷ 0 ∷ payload) init)) ++ payload)

abbrev pub hdr_src : List ℕ → ℕ
hdr_src d = from_be16 (byte_at d 0) (byte_at d 1)

abbrev pub hdr_dst : List ℕ → ℕ
hdr_dst d = from_be16 (byte_at d 2) (byte_at d 3)

abbrev pub hdr_len : List ℕ → ℕ
hdr_len d = from_be16 (byte_at d 4) (byte_at d 5)

abbrev pub hdr_sum : List ℕ → ℕ
hdr_sum d = from_be16 (byte_at d 6) (byte_at d 7)

-- The tests of `input` on the datagram; a checksum of 0 is not verified.
unfoldable pub accepts : IpAddr → IpAddr → List ℕ → Bool
unfolding pseudo_init
accepts src dst d =
    not (ltb (length d) udp_hdr_size)
    && ((hdr_len d == length d)
        && ((hdr_sum d == 0) || (cksum16 d (pseudo_init src dst (u16 (length d))) == 0)))
