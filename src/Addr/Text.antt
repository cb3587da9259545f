-- ===== src/Addr/Text.antt =====
-- `Display` and `FromStr` of `IpAddr` and `IpEndp` (src/ip.rs), and of the socket addresses
-- (src/sock.rs), which are an endpoint in print and pass on to it.
use microps_rs.Base.{ℕ, List, ◌∷◌, ◌++◌, Option, none, some, map}
use microps_rs.Addr.{IpAddr, IpEndp, octets, addr_at}
use microps_rs.Text.{from_str_radix, print_dec, split, rsplit_once, join, parse_parts}

unfoldable pub print_addr : IpAddr → List ℕ
print_addr a = join b'.' (map print_dec (octets a))

unfoldable pub parse_addr : List ℕ → Option IpAddr
parse_addr s = elim (parse_parts (from_str_radix 10 256) 4 (split b'.' s)) [
  | none ↦ none
  | some bs ↦ some (addr_at bs 0)
]

unfoldable pub print_endp : IpEndp → List ℕ
unfolding print_addr
print_endp e = print_addr e.addr ++ b':' ∷ print_dec e.port

unfoldable pub parse_endp : List ℕ → Option IpEndp
unfolding parse_addr
parse_endp s = elim (rsplit_once b':' s) [
  | none ↦ none
  | some (addr_str, port_str) ↦ elim (parse_addr addr_str) [
    | none ↦ none
    | some a ↦ elim (from_str_radix 10 65536 port_str) [
      | none ↦ none
      | some p ↦ some (record { addr = a; port = p })
    ]
  ]
]

-- `SocketAddr` with its one variant, and `SocketAddrV4`.
pub record SocketAddrV4 : Type 0 where
  pub ip : IpAddr
  pub port : ℕ

pub data SocketAddr : Type 0 where
  v4 : SocketAddrV4 → SocketAddr

unfoldable pub to_endp : SocketAddr → IpEndp
to_endp (v4 a) = record { addr = a.ip; port = a.port }

unfoldable pub from_endp : IpEndp → SocketAddr
from_endp e = v4 (record { ip = e.addr; port = e.port })

unfoldable pub print_v4 : SocketAddrV4 → List ℕ
unfolding print_addr
print_v4 a = print_addr a.ip ++ b':' ∷ print_dec a.port

unfoldable pub print_sockaddr : SocketAddr → List ℕ
unfolding print_v4
print_sockaddr (v4 a) = print_v4 a

unfoldable pub parse_v4 : List ℕ → Option SocketAddrV4
unfolding parse_endp
parse_v4 s = elim (parse_endp s) [
  | none ↦ none
  | some e ↦ some (record { ip = e.addr; port = e.port })
]

unfoldable pub parse_sockaddr : List ℕ → Option SocketAddr
unfolding parse_v4
parse_sockaddr s = elim (parse_v4 s) [ none ↦ none | some a ↦ some (v4 a) ]
