-- ===== src/Ether.antt =====
-- src/ether.rs: the address, as its six bytes in a list, with `Display` and `FromStr`, and the
-- fields of a frame.
pub mod RoundTrip
pub mod Print
use microps_rs.Base.{
  ℕ, ◌+◌, List, [], ◌∷◌, Option, none, some, ltb, if◌then◌else◌, length, map, slice, byte_at,
  from_be16,
}
use microps_rs.Link.Driver.{ether_hdr_size, ether_addr_len}
use microps_rs.Text.{from_str_radix, print_hex, split, join, parse_parts}

unfoldable pub print_mac : List ℕ → List ℕ
print_mac a = join b':' (map print_hex a)

unfoldable pub parse_mac : List ℕ → Option (List ℕ)
parse_mac s = parse_parts (from_str_radix 16 256) ether_addr_len (split b':' s)

-- `EtherHdr::new`.
unfoldable pub new_hdr : List ℕ → Option (List ℕ)
new_hdr frame = if ltb (length frame) ether_hdr_size then none else some frame

unfoldable pub hdr_dst : List ℕ → List ℕ
hdr_dst hdr = slice hdr 0 6

unfoldable pub hdr_src : List ℕ → List ℕ
hdr_src hdr = slice hdr 6 12

unfoldable pub ethertype : List ℕ → ℕ
ethertype hdr = from_be16 (byte_at hdr 12) (byte_at hdr 13)
