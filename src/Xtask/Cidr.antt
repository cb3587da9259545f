-- ===== src/Xtask/Cidr.antt =====
-- `cidr_network` of src/xtask/src/main.rs: the network of an address with its prefix length.
use microps_rs.Base.{
  ℕ, ◌-◌, ◌*◌, ◌/◌, ◌%◌, ◌^◌, List, [], ◌∷◌, ◌++◌, Option, none, some, ltb, ◌==◌, if◌then◌else◌,
  not, length, get_or, bit_and, bit_or, map,
}
use microps_rs.Text.{from_str_radix, print_dec, split, split_once, join}

-- `filter_map(|s| s.parse().ok())`: a part that is no octet is skipped.
unfoldable pub parse_octets : List (List ℕ) → List ℕ
parse_octets [] = []
parse_octets (p ∷ ps) = elim (from_str_radix 10 256 p) [
  | none ↦ parse_octets ps
  | some b ↦ b ∷ parse_octets ps
]

unfoldable pub addr_u32 : List ℕ → ℕ
addr_u32 os =
    bit_or
      (bit_or (bit_or (get_or os 0 0 * 16777216 % 4294967296) (get_or os 1 0 * 65536 % 4294967296))
        (get_or os 2 0 * 256 % 4294967296))
      (get_or os 3 0)

unfoldable pub prefix_mask : ℕ → ℕ
prefix_mask prefix = if prefix == 0 then 0 else 4294967295 * 2 ^ (32 - prefix) % 4294967296

unfoldable pub print_network : ℕ → ℕ → List ℕ
print_network net prefix =
    join b'.' (
      map print_dec (
        bit_and (net / 16777216) 0xff
        ∷ bit_and (net / 65536) 0xff
        ∷ bit_and (net / 256) 0xff
        ∷ bit_and net 0xff
        ∷ []))
    ++ b'/' ∷ print_dec prefix

unfoldable pub cidr_network : List ℕ → Option (List ℕ)
unfolding parse_octets addr_u32 prefix_mask print_network
cidr_network cidr = elim (split_once b'/' cidr) [
  | none ↦ none
  | some (addr_str, prefix_str) ↦ elim (from_str_radix 10 4294967296 prefix_str) [
    | none ↦ none
    | some prefix ↦
        let os = parse_octets (split b'.' addr_str) in
        if ltb 32 prefix
        then none
        else if not (length os == 4)
        then none
        else some (print_network (bit_and (addr_u32 os) (prefix_mask prefix)) prefix)
  ]
]
