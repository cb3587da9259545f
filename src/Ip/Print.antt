-- ===== src/Ip/Print.antt =====
-- `print` of src/ip.rs.
use microps_rs.Base.{ℕ, ◌*◌, ◌/◌, List, [], ◌∷◌, ◌++◌, Option, get_elem?, bit_and}
use microps_rs.Addr.{addr_at}
use microps_rs.Addr.Text.{print_addr}
use microps_rs.Text.{codes, print_dec}
use microps_rs.Util.Dump.{pad_hex}
use microps_rs.Print.{be16, array, line, header_and_dump}

-- The byte of the version and the length.
unfoldable pub print_vhl : ℕ → List ℕ
print_vhl vhl =
    let ihl = bit_and vhl 0x0f in
    pad_hex 2 vhl
    ++ (codes " [v: "
        ++ (print_dec (vhl / 16)
            ++ (codes ", hl: "
                ++ (print_dec ihl ++ (codes " (" ++ (print_dec (ihl * 4) ++ codes " bytes)]"))))))

-- Flags and offset of a fragment.
unfoldable pub print_offset : ℕ → List ℕ
print_offset o =
    pad_hex 4 o
    ++ (codes " [flags=0x"
        ++ (pad_hex 1 (o / 8192)
            ++ (codes ", offset=" ++ (print_dec (bit_and o 0x1fff) ++ codes "]"))))

abbrev print_ip : List ℕ → List ℕ
print_ip a = print_addr (addr_at a 0)

unfoldable pub print : List ℕ → Option (List (List ℕ))
print buf = header_and_dump 20 buf (
    line (codes "        vhl: 0x") print_vhl (get_elem? buf 0)
    ∷ line (codes "        tos: 0x") (pad_hex 2) (get_elem? buf 1)
    ∷ line (codes "      total: ") print_dec (be16 buf 2)
    ∷ line (codes "         id: ") print_dec (be16 buf 4)
    ∷ line (codes "     offset: 0x") print_offset (be16 buf 6)
    ∷ line (codes "        ttl: ") print_dec (get_elem? buf 8)
    ∷ line (codes "   protocol: ") print_dec (get_elem? buf 9)
    ∷ line (codes "        sum: 0x") (pad_hex 4) (be16 buf 10)
    ∷ line (codes "        src: ") print_ip (array 4 buf 12)
    ∷ line (codes "        dst: ") print_ip (array 4 buf 16)
    ∷ [])
