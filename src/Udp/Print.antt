-- ===== src/Udp/Print.antt =====
-- `print` of src/udp.rs.
use microps_rs.Base.{ℕ, List, [], ◌∷◌, Option}
use microps_rs.Text.{codes, print_dec}
use microps_rs.Udp.Datagram.{udp_hdr_size}
use microps_rs.Util.Dump.{pad_hex}
use microps_rs.Print.{be16, line, header_and_dump}

unfoldable pub print : List ℕ → Option (List (List ℕ))
print buf = header_and_dump udp_hdr_size buf (
    line (codes "        src: ") print_dec (be16 buf 0)
    ∷ line (codes "        dst: ") print_dec (be16 buf 2)
    ∷ line (codes "        len: ") print_dec (be16 buf 4)
    ∷ line (codes "        sum: 0x") (pad_hex 4) (be16 buf 6)
    ∷ [])
