-- ===== src/Ether/Print.antt =====
-- `print` of src/ether.rs.
use microps_rs.Base.{ℕ, List, [], ◌∷◌, ◌++◌, Option}
use microps_rs.Text.{codes}
use microps_rs.Link.Driver.{ether_hdr_size}
use microps_rs.Ether.{print_mac}
use microps_rs.Util.Dump.{pad_hex}
use microps_rs.Print.{named, be16, array, line, header_and_dump}

unfoldable pub type_name : ℕ → List ℕ
type_name = named ((0x0800, codes "IP") ∷ (0x0806, codes "ARP") ∷ (0x86dd, codes "IPv6") ∷ [])

unfoldable pub print : List ℕ → Option (List (List ℕ))
print frame = header_and_dump ether_hdr_size frame (
    line (codes "        src: ") print_mac (array 6 frame 6)
    ∷ line (codes "        dst: ") print_mac (array 6 frame 0)
    ∷ line (codes "       type: 0x")
        (λ t. pad_hex 4 t ++ (codes " (" ++ (type_name t ++ codes ")"))) (be16 frame 12)
    ∷ [])
