-- ===== src/Arp/Print.antt =====
-- `print` of src/arp.rs.
use microps_rs.Base.{ℕ, List, [], ◌∷◌, ◌++◌, Option, get_elem?}
use microps_rs.Addr.{addr_at}
use microps_rs.Addr.Text.{print_addr}
use microps_rs.Ether.{print_mac}
use microps_rs.Text.{codes, print_dec}
use microps_rs.Arp.{arp_ether_ip_size}
use microps_rs.Util.Dump.{pad_hex}
use microps_rs.Print.{named, be16, array, line, header_and_dump}

-- The accessors, which panic where the buffer is too short.
abbrev pub hrd : List ℕ → Option ℕ
hrd buf = be16 buf 0

abbrev pub pro : List ℕ → Option ℕ
pro buf = be16 buf 2

abbrev pub hln : List ℕ → Option ℕ
hln buf = get_elem? buf 4

abbrev pub pln : List ℕ → Option ℕ
pln buf = get_elem? buf 5

abbrev pub op : List ℕ → Option ℕ
op buf = be16 buf 6

abbrev pub sha : List ℕ → Option (List ℕ)
sha buf = array 6 buf 8

abbrev pub spa : List ℕ → Option (List ℕ)
spa buf = array 4 buf 14

abbrev pub tha : List ℕ → Option (List ℕ)
tha buf = array 6 buf 18

abbrev pub tpa : List ℕ → Option (List ℕ)
tpa buf = array 4 buf 24

unfoldable pub op_name : ℕ → List ℕ
op_name = named ((1, codes "Request") ∷ (2, codes "Reply") ∷ [])

-- An address of four bytes.
abbrev print_ip : List ℕ → List ℕ
print_ip a = print_addr (addr_at a 0)

unfoldable pub print : List ℕ → Option (List (List ℕ))
print buf = header_and_dump arp_ether_ip_size buf (
    line (codes "        hrd: 0x") (pad_hex 4) (hrd buf)
    ∷ line (codes "        pro: 0x") (pad_hex 4) (pro buf)
    ∷ line (codes "        hln: ") print_dec (hln buf)
    ∷ line (codes "        pln: ") print_dec (pln buf)
    ∷ line (codes "         op: ") (λ op. print_dec op ++ (codes " (" ++ (op_name op ++ codes ")")))
        (op buf)
    ∷ line (codes "        sha: ") print_mac (sha buf)
    ∷ line (codes "        spa: ") print_ip (spa buf)
    ∷ line (codes "        tha: ") print_mac (tha buf)
    ∷ line (codes "        tpa: ") print_ip (tpa buf)
    ∷ [])
