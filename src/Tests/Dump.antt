-- ===== src/Tests/Dump.antt =====
-- The hex dump of an IP header, whose last row is not full.
use microps_rs.Base.{ℕ, ◌≡◌, List, [], ◌∷◌, arith, All, IsByte}
use microps_rs.Util.Dump.{hex_dump}
use microps_rs.Util.Dump.ReadBack.{read_dump, read_dump-hex_dump}

abbrev ip_header : List ℕ
ip_header =
    69 ∷ 0 ∷ 0 ∷ 48 ∷ 0 ∷ 128 ∷ 0 ∷ 0 ∷ 255 ∷ 1 ∷ 189 ∷ 74 ∷ 127 ∷ 0 ∷ 0 ∷ 1 ∷ 127 ∷ 0 ∷ 0 ∷ 1 ∷ []

bytes : All IsByte ip_header
bytes = ground arith

read_dump-hex_dump_example : read_dump (hex_dump ip_header) ≡ ip_header
read_dump-hex_dump_example = read_dump-hex_dump ip_header bytes
