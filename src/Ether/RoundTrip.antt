-- ===== src/Ether/RoundTrip.antt =====
-- What `Display` prints of an `EtherAddr` of src/ether.rs, `FromStr` reads back.
use microps_rs.Base.{ℕ, ◌≡◌, ◌≢◌, sym, List, [], ◌∷◌, some, arith, All, IsByte, map, length}
use microps_rs.Text.{from_str_radix, print_hex}
use microps_rs.Text.Numbers.{from_str_radix-print_hex, print_hex-IsPlain}
use microps_rs.Text.Parts.{split-join, parse_parts-map}
use microps_rs.Ether.{print_mac, parse_mac}

colonless : (n : ℕ) → All (λ c. c ≢ b':') (print_hex n)
unfolding print_hex
colonless n = let (h, l) = print_hex-IsPlain n in (h.1, (l.0.1, tt))

each_colonless : (xs : List ℕ) → All (All (λ c. c ≢ b':')) (map print_hex xs)
each_colonless [] = tt
each_colonless (x ∷ xs) = (colonless x, each_colonless xs)

each_read :
    (xs : List ℕ) → All IsByte xs → All (λ b. from_str_radix 16 256 (print_hex b) ≡ some b) xs
each_read [] h = tt
each_read (x ∷ xs) (h, hs) = (from_str_radix-print_hex x h, each_read xs hs)

-- An Ethernet address of six bytes is read back from its print.
pub parse-print_mac : (a : List ℕ) → length a ≡ 6 → All IsByte a → parse_mac (print_mac a) ≡ some a
unfolding print_mac parse_mac
parse-print_mac [] e h = absurd (omega arith)
parse-print_mac (x ∷ xs) e h = rw (
  split-join b':' (print_hex x) (map print_hex xs) (each_colonless (x ∷ xs)),
  sym e,
  parse_parts-map (from_str_radix 16 256) print_hex (x ∷ xs) (each_read (x ∷ xs) h),
)
