-- ===== src/Addr/RoundTrip.antt =====
-- What `Display` prints of an address of src/ip.rs or src/sock.rs, `FromStr` reads back.
use microps_rs.Base.{ℕ, ◌≡◌, ◌≢◌, ◌<◌, refl, List, [], ◌∷◌, some, All, map}
use microps_rs.Addr.{IpAddr, IpEndp, IsAddr, octets}
use microps_rs.Text.{from_str_radix, print_dec, split, parse_parts}
use microps_rs.Text.Numbers.{IsPlain, from_str_radix-print_dec, print_dec-IsPlain}
use microps_rs.Text.Parts.{split-join, rsplit_once-append, parse_parts-map}
use microps_rs.Addr.Text.{
  print_addr, parse_addr, print_endp, parse_endp, print_v4, parse_v4, print_sockaddr,
  parse_sockaddr, from_endp, to_endp,
}

IsPlain-dotless : (p : List ℕ) → All IsPlain p → All (λ c. c ≢ b'.') p
IsPlain-dotless [] h = tt
IsPlain-dotless (c ∷ cs) (h, hs) = (h.0, IsPlain-dotless cs hs)

IsPlain-colonless : (p : List ℕ) → All IsPlain p → All (λ c. c ≢ b':') p
IsPlain-colonless [] h = tt
IsPlain-colonless (c ∷ cs) (h, hs) = (h.1, IsPlain-colonless cs hs)

octet : (n : ℕ) → All (λ c. c ≢ b'.') (print_dec n)
octet n = IsPlain-dotless (print_dec n) (print_dec-IsPlain n)

split-print_addr : (a : IpAddr) → split b'.' (print_addr a) ≡ map print_dec (octets a)
unfolding print_addr
split-print_addr a =
    split-join b'.' (print_dec a.o0) (map print_dec (a.o1 ∷ a.o2 ∷ a.o3 ∷ []))
      (octet a.o0, (octet a.o1, (octet a.o2, (octet a.o3, tt))))

octets_read :
    (a : IpAddr)
    → IsAddr a
    → parse_parts (from_str_radix 10 256) 4 (map print_dec (octets a)) ≡ some (octets a)
octets_read a (h0, h1, h2, h3) =
    let back : (n : ℕ) → n < 256 → from_str_radix 10 256 (print_dec n) ≡ some n =
      λ n h. from_str_radix-print_dec n 256 h in
    parse_parts-map (from_str_radix 10 256) print_dec (octets a)
      (back a.o0 h0, (back a.o1 h1, (back a.o2 h2, (back a.o3 h3, tt))))

pub parse-print_addr : (a : IpAddr) → IsAddr a → parse_addr (print_addr a) ≡ some a
unfolding parse_addr
parse-print_addr a h = rw (parse_addr, split-print_addr a, octets_read a h)

pub parse-print_endp :
    (e : IpEndp) → IsAddr e.addr → e.port < 65536 → parse_endp (print_endp e) ≡ some e
unfolding print_endp parse_endp
parse-print_endp e a p = rw (
  rsplit_once-append b':' (print_addr e.addr) (print_dec e.port)
      (IsPlain-colonless (print_dec e.port) (print_dec-IsPlain e.port)),
  parse_endp,
  parse-print_addr e.addr a,
  from_str_radix-print_dec e.port 65536 p,
)

-- An endpoint whose octets and port fit is read back from its print, and so is its socket address.
pub parse-print_sockaddr :
    (e : IpEndp)
    → IsAddr e.addr
    → e.port < 65536
    → (parse_endp (print_endp e) ≡ some e)
      × (parse_sockaddr (print_sockaddr (from_endp e)) ≡ some (from_endp e))
      × (to_endp (from_endp e) ≡ e)
unfolding print_sockaddr parse_sockaddr print_v4 parse_v4 print_endp from_endp to_endp
parse-print_sockaddr e a p =
    let back = parse-print_endp e a p in (back, rw (back, parse_sockaddr, parse_v4), refl)
