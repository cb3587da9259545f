-- ===== src/Text/Numbers.antt =====
-- Numbers are read back from their print, in base ten and as two digits in base sixteen.
use microps_rs.Base.{
  ℕ, zero, suc, ◌+◌, ◌/◌, ◌%◌, ◌≤◌, ◌<◌, ◌≡◌, ◌≢◌, List, [], ◌∷◌, some, arith, All, IsByte,
}
use microps_rs.Text.{
  to_digit, parse_digits, unsigned, from_str_radix, emit, print_dec, hex_digit, print_hex,
}

-- A character that is no separator of the addresses: neither a dot nor a colon.
abbrev pub IsPlain : ℕ → Type 0
IsPlain c = (c ≢ b'.') × (c ≢ b':')

-- Reading the last digit of `n` behind the ones before it gives `n`.
parse_last :
    (n bound : ℕ) (out : List ℕ)
    → n < bound
    → parse_digits 10 bound (n / 10) ((b'0' + n % 10) ∷ out) ≡ parse_digits 10 bound n out
unfolding parse_digits to_digit
parse_last n bound out h = ground arith

parse_digits-emit :
    (fuel n bound : ℕ) (out : List ℕ)
    → n ≤ fuel
    → n < bound
    → parse_digits 10 bound 0 (emit fuel n out) ≡ parse_digits 10 bound n out
unfolding emit parse_digits to_digit
parse_digits-emit zero n bound out le lt = ground arith
parse_digits-emit (suc fuel) n bound out le lt =
    ground
      (arith, parse_last n bound out, parse_digits-emit fuel (n / 10) bound ((b'0' + n % 10) ∷ out))

from_str_radix-emit :
    (fuel n bound : ℕ) (out : List ℕ)
    → from_str_radix 10 bound (emit fuel n out) ≡ parse_digits 10 bound 0 (emit fuel n out)
unfolding emit from_str_radix unsigned
from_str_radix-emit zero n bound out = ground arith
from_str_radix-emit (suc fuel) n bound out =
    ground (arith, from_str_radix-emit fuel (n / 10) bound ((b'0' + n % 10) ∷ out))

pub from_str_radix-print_dec :
    (n bound : ℕ) → n < bound → from_str_radix 10 bound (print_dec n) ≡ some n
unfolding print_dec parse_digits
from_str_radix-print_dec n bound lt =
    rw (from_str_radix-emit n n bound [], parse_digits-emit n n bound [] (omega arith) lt)

emit-IsPlain : (fuel n : ℕ) (out : List ℕ) → All IsPlain out → All IsPlain (emit fuel n out)
unfolding emit
emit-IsPlain zero n out h = ground arith
emit-IsPlain (suc fuel) n out h = ground (arith, emit-IsPlain fuel (n / 10) ((b'0' + n % 10) ∷ out))

pub print_dec-IsPlain : (n : ℕ) → All IsPlain (print_dec n)
unfolding print_dec
print_dec-IsPlain n = emit-IsPlain n n [] tt

pub from_str_radix-print_hex : (b : ℕ) → IsByte b → from_str_radix 16 256 (print_hex b) ≡ some b
unfolding print_hex from_str_radix unsigned parse_digits to_digit hex_digit
from_str_radix-print_hex b lt = ground arith

pub print_hex-IsPlain : (b : ℕ) → All IsPlain (print_hex b)
unfolding print_hex hex_digit
print_hex-IsPlain b = ground arith
