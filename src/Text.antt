-- ===== src/Text.antt =====
-- Text as its bytes, with what src/ip.rs and src/ether.rs use of the standard library on it:
-- `split`, `split_once`, `rsplit_once`, `trim`, `split_whitespace`, `from_str_radix` of an unsigned
-- integer (which is also `parse`, in base ten), `{}` and `{:02x}`.
pub mod Numbers
pub mod Parts
use Prim.Native.Char.{code}
use Prim.Native.String.{String}
use Prim.Native.String
use microps_rs.Base.{
  ℕ, zero, suc, ◌+◌, ◌-◌, ◌*◌, ◌/◌, ◌%◌, Bool, ◌&&◌, List, [], ◌∷◌, ◌++◌, Option, none, some, ltb,
  leb, ◌==◌, ◌||◌, is_empty, if◌then◌else◌,
}

-- A literal as its bytes.
abbrev pub codes : String → List ℕ
codes String.[] = []
codes (String.◌∷◌ c s) = code c ∷ codes s

-- `char::to_digit`.
below : ℕ → ℕ → Option ℕ
below radix d = if ltb d radix then some d else none

unfoldable pub to_digit : ℕ → ℕ → Option ℕ
unfolding below
to_digit radix c =
    if leb b'0' c && leb c b'9'
    then below radix (c - b'0')
    else if leb b'a' c && leb c b'z'
    then below radix (c - b'a' + 10)
    else if leb b'A' c && leb c b'Z'
    then below radix (c - b'A' + 10)
    else none

-- The digits behind the sign; a value from `bound` on is an overflow.
unfoldable pub parse_digits : ℕ → ℕ → ℕ → List ℕ → Option ℕ
unfolding to_digit
parse_digits radix bound acc [] = some acc
parse_digits radix bound acc (c ∷ cs) = elim (to_digit radix c) [
  | none ↦ none
  | some d ↦
      let rest = parse_digits radix bound (acc * radix + d) cs in
      if ltb (acc * radix + d) bound then rest else none
]

-- Neither nothing nor a sign alone is a number.
unsigned : ℕ → ℕ → List ℕ → Option ℕ
unfolding parse_digits
unsigned radix bound [] = none
unsigned radix bound (c ∷ cs) = parse_digits radix bound 0 (c ∷ cs)

unfoldable pub from_str_radix : ℕ → ℕ → List ℕ → Option ℕ
unfolding unsigned
from_str_radix radix bound [] = none
from_str_radix radix bound (c ∷ cs) =
    if c == b'+' then unsigned radix bound cs else unsigned radix bound (c ∷ cs)

-- `{}` of a number: its digits, the last one first in front of what follows.
unfoldable pub emit : ℕ → ℕ → List ℕ → List ℕ
emit zero n out = (b'0' + n % 10) ∷ out
emit (suc fuel) n out =
    let rest = emit fuel (n / 10) ((b'0' + n % 10) ∷ out) in
    if ltb n 10 then (b'0' + n) ∷ out else rest

unfoldable pub print_dec : ℕ → List ℕ
unfolding emit
print_dec n = emit n n []

-- `{:02x}` of a byte.
unfoldable pub hex_digit : ℕ → ℕ
hex_digit d = if ltb d 10 then b'0' + d else b'a' + (d - 10)

unfoldable pub print_hex : ℕ → List ℕ
unfolding hex_digit
print_hex b = hex_digit (b / 16) ∷ hex_digit (b % 16) ∷ []

cons_first : ℕ → List (List ℕ) → List (List ℕ)
cons_first c [] = (c ∷ []) ∷ []
cons_first c (p ∷ ps) = (c ∷ p) ∷ ps

-- `str::split`: one part more than there are separators.
unfoldable pub split : ℕ → List ℕ → List (List ℕ)
unfolding cons_first
split sep [] = [] ∷ []
split sep (c ∷ cs) = let rest = split sep cs in if c == sep then [] ∷ rest else cons_first c rest

-- `str::split_once`: what stands in front of the first separator, and behind it.
unfoldable pub split_once : ℕ → List ℕ → Option (List ℕ × List ℕ)
split_once sep [] = none
split_once sep (c ∷ cs) =
    let rest : Option (List ℕ × List ℕ) = elim (split_once sep cs) [
      | none ↦ none
      | some (front, back) ↦ some (c ∷ front, back)
    ] in
    if c == sep then some ([], cs) else rest

-- `char::is_whitespace`, of ASCII.
unfoldable pub is_whitespace : ℕ → Bool
is_whitespace c = (leb 9 c && leb c 13) || c == b' '

-- `str::split_whitespace`: the parts between white space that are not empty; `word` is read.
unfoldable pub words_from : List ℕ → List ℕ → List (List ℕ)
unfolding is_whitespace
words_from word [] = if is_empty word then [] else word ∷ []
words_from word (c ∷ cs) =
    let ended = words_from [] cs in
    let longer = words_from (word ++ c ∷ []) cs in
    if is_whitespace c then (if is_empty word then ended else word ∷ ended) else longer

unfoldable pub split_whitespace : List ℕ → List (List ℕ)
unfolding words_from
split_whitespace s = words_from [] s

unfoldable pub trim_start : List ℕ → List ℕ
unfolding is_whitespace
trim_start [] = []
trim_start (c ∷ cs) = let rest = trim_start cs in if is_whitespace c then rest else c ∷ cs

unfoldable pub trim_end : List ℕ → List ℕ
unfolding is_whitespace
trim_end [] = []
trim_end (c ∷ cs) =
    let rest = trim_end cs in if is_whitespace c && is_empty rest then [] else c ∷ rest

-- `str::trim`.
unfoldable pub trim : List ℕ → List ℕ
unfolding trim_start trim_end
trim s = trim_start (trim_end s)

-- `str::rsplit_once`: what stands in front of the last separator, and behind it.
unfoldable pub rsplit_once : ℕ → List ℕ → Option (List ℕ × List ℕ)
rsplit_once sep [] = none
rsplit_once sep (c ∷ cs) = elim (rsplit_once sep cs) [
  | some (front, back) ↦ some (c ∷ front, back)
  | none ↦ if c == sep then some ([], cs) else none
]

-- Parts with a separator between them.
unfoldable pub join : ℕ → List (List ℕ) → List ℕ
join sep [] = []
join sep (p ∷ []) = p
join sep (p ∷ q ∷ ps) = p ++ sep ∷ join sep (q ∷ ps)

-- The loop of `from_str` over a fixed number of parts, and the test for one part too many.
unfoldable pub parse_parts : (List ℕ → Option ℕ) → ℕ → List (List ℕ) → Option (List ℕ)
parse_parts parse zero [] = some []
parse_parts parse zero (p ∷ ps) = none
parse_parts parse (suc n) [] = none
parse_parts parse (suc n) (p ∷ ps) = elim (parse p) [
  | none ↦ none
  | some b ↦ elim (parse_parts parse n ps) [ none ↦ none | some bs ↦ some (b ∷ bs) ]
]
