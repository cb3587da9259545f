-- ===== src/Print.antt =====
-- What the functions `print` of the protocols share: they read fields of a buffer and print a line
-- for each. `none` stands for a panic: a read out of range, or a subtraction below zero.
pub mod Reads
pub mod Returns
use microps_rs.Base.{
  ℕ, ◌+◌, ◌*◌, ◌-◌, List, [], ◌∷◌, ◌++◌, Option, none, some, ltb, leb, ◌==◌, get_elem?, length,
  slice, from_be16, if◌then◌else◌,
}
use microps_rs.Text.{codes}
use microps_rs.Util.Dump.{hex_dump}

unfoldable pub be16 : List ℕ → ℕ → Option ℕ
be16 buf i = elim (get_elem? buf i) [
  | none ↦ none
  | some a ↦ elim (get_elem? buf (i + 1)) [ none ↦ none | some b ↦ some (from_be16 a b) ]
]

unfoldable pub be32 : List ℕ → ℕ → Option ℕ
unfolding be16
be32 buf i = elim (be16 buf i) [
  | none ↦ none
  | some a ↦ elim (be16 buf (i + 2)) [ none ↦ none | some b ↦ some (a * 65536 + b) ]
]

-- `copy_from_slice` of `n` bytes.
unfoldable pub array : ℕ → List ℕ → ℕ → Option (List ℕ)
array n buf i = if leb (i + n) (length buf) then some (slice buf i (i + n)) else none

unfoldable pub checked_sub : ℕ → ℕ → Option ℕ
checked_sub a b = if ltb a b then none else some (a - b)

-- A `match` on a number that gives a name, with `Unknown` for all others.
unfoldable pub named : List (ℕ × List ℕ) → ℕ → List ℕ
named [] n = codes "Unknown"
named ((m, name) ∷ names) n = let rest = named names n in if n == m then name else rest

-- A line: what stands in front of a value, and the value in print.
unfoldable pub line {ℓ} : {A : Type ℓ} → List ℕ → (A → List ℕ) → Option A → Option (List ℕ)
line label f none = none
line label f (some a) = some (label ++ f a)

unfoldable pub all_lines : List (Option (List ℕ)) → Option (List (List ℕ))
all_lines [] = some []
all_lines (none ∷ ls) = none
all_lines (some l ∷ ls) = elim (all_lines ls) [ none ↦ none | some rest ↦ some (l ∷ rest) ]

-- The lines of a header, if the buffer has one, and the dump of the buffer behind them.
unfoldable pub header_and_dump : ℕ → List ℕ → List (Option (List ℕ)) → Option (List (List ℕ))
header_and_dump size buf lines =
    if ltb (length buf) size
    then some (hex_dump buf ∷ [])
    else all_lines (lines ++ some (hex_dump buf) ∷ [])
