-- ===== src/Util/Dump/Row.antt =====
-- The bytes of a chunk are read back from its row.
use microps_rs.Base.{
  ℕ, zero, suc, ◌-◌, ◌/◌, ◌%◌, ◌≤◌, ◌≡◌, ◌≢◌, refl, ap, ◌∙◌, List, [], ◌∷◌, ◌++◌, none, some, arith,
  All, IsByte, length, replicate,
}
use microps_rs.Text.{hex_digit, print_hex, split, from_str_radix}
use microps_rs.Text.Numbers.{from_str_radix-print_hex}
use microps_rs.Text.Parts.{split-cons}
use microps_rs.Util.Dump.{emit_hex, pad_hex, hex_cells, is_ascii_graphic, text_cells, row}

-- The parts that are numbers in base sixteen of a byte each; all others are skipped.
unfoldable pub read_bytes : List (List ℕ) → List ℕ
read_bytes [] = []
read_bytes (p ∷ ps) = elim (from_str_radix 16 256 p) [
  | none ↦ read_bytes ps
  | some b ↦ b ∷ read_bytes ps
]

cell_of : List (List ℕ) → List ℕ
cell_of (_ ∷ _ ∷ cell ∷ _) = cell
cell_of _ = []

-- The bytes of a line: what its second cell has between the blanks.
unfoldable pub read_row : List ℕ → List ℕ
unfolding read_bytes cell_of
read_row line = read_bytes (split b' ' (cell_of (split b'|' line)))

-- A character of a number: no end of line, no blank and no border.
abbrev pub IsInk : ℕ → Type 0
IsInk c = (c ≢ 10) × ((c ≢ b' ') × (c ≢ b'|'))

abbrev NoBar : ℕ → Type 0
NoBar c = (c ≢ 10) × (c ≢ b'|')

abbrev IsSolid : List ℕ → Type 0
IsSolid = All NoBar

emit_hex-IsInk : (fuel n : ℕ) (out : List ℕ) → All IsInk out → All IsInk (emit_hex fuel n out)
unfolding emit_hex hex_digit
emit_hex-IsInk zero n out h = ground arith
emit_hex-IsInk (suc fuel) n out h =
    ground (arith, emit_hex-IsInk fuel (n / 16) (hex_digit (n % 16) ∷ out))

print_hex-IsInk : (b : ℕ) → IsByte b → All IsInk (print_hex b)
unfolding print_hex hex_digit
print_hex-IsInk b lt = ground arith

print_hex-plain : (b : ℕ) → IsByte b → All (λ c. c ≢ b' ') (print_hex b)
unfolding print_hex
print_hex-plain b lt = let (h, l) = print_hex-IsInk b lt in (h.1.0, (l.0.1.0, tt))

pub All-append : (P : ℕ → Type 0) (xs ys : List ℕ) → All P xs → All P ys → All P (xs ++ ys)
All-append P [] ys h k = k
All-append P (x ∷ xs) ys (hx, hs) k = (hx, All-append P xs ys hs k)

zeros-IsSolid : (n : ℕ) → IsSolid (replicate n b'0')
zeros-IsSolid zero = tt
zeros-IsSolid (suc n) = ((omega arith, omega arith), zeros-IsSolid n)

ink-IsSolid : (xs : List ℕ) → All IsInk xs → IsSolid xs
ink-IsSolid [] h = tt
ink-IsSolid (x ∷ xs) (h, hs) = ((h.0, h.1.1), ink-IsSolid xs hs)

IsSolid-unbarred : (xs : List ℕ) → IsSolid xs → All (λ c. c ≢ b'|') xs
IsSolid-unbarred [] h = tt
IsSolid-unbarred (x ∷ xs) (h, hs) = (h.1, IsSolid-unbarred xs hs)

IsSolid-unbroken : (xs : List ℕ) → IsSolid xs → All (λ c. c ≢ 10) xs
IsSolid-unbroken [] h = tt
IsSolid-unbroken (x ∷ xs) (h, hs) = (h.0, IsSolid-unbroken xs hs)

pad_hex-IsSolid : (width n : ℕ) → IsSolid (pad_hex width n)
unfolding pad_hex
pad_hex-IsSolid width n =
    All-append NoBar (replicate (width - length (emit_hex n n [])) b'0') (emit_hex n n [])
      (zeros-IsSolid (width - length (emit_hex n n [])))
      (ink-IsSolid (emit_hex n n []) (emit_hex-IsInk n n [] tt))

hex_cells-IsSolid : (n : ℕ) (chunk : List ℕ) → All IsByte chunk → IsSolid (hex_cells n chunk)
unfolding hex_cells
hex_cells-IsSolid zero chunk h = tt
hex_cells-IsSolid (suc n) [] h =
    let rest = hex_cells-IsSolid n [] tt in
    ((omega arith, omega arith), ((omega arith, omega arith), ((omega arith, omega arith), rest)))
hex_cells-IsSolid (suc n) (b ∷ bs) (hb, hs) =
    All-append NoBar (print_hex b) (b' ' ∷ hex_cells n bs)
      (ink-IsSolid (print_hex b) (print_hex-IsInk b hb))
      ((omega arith, omega arith), hex_cells-IsSolid n bs hs)

front-IsSolid : (offset : ℕ) → IsSolid (b' ' ∷ pad_hex 4 offset ++ b' ' ∷ [])
front-IsSolid offset = (
  (omega arith, omega arith),
  All-append NoBar (pad_hex 4 offset) (b' ' ∷ []) (pad_hex-IsSolid 4 offset)
      ((omega arith, omega arith), tt),
)

cells-IsSolid : (chunk : List ℕ) → All IsByte chunk → IsSolid (b' ' ∷ hex_cells 16 chunk)
cells-IsSolid chunk h = ((omega arith, omega arith), hex_cells-IsSolid 16 chunk h)

text_cells_unbroken : (n : ℕ) (chunk : List ℕ) → All (λ c. c ≢ 10) (text_cells n chunk)
unfolding text_cells is_ascii_graphic
text_cells_unbroken zero chunk = tt
text_cells_unbroken (suc n) [] = (omega arith, text_cells_unbroken n [])
text_cells_unbroken (suc n) (b ∷ bs) = (ground arith, text_cells_unbroken n bs)

texts_unbroken : (chunk : List ℕ) → All (λ c. c ≢ 10) (b' ' ∷ text_cells 16 chunk ++ b' ' ∷ [])
texts_unbroken chunk = (
  omega arith,
  All-append (λ c. c ≢ 10) (text_cells 16 chunk) (b' ' ∷ []) (text_cells_unbroken 16 chunk)
      (omega arith, tt),
)

-- A part that is the number of a byte is that byte, and a part with nothing in it is skipped.
read_bytes-cons :
    (p : List ℕ) (b : ℕ) (ps : List (List ℕ))
    → from_str_radix 16 256 p ≡ some b
    → read_bytes (p ∷ ps) ≡ b ∷ read_bytes ps
unfolding read_bytes
read_bytes-cons p b ps h = rw (h, read_bytes)

read_bytes-blank : (ps : List (List ℕ)) → read_bytes ([] ∷ ps) ≡ read_bytes ps
unfolding read_bytes from_str_radix
read_bytes-blank ps = refl

read_nothing : read_bytes ([] ∷ []) ≡ []
unfolding read_bytes from_str_radix
read_nothing = refl

read_bytes-hex_cells :
    (n : ℕ) (chunk : List ℕ)
    → All IsByte chunk
    → length chunk ≤ n
    → read_bytes (split b' ' (hex_cells n chunk)) ≡ chunk
unfolding hex_cells split
read_bytes-hex_cells zero [] h le = read_nothing
read_bytes-hex_cells zero (b ∷ bs) h le = ground arith
read_bytes-hex_cells (suc n) [] h le =
    let rest = split b' ' (hex_cells n []) in
    rw (
      read_bytes-blank ([] ∷ [] ∷ rest),
      read_bytes-blank ([] ∷ rest),
      read_bytes-blank rest,
      read_bytes-hex_cells n [] tt (omega arith),
    )
read_bytes-hex_cells (suc n) (b ∷ bs) (hb, hs) le = rw (
  split-cons b' ' (print_hex b) (hex_cells n bs) (print_hex-plain b hb),
  read_bytes-cons (print_hex b) b (split b' ' (hex_cells n bs)) (from_str_radix-print_hex b hb),
  read_bytes-hex_cells n bs hs (omega arith),
)

read_cells :
    (chunk : List ℕ)
    → All IsByte chunk
    → length chunk ≤ 16
    → read_bytes (split b' ' (b' ' ∷ hex_cells 16 chunk)) ≡ chunk
unfolding split
read_cells chunk h le =
    rw (read_bytes-blank (split b' ' (hex_cells 16 chunk)), read_bytes-hex_cells 16 chunk h le)

-- The second cell of a line whose first two have no border in them.
cell_of-split :
    (front cell back : List ℕ)
    → IsSolid front
    → IsSolid cell
    → cell_of (split b'|' (b'|' ∷ (front ++ b'|' ∷ (cell ++ b'|' ∷ back)))) ≡ cell
unfolding cell_of split
cell_of-split front cell back hf hc =
    ap (λ ps. cell_of ([] ∷ ps))
      (split-cons b'|' front (cell ++ b'|' ∷ back) (IsSolid-unbarred front hf))
    ∙ ap (λ ps. cell_of ([] ∷ front ∷ ps)) (split-cons b'|' cell back (IsSolid-unbarred cell hc))

barred :
    (xs ys : List ℕ)
    → All (λ c. c ≢ 10) xs
    → All (λ c. c ≢ 10) ys
    → All (λ c. c ≢ 10) (xs ++ b'|' ∷ ys)
barred xs ys hx hy = All-append (λ c. c ≢ 10) xs (b'|' ∷ ys) hx (omega arith, hy)

bordered :
    (front cell back : List ℕ)
    → All (λ c. c ≢ 10) front
    → All (λ c. c ≢ 10) cell
    → All (λ c. c ≢ 10) back
    → All (λ c. c ≢ 10) (b'|' ∷ (front ++ b'|' ∷ (cell ++ b'|' ∷ (back ++ b'|' ∷ []))))
bordered front cell back hf hc hb = (
  omega arith,
  barred front (cell ++ b'|' ∷ (back ++ b'|' ∷ [])) hf
      (barred cell (back ++ b'|' ∷ []) hc (barred back [] hb tt)),
)

pub read_row-row :
    (offset : ℕ) (chunk : List ℕ)
    → All IsByte chunk
    → length chunk ≤ 16
    → read_row (row offset chunk) ≡ chunk
unfolding read_row row
read_row-row offset chunk h le = rw (
  read_row,
  row,
  cell_of-split (b' ' ∷ pad_hex 4 offset ++ b' ' ∷ []) (b' ' ∷ hex_cells 16 chunk)
      ((b' ' ∷ text_cells 16 chunk ++ b' ' ∷ []) ++ b'|' ∷ []) (front-IsSolid offset)
      (cells-IsSolid chunk h),
  read_cells chunk h le,
)

pub row_unbroken :
    (offset : ℕ) (chunk : List ℕ) → All IsByte chunk → All (λ c. c ≢ 10) (row offset chunk)
unfolding row
row_unbroken offset chunk h =
    bordered (b' ' ∷ pad_hex 4 offset ++ b' ' ∷ []) (b' ' ∷ hex_cells 16 chunk)
      (b' ' ∷ text_cells 16 chunk ++ b' ' ∷ [])
      (IsSolid-unbroken (b' ' ∷ pad_hex 4 offset ++ b' ' ∷ []) (front-IsSolid offset))
      (IsSolid-unbroken (b' ' ∷ hex_cells 16 chunk) (cells-IsSolid chunk h)) (texts_unbroken chunk)
