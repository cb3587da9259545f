-- ===== src/Util/Dump/ReadBack.antt =====
-- The data is read back from its dump.
use microps_rs.Base.{
  ℕ, zero, suc, ◌*◌, ◌≤◌, ◌≡◌, ◌≢◌, refl, List, [], ◌∷◌, ◌++◌, arith, All, IsByte, length, take,
  drop, length-take, length-drop, take-append-drop,
}
use mathlib.Core.List.{append_assoc}
use microps_rs.Text.{split, from_str_radix}
use microps_rs.Text.Parts.{split-cons, split_end}
use microps_rs.Util.Dump.{row, border, dump_rows, hex_dump}
use microps_rs.Util.Dump.Row.{read_row, read_row-row, row_unbroken}

read_rows : List (List ℕ) → List ℕ
read_rows [] = []
read_rows (line ∷ lines) = read_row line ++ read_rows lines

-- The bytes of a dump: those of its lines.
unfoldable pub read_dump : List ℕ → List ℕ
unfolding read_rows
read_dump s = read_rows (split 10 s)

border_unbroken : All (λ c. c ≢ 10) border
unfolding border
border_unbroken = ground arith

read_border : read_row border ≡ []
unfolding read_row border split from_str_radix
read_border = refl

read_end : read_dump border ≡ []
unfolding read_dump read_rows
read_end = rw (split_end 10 border border_unbroken, read_border)

read_line :
    (line rest : List ℕ)
    → All (λ c. c ≢ 10) line
    → read_dump (line ++ 10 ∷ rest) ≡ read_row line ++ read_dump rest
unfolding read_dump read_rows
read_line line rest h = rw (split-cons 10 line rest h)

All-take : (n : ℕ) (xs : List ℕ) → All IsByte xs → All IsByte (take n xs)
All-take zero xs h = tt
All-take (suc n) [] h = tt
All-take (suc n) (x ∷ xs) (hx, hs) = (hx, All-take n xs hs)

All-drop : (n : ℕ) (xs : List ℕ) → All IsByte xs → All IsByte (drop n xs)
All-drop zero xs h = h
All-drop (suc n) [] h = tt
All-drop (suc n) (x ∷ xs) (hx, hs) = All-drop n xs hs

-- Fuel as long as the buffer shows all of it.
read_dump-dump_rows :
    (fuel index : ℕ) (buf : List ℕ)
    → All IsByte buf
    → length buf ≤ fuel
    → read_dump (dump_rows fuel index buf ++ border) ≡ buf
unfolding dump_rows
read_dump-dump_rows zero index [] h le = read_end
read_dump-dump_rows zero index (b ∷ bs) h le = ground arith
read_dump-dump_rows (suc fuel) index [] h le = read_end
read_dump-dump_rows (suc fuel) index (b ∷ bs) h le =
    let first = take 16 (b ∷ bs) in
    let others = drop 16 (b ∷ bs) in
    let bytes = All-take 16 (b ∷ bs) h in
    rw
      (
        append_assoc (row (index * 16) first) (10 ∷ dump_rows fuel (suc index) others) border,
        read_line (row (index * 16) first) (dump_rows fuel (suc index) others ++ border)
            (row_unbroken (index * 16) first bytes),
        read_row-row (index * 16) first bytes (omega (arith, length-take 16 (b ∷ bs))),
        read_dump-dump_rows fuel (suc index) others (All-drop 16 (b ∷ bs) h)
            (omega (arith, length-drop 16 (b ∷ bs), le)),
      )
      (take-append-drop 16 (b ∷ bs))

-- The bytes of a buffer, of any length, are read back from its dump: a reader that takes the lines
-- apart at the borders finds in their second cells the bytes of the buffer, in order.
pub read_dump-hex_dump : (buf : List ℕ) → All IsByte buf → read_dump (hex_dump buf) ≡ buf
unfolding hex_dump
read_dump-hex_dump buf h = rw (
  read_line border (dump_rows (length buf) 0 buf ++ border) border_unbroken,
  read_border,
  read_dump-dump_rows (length buf) 0 buf h (omega arith),
)
