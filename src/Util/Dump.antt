-- ===== src/Util/Dump.antt =====
-- src/util.rs: `HexDump`, what its `fmt` writes as the bytes of the text. Writing to the formatter
-- and to the line does not fail.
pub mod Row
pub mod ReadBack
use microps_rs.Base.{
  ℕ, zero, suc, ◌+◌, ◌-◌, ◌*◌, ◌/◌, ◌%◌, Bool, ◌||◌, ◌&&◌, List, [], ◌∷◌, ◌++◌, leb, ltb, ◌==◌,
  if◌then◌else◌, length, take, drop, replicate,
}
use microps_rs.Text.{hex_digit, print_hex}

-- The digits of a number in base sixteen, the last one first in front of what follows.
unfoldable pub emit_hex : ℕ → ℕ → List ℕ → List ℕ
unfolding hex_digit
emit_hex zero n out = hex_digit (n % 16) ∷ out
emit_hex (suc fuel) n out =
    let rest = emit_hex fuel (n / 16) (hex_digit (n % 16) ∷ out) in
    if ltb n 16 then hex_digit n ∷ out else rest

-- `{:04x}`: zeros in front of the digits, up to a width.
unfoldable pub pad_hex : ℕ → ℕ → List ℕ
unfolding emit_hex
pad_hex width n = let digits = emit_hex n n [] in replicate (width - length digits) b'0' ++ digits

-- The first loop over a row: two digits and a blank for each byte, blanks where there is none.
unfoldable pub hex_cells : ℕ → List ℕ → List ℕ
unfolding print_hex
hex_cells zero chunk = []
hex_cells (suc n) [] = b' ' ∷ b' ' ∷ b' ' ∷ hex_cells n []
hex_cells (suc n) (b ∷ bs) = print_hex b ++ b' ' ∷ hex_cells n bs

-- `u8::is_ascii_graphic`.
unfoldable pub is_ascii_graphic : ℕ → Bool
is_ascii_graphic b = leb 33 b && leb b 126

-- The second loop: the byte itself if it can be printed, else a dot.
unfoldable pub text_cells : ℕ → List ℕ → List ℕ
unfolding is_ascii_graphic
text_cells zero chunk = []
text_cells (suc n) [] = b' ' ∷ text_cells n []
text_cells (suc n) (b ∷ bs) =
    (if is_ascii_graphic b || b == b' ' then b else b'.') ∷ text_cells n bs

-- A line for a chunk, without its end of line.
unfoldable pub row : ℕ → List ℕ → List ℕ
unfolding pad_hex hex_cells text_cells
row offset chunk =
    let back = b' ' ∷ text_cells 16 chunk ++ b' ' ∷ [] in
    let middle = b' ' ∷ hex_cells 16 chunk in
    b'|' ∷ ((b' ' ∷ pad_hex 4 offset ++ b' ' ∷ []) ++ b'|' ∷ (middle ++ b'|' ∷ (back ++ b'|' ∷ [])))

unfoldable pub border : List ℕ
border =
    b'+' ∷ replicate 6 b'-' ++ b'+' ∷ replicate 49 b'-' ++ b'+' ∷ replicate 18 b'-' ++ b'+' ∷ []

-- The loop over the chunks of sixteen, from the one with an index, on fuel: a row each.
unfoldable pub dump_rows : ℕ → ℕ → List ℕ → List ℕ
unfolding row
dump_rows zero index buf = []
dump_rows (suc fuel) index [] = []
dump_rows (suc fuel) index (b ∷ bs) =
    row (index * 16) (take 16 (b ∷ bs)) ++ 10 ∷ dump_rows fuel (suc index) (drop 16 (b ∷ bs))

-- One turn takes a byte at least, so the length of the buffer is fuel enough.
unfoldable pub hex_dump : List ℕ → List ℕ
unfolding border dump_rows
hex_dump buf = border ++ 10 ∷ (dump_rows (length buf) 0 buf ++ border)
