-- ===== src/Tcp/Print.antt =====
-- `print` of src/tcp.rs, with the walk over the options of a segment.
pub mod Walk
use microps_rs.Base.{
  ℕ, zero, suc, ◌+◌, ◌*◌, ◌/◌, ◌-◌, List, [], ◌∷◌, ◌++◌, Option, none, some, ◌==◌, ltb, leb,
  get_elem?, length, if◌then◌else◌,
}
use microps_rs.Text.{codes, print_dec}
use microps_rs.Tcp.Flags.{flag_isset, fin, syn, rst, psh, ack}
use microps_rs.Tcp.Segment.{tcp_hdr_size}
use microps_rs.Util.Dump.{pad_hex, hex_dump}
use microps_rs.Print.{named, be16, be32, checked_sub, line, all_lines}

unfoldable pub flag_char : ℕ → ℕ → ℕ → ℕ
flag_char flg mask c = if flag_isset flg mask then c else b'-'

-- `FlagStr`; 0x20 is URG.
unfoldable pub flag_str : ℕ → List ℕ
unfolding flag_char
flag_str flg =
    codes "--"
    ++ (flag_char flg 0x20 b'U'
        ∷ flag_char flg ack b'A'
        ∷ flag_char flg psh b'P'
        ∷ flag_char flg rst b'R'
        ∷ flag_char flg syn b'S'
        ∷ flag_char flg fin b'F'
        ∷ [])

unfoldable pub option_name : ℕ → List ℕ
option_name = named (
    (0, codes "End of Option List (EOL)")
    ∷ (1, codes "No-Operation (NOP)")
    ∷ (2, codes "Maximum Segment Size (MSS)")
    ∷ (3, codes "Window Scale")
    ∷ (4, codes "SACK Permitted")
    ∷ (5, codes "SACK")
    ∷ (8, codes "Timestamps")
    ∷ [])

-- The line of an option, up to its length.
unfoldable pub option_line : ℕ → ℕ → List ℕ
unfolding option_name
option_line i kind =
    codes "     opt["
    ++ (print_dec i
        ++ (codes "]: kind="
            ++ (print_dec kind ++ (codes " (" ++ (option_name kind ++ codes ")")))))

-- A line in front of those of the rest.
unfoldable pub then_lines : List ℕ → Option (List (List ℕ)) → Option (List (List ℕ))
then_lines l none = none
then_lines l (some ls) = some (l ∷ ls)

-- The loop over the options: `rest` is the loop behind this one, from an index and a position.
unfoldable pub next_option :
    (ℕ → ℕ → Option (List (List ℕ))) → List ℕ → ℕ → ℕ → ℕ → Option (List (List ℕ))
unfolding option_line then_lines
next_option rest seg hlen i pos = elim (get_elem? seg pos) [
  | none ↦ none
  | some kind ↦
      if kind == 0
      then some (option_line i kind ∷ [])
      else if kind == 1
      then then_lines (option_line i kind) (rest (i + 1) (pos + 1))
      else if leb hlen (pos + 1)
      then some []
      else elim (get_elem? seg (pos + 1)) [
        | none ↦ none
        | some olen ↦
            let text = option_line i kind ++ (codes ", len=" ++ print_dec olen) in
            if olen == 0 then some (text ∷ []) else then_lines text (rest (i + 1) (pos + olen))
      ]
]

-- On fuel: without any left the loop has not ended, which is no result.
unfoldable pub print_options : ℕ → List ℕ → ℕ → ℕ → ℕ → Option (List (List ℕ))
unfolding next_option
print_options zero seg hlen i pos = if ltb pos hlen then none else some []
print_options (suc fuel) seg hlen i pos =
    if ltb pos hlen then next_option (print_options fuel seg hlen) seg hlen i pos else some []

-- The line of the data offset, with the lengths of options and payload.
unfoldable pub offset_line : List ℕ → ℕ → ℕ → Option (List ℕ)
offset_line seg off hlen = elim (checked_sub hlen tcp_hdr_size) [
  | none ↦ none
  | some options ↦ elim (checked_sub (length seg) hlen) [
    | none ↦ none
    | some payload ↦ some (
        codes "        off: 0x"
        ++ (pad_hex 2 off
            ++ (codes " ("
                ++ (print_dec hlen
                    ++ (codes ") (options: "
                        ++ (print_dec options
                            ++ (codes ", payload: " ++ (print_dec payload ++ codes ")"))))))))
  ]
]

unfoldable pub header_lines : List ℕ → ℕ → ℕ → List (Option (List ℕ))
unfolding offset_line flag_str
header_lines seg off hlen =
    line (codes "        src: ") print_dec (be16 seg 0)
    ∷ line (codes "        dst: ") print_dec (be16 seg 2)
    ∷ line (codes "        seq: ") print_dec (be32 seg 4)
    ∷ line (codes "        ack: ") print_dec (be32 seg 8)
    ∷ offset_line seg off hlen
    ∷ line (codes "        flg: 0x")
        (λ flg. pad_hex 2 flg ++ (codes " (" ++ (flag_str flg ++ codes ")"))) (get_elem? seg 13)
    ∷ line (codes "        wnd: ") print_dec (be16 seg 14)
    ∷ line (codes "        sum: 0x") (pad_hex 4) (be16 seg 16)
    ∷ line (codes "         up: ") print_dec (be16 seg 18)
    ∷ []

unfoldable pub print_with : List ℕ → ℕ → ℕ → Option (List (List ℕ))
unfolding header_lines print_options
print_with seg off hlen = elim (all_lines (header_lines seg off hlen)) [
  | none ↦ none
  | some header ↦ elim (print_options hlen seg hlen 0 tcp_hdr_size) [
    | none ↦ none
    | some options ↦ some (header ++ (options ++ hex_dump seg ∷ []))
  ]
]

unfoldable pub print : List ℕ → Option (List (List ℕ))
unfolding print_with
print seg =
    if ltb (length seg) tcp_hdr_size
    then some []
    else elim (get_elem? seg 12) [ none ↦ none | some off ↦ print_with seg off (off / 16 * 4) ]
