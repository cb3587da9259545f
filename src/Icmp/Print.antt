-- ===== src/Icmp/Print.antt =====
-- `print` of src/icmp.rs.
use microps_rs.Base.{
  ℕ, ◌||◌, List, [], ◌∷◌, ◌++◌, Option, none, some, ◌==◌, get_elem?, if◌then◌else◌,
}
use microps_rs.Text.{codes, print_dec}
use microps_rs.Icmp.{icmp_hdr_size}
use microps_rs.Util.Dump.{pad_hex}
use microps_rs.Print.{named, be16, line, header_and_dump}

unfoldable pub type_name : ℕ → List ℕ
type_name = named (
    (0, codes "EchoReply")
    ∷ (3, codes "DestinationUnreachable")
    ∷ (4, codes "SourceQuench")
    ∷ (5, codes "Redirect")
    ∷ (8, codes "Echo")
    ∷ (11, codes "TimeExceeded")
    ∷ (12, codes "ParameterProblem")
    ∷ (13, codes "Timestamp")
    ∷ (14, codes "TimestampReply")
    ∷ (15, codes "InformationRequest")
    ∷ (16, codes "InformationReply")
    ∷ [])

-- The accessors, which panic where the buffer is too short.
abbrev pub ty : List ℕ → Option ℕ
ty buf = get_elem? buf 0

abbrev pub code : List ℕ → Option ℕ
code buf = get_elem? buf 1

abbrev pub sum : List ℕ → Option ℕ
sum buf = be16 buf 2

abbrev pub id : List ℕ → Option ℕ
id buf = be16 buf 4

abbrev pub seq : List ℕ → Option ℕ
seq buf = be16 buf 6

-- An echo or its reply has two fields more.
unfoldable pub echo_lines : List ℕ → Option ℕ → List (Option (List ℕ))
echo_lines buf none = none ∷ []
echo_lines buf (some ty) =
    if ty == 8 || ty == 0
    then line (codes "         id: ") print_dec (id buf)
      ∷ line (codes "        seq: ") print_dec (seq buf)
      ∷ []
    else []

unfoldable pub print : List ℕ → Option (List (List ℕ))
unfolding echo_lines
print buf = header_and_dump icmp_hdr_size buf (
    line (codes "       type: ") (λ t. print_dec t ++ (codes " (" ++ (type_name t ++ codes ")")))
      (ty buf)
    ∷ line (codes "       code: ") print_dec (code buf)
    ∷ line (codes "        sum: 0x") (pad_hex 4) (sum buf)
    ∷ echo_lines buf (ty buf))
