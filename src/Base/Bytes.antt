-- ===== src/Base/Bytes.antt =====
-- Bytes and machine words as native numbers: big-endian fields, slices, and wrapping arithmetic.
use Prim.Native.Nat.{ℕ, ◌+◌, ◌-◌, ◌*◌, ◌/◌, ◌%◌, ◌<◌}
use mathlib.Core.List.{List, [], ◌∷◌}
use microps_rs.Base.Lists.{get_or, take, drop}

-- An index that the source has checked to be in range; past the end the default is 0.
abbrev pub byte_at : List ℕ → ℕ → ℕ
byte_at buf i = get_or buf i 0

-- `data[a..b]`.
abbrev pub slice : List ℕ → ℕ → ℕ → List ℕ
slice buf a b = take (b - a) (drop a buf)

-- `u16::from_be_bytes` and `u32::from_be_bytes`, and the other way.
abbrev pub from_be16 : ℕ → ℕ → ℕ
from_be16 a b = a * 256 + b

abbrev pub from_be32 : ℕ → ℕ → ℕ → ℕ → ℕ
from_be32 a b c d = a * 16777216 + b * 65536 + c * 256 + d

abbrev pub to_be16 : ℕ → List ℕ
to_be16 w = (w / 256 % 256) ∷ (w % 256) ∷ []

abbrev pub to_be32 : ℕ → List ℕ
to_be32 w = (w / 16777216 % 256) ∷ (w / 65536 % 256) ∷ (w / 256 % 256) ∷ (w % 256) ∷ []

-- `u16::from_ne_bytes` and `to_ne_bytes` on a little-endian host.
abbrev pub from_ne16 : ℕ → ℕ → ℕ
from_ne16 a b = a + b * 256

abbrev pub to_ne16 : ℕ → List ℕ
to_ne16 w = (w % 256) ∷ (w / 256 % 256) ∷ []

abbrev pub u16 : ℕ → ℕ
u16 n = n % 65536

-- Wrapping addition and subtraction of 32-bit words.
abbrev pub wrapping_add : ℕ → ℕ → ℕ
wrapping_add a b = (a + b) % 4294967296

abbrev pub wrapping_sub : ℕ → ℕ → ℕ
wrapping_sub a b = (a + 4294967296 - b % 4294967296) % 4294967296

abbrev pub IsByte : ℕ → Type 0
IsByte n = n < 256
