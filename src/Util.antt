-- ===== src/Util.antt =====
-- src/util.rs: the Internet checksum, and the hex dump in its child module.
pub mod Dump
pub mod Fold
pub mod Verify
use microps_rs.Base.{
  ℕ, zero, suc, ◌+◌, ◌-◌, ◌/◌, ◌%◌, List, [], ◌∷◌, ◌==◌, if◌then◌else◌, from_ne16,
}

-- The first two loops: the words of the buffer are added up in a `u32`, a last odd byte as it is. The
-- sum wraps, as without overflow checks; below 2 ^ 32 it does not matter.
unfoldable pub sum_words : List ℕ → ℕ → ℕ
sum_words [] sum = sum
sum_words (a ∷ []) sum = (sum + a) % 4294967296
sum_words (a ∷ b ∷ rest) sum = sum_words rest ((sum + from_ne16 a b) % 4294967296)

-- `while sum >> 16 != 0`, on fuel.
unfoldable pub fold_carries : ℕ → ℕ → ℕ
fold_carries zero sum = sum
fold_carries (suc fuel) sum =
    let rest = fold_carries fuel (sum % 65536 + sum / 65536) in
    if sum / 65536 == 0 then sum else rest

-- Three rounds are enough for a 32-bit sum.
unfoldable pub cksum16 : List ℕ → ℕ → ℕ
unfolding sum_words fold_carries
cksum16 buf init = 65535 - fold_carries 3 (sum_words buf init) % 65536
