-- ===== src/Util/Verify.antt =====
-- What a checksum of src/util.rs is good for: the receiver's test, and sums computed in parts.
use microps_rs.Base.{
  ℕ, ◌+◌, ◌-◌, ◌*◌, ◌%◌, ◌<◌, ◌≡◌, ◌≤◌, refl, sym, ◌∙◌, ==_iff, ◌==◌, if◌then◌else◌, Bool-cases,
  inl, inr, All, IsByte, length, List, [], ◌∷◌, ◌++◌, arith, from_ne16, to_ne16,
}
use microps_rs.Util.{sum_words, cksum16, fold_carries}
use microps_rs.Util.Fold.{fold_carries_lem, fold_carries_complement, fold_carries_twice}

-- The sum of the little-endian words, with no wrap.
unfoldable pub word_sum : List ℕ → ℕ
word_sum [] = 0
word_sum (a ∷ []) = a
word_sum (a ∷ b ∷ rest) = from_ne16 a b + word_sum rest

-- An even number of bytes.
abbrev pub IsEven : List ℕ → Type 0
IsEven [] = Unit
IsEven (a ∷ []) = ⊥
IsEven (a ∷ b ∷ rest) = IsEven rest

pub sum_words-eq :
    (buf : List ℕ) (s : ℕ) → s + word_sum buf < 4294967296 → sum_words buf s ≡ s + word_sum buf
unfolding sum_words word_sum
sum_words-eq [] s h = omega arith
sum_words-eq (a ∷ []) s h = omega arith
sum_words-eq (a ∷ b ∷ rest) s h =
    let small : s + from_ne16 a b < 4294967296 = omega arith in
    omega (arith, sum_words-eq rest ((s + from_ne16 a b) % 4294967296) (omega arith))

pub word_sum-append : (xs ys : List ℕ) → IsEven xs → word_sum (xs ++ ys) ≡ word_sum xs + word_sum ys
unfolding word_sum
word_sum-append [] ys h = omega arith
word_sum-append (a ∷ []) ys h = absurd h
word_sum-append (a ∷ b ∷ xs) ys h = omega (arith, word_sum-append xs ys h)

-- A bound for the sum of bytes.
pub word_sum-le : (xs : List ℕ) → All IsByte xs → word_sum xs ≤ 32768 * length xs + 32768
unfolding word_sum
word_sum-le [] h = omega arith
word_sum-le (a ∷ []) h = omega (arith, h)
word_sum-le (a ∷ b ∷ rest) h = omega (arith, h.0, h.1.0, word_sum-le rest h.1.1)

pub cksum16-eq :
    (buf : List ℕ) (s : ℕ)
    → s + word_sum buf < 4294967296
    → cksum16 buf s ≡ 65535 - fold_carries 3 (s + word_sum buf)
unfolding cksum16
cksum16-eq buf s h =
    rw (sum_words-eq buf s h) (omega (arith, fold_carries_lem (s + word_sum buf) h))

-- A checksum written over two zero bytes at an even offset makes the whole buffer's checksum
-- zero, whatever the initial sum, if the sum of all words stays below 2 ^ 32.
pub cksum16_verifies :
    (pre post : List ℕ) (init : ℕ)
    → IsEven pre
    → init + word_sum pre + word_sum post + 65535 < 4294967296
    → cksum16 (pre ++ (to_ne16 (cksum16 (pre ++ 0 ∷ 0 ∷ post) init) ++ post)) init ≡ 0
unfolding word_sum
cksum16_verifies pre post init even small =
    let total = init + (word_sum pre + word_sum post) in
    let blank : init + word_sum (pre ++ 0 ∷ 0 ∷ post) ≡ total =
      omega (arith, word_sum-append pre (0 ∷ 0 ∷ post) even) in
    let c = 65535 - fold_carries 3 total in
    let value : cksum16 (pre ++ 0 ∷ 0 ∷ post) init ≡ c =
      rw (cksum16-eq (pre ++ 0 ∷ 0 ∷ post) init (omega arith), blank) refl in
    let filled : init + word_sum (pre ++ (to_ne16 c ++ post)) ≡ total + c =
      omega (arith, word_sum-append pre (to_ne16 c ++ post) even) in
    rw
      (
        value,
        cksum16-eq (pre ++ (to_ne16 c ++ post)) init (omega (arith, filled)),
        filled,
        fold_carries_complement total (omega arith),
      )
      refl

-- The same where a checksum of 0 is written as 65535.
pub cksum16_verifies_nonzero :
    (pre post : List ℕ) (init : ℕ)
    → IsEven pre
    → init + word_sum pre + word_sum post + 131070 < 4294967296
    → cksum16
        (pre
          ++ (to_ne16 (
                if cksum16 (pre ++ 0 ∷ 0 ∷ post) init == 0
                then 65535
                else cksum16 (pre ++ 0 ∷ 0 ∷ post) init)
              ++ post))
        init
      ≡ 0
unfolding word_sum
cksum16_verifies_nonzero pre post init even small =
    elim (Bool-cases (cksum16 (pre ++ 0 ∷ 0 ∷ post) init == 0)) [
      | inr z ↦ rw z (cksum16_verifies pre post init even (omega arith))
      | inl z ↦
          let total = init + (word_sum pre + word_sum post) in
          let blank : init + word_sum (pre ++ 0 ∷ 0 ∷ post) ≡ total =
            omega (arith, word_sum-append pre (0 ∷ 0 ∷ post) even) in
          let folded : fold_carries 3 total ≡ 65535 = full total (omega arith) (
            sym (rw (cksum16-eq (pre ++ 0 ∷ 0 ∷ post) init (omega arith), blank) refl)
            ∙ (==_iff _ 0).0 z) in
          let filled : init + word_sum (pre ++ (to_ne16 65535 ++ post)) ≡ total + 65535 =
            omega (arith, word_sum-append pre (to_ne16 65535 ++ post) even) in
          rw
            (
              z,
              cksum16-eq (pre ++ (to_ne16 65535 ++ post)) init (omega (arith, filled)),
              filled,
              sym (fold_carries_twice total 65535 (omega arith)),
              folded,
            )
            (unfold fold_carries in refl)
    ]
  where
    full : (t : ℕ) → t < 4294967296 → 65535 - fold_carries 3 t ≡ 0 → fold_carries 3 t ≡ 65535
    full t h e = omega (arith, fold_carries_lem t h)

-- The checksum of a buffer is that of its second part, started from the complement of the
-- checksum of its first part, if that has an even length and the words add up below 2 ^ 32.
pub cksum16-append :
    (xs ys : List ℕ) (init : ℕ)
    → IsEven xs
    → init + word_sum xs + word_sum ys + 65535 < 4294967296
    → cksum16 (xs ++ ys) init ≡ cksum16 ys (65535 - cksum16 xs init)
cksum16-append xs ys init even small =
    let total = init + word_sum xs in
    let part = fold_carries_lem total (omega arith) in
    let first : 65535 - cksum16 xs init ≡ fold_carries 3 total =
      omega (arith, cksum16-eq xs init (omega arith), part) in
    let joined : init + word_sum (xs ++ ys) ≡ total + word_sum ys =
      omega (arith, word_sum-append xs ys even) in
    rw
      (
        first,
        cksum16-eq (xs ++ ys) init (omega (arith, joined)),
        joined,
        cksum16-eq ys (fold_carries 3 total) (omega (arith, part)),
        fold_carries_twice total (word_sum ys) (omega arith),
      )
      refl
