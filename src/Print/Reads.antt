-- ===== src/Print/Reads.antt =====
-- Reads within the buffer return, and so do lines of values that are there.
use microps_rs.Base.{
  ℕ, zero, suc, ◌+◌, ◌≤◌, ◌<◌, List, [], ◌∷◌, ◌++◌, Option, none, some, arith, ltb, leb, get_elem?,
  length, All, if_cases,
}
use microps_rs.Util.Dump.{hex_dump}
use microps_rs.Print.{be16, be32, array, checked_sub, line, all_lines, header_and_dump}

-- There is a value: nothing panics.
abbrev pub HasValue {ℓ} : {A : Type ℓ} → Option A → Type 0
HasValue none = ⊥
HasValue (some a) = Unit

pub get_elem?-HasValue : (buf : List ℕ) (i : ℕ) → i < length buf → HasValue (get_elem? buf i)
get_elem?-HasValue [] i h = absurd (omega arith)
get_elem?-HasValue (x ∷ xs) zero h = tt
get_elem?-HasValue (x ∷ xs) (suc i) h = get_elem?-HasValue xs i (omega arith)

-- What is read behind a value that is there.
pub then_HasValue :
    {A B : Type 0} (o : Option A) (f : A → Option B)
    → HasValue o
    → ((a : A) → HasValue (f a))
    → HasValue (elim o as (λ x. Option B) [ none ↦ none | some a ↦ f a ])
then_HasValue none f h k = h
then_HasValue (some a) f h k = k a

pub be16-HasValue : (buf : List ℕ) (i : ℕ) → i + 1 < length buf → HasValue (be16 buf i)
unfolding be16
be16-HasValue buf i h =
    then_HasValue (get_elem? buf i) _ (get_elem?-HasValue buf i (omega arith))
      λ a. then_HasValue (get_elem? buf (i + 1)) _ (get_elem?-HasValue buf (i + 1) h) (λ b. tt)

pub be32-HasValue : (buf : List ℕ) (i : ℕ) → i + 3 < length buf → HasValue (be32 buf i)
unfolding be32
be32-HasValue buf i h =
    then_HasValue (be16 buf i) _ (be16-HasValue buf i (omega arith))
      λ a. then_HasValue (be16 buf (i + 2)) _ (be16-HasValue buf (i + 2) (omega arith)) (λ b. tt)

pub array-HasValue : (n : ℕ) (buf : List ℕ) (i : ℕ) → i + n ≤ length buf → HasValue (array n buf i)
unfolding array
array-HasValue n buf i h =
    if_cases (λ (o : Option (List ℕ)). HasValue o) (leb (i + n) (length buf)) (λ _. tt)
      (λ e. absurd (ground arith))

pub checked_sub-HasValue : (a b : ℕ) → b ≤ a → HasValue (checked_sub a b)
unfolding checked_sub
checked_sub-HasValue a b h =
    if_cases (λ (o : Option ℕ). HasValue o) (ltb a b) (λ e. absurd (ground arith)) (λ _. tt)

pub line-HasValue :
    {A : Type 0} (label : List ℕ) (f : A → List ℕ) (o : Option A)
    → HasValue o
    → HasValue (line label f o)
unfolding line
line-HasValue label f none h = h
line-HasValue label f (some a) h = tt

pub all_lines-HasValue : (ls : List (Option (List ℕ))) → All HasValue ls → HasValue (all_lines ls)
unfolding all_lines
all_lines-HasValue [] h = tt
all_lines-HasValue (none ∷ ls) (h, hs) = h
all_lines-HasValue (some l ∷ ls) (h, hs) =
    then_HasValue (all_lines ls) _ (all_lines-HasValue ls hs) (λ rest. tt)

each-append :
    (ls : List (Option (List ℕ))) (l : List ℕ) → All HasValue ls → All HasValue (ls ++ some l ∷ [])
each-append [] l h = (tt, tt)
each-append (x ∷ xs) l (h, hs) = (h, each-append xs l hs)

-- A header is read only where there is one.
pub header_and_dump-HasValue :
    (size : ℕ) (buf : List ℕ) (ls : List (Option (List ℕ)))
    → (size ≤ length buf → All HasValue ls)
    → HasValue (header_and_dump size buf ls)
unfolding header_and_dump
header_and_dump-HasValue size buf ls h =
    if_cases (λ (o : Option (List (List ℕ))). HasValue o) (ltb (length buf) size) (λ _. tt)
      λ e.
        all_lines-HasValue (ls ++ some (hex_dump buf) ∷ [])
          (each-append ls (hex_dump buf) (h (ground arith)))
