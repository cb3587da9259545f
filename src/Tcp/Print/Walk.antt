-- ===== src/Tcp/Print/Walk.antt =====
-- The walk over the options in `print` of src/tcp.rs: it stays in the header, and it ends.
use microps_rs.Base.{
  ℕ, zero, suc, ◌+◌, ◌≤◌, ◌<◌, ◌≡◌, refl, ap, Bool, true, false, List, [], ◌++◌, Option, none, some,
  arith, ltb, leb, ◌==◌, get_elem?, length, if◌then◌else◌, if_cases,
}
use microps_rs.Text.{codes, print_dec}
use microps_rs.Print.Reads.{HasValue, get_elem?-HasValue, then_HasValue}
use microps_rs.Tcp.Print.{option_line, then_lines, next_option, print_options}

then_lines-HasValue :
    (l : List ℕ) (o : Option (List (List ℕ))) → HasValue o → HasValue (then_lines l o)
unfolding then_lines
then_lines-HasValue l none h = h
then_lines-HasValue l (some ls) h = tt

next_option-HasValue :
    (rest : ℕ → ℕ → Option (List (List ℕ))) (seg : List ℕ) (hlen i pos : ℕ)
    → ((j q : ℕ) → pos < q → HasValue (rest j q))
    → hlen ≤ length seg
    → pos < hlen
    → HasValue (next_option rest seg hlen i pos)
unfolding next_option
next_option-HasValue rest seg hlen i pos h inside at =
    then_HasValue (get_elem? seg pos) _ (get_elem?-HasValue seg pos (omega arith)) λ kind.
      if_cases P (kind == 0) (λ _. tt)
        λ _.
          if_cases P (kind == 1)
            (λ _.
              then_lines-HasValue (option_line i kind) (rest (i + 1) (pos + 1))
                (h (i + 1) (pos + 1) (omega arith)))
            λ _.
              if_cases P (leb hlen (pos + 1)) (λ _. tt)
                λ more.
                  then_HasValue (get_elem? seg (pos + 1)) _
                    (get_elem?-HasValue seg (pos + 1) (ground arith))
                    λ olen.
                      if_cases P (olen == 0) (λ _. tt)
                        λ moves.
                          then_lines-HasValue
                            (option_line i kind ++ (codes ", len=" ++ print_dec olen))
                            (rest (i + 1) (pos + olen)) (h (i + 1) (pos + olen) (ground arith))
  where
    P : Option (List (List ℕ)) → Type 0
    P o = HasValue o

pub print_options-HasValue :
    (fuel : ℕ) (seg : List ℕ) (hlen i pos : ℕ)
    → hlen ≤ length seg
    → hlen ≤ pos + fuel
    → HasValue (print_options fuel seg hlen i pos)
unfolding print_options
print_options-HasValue zero seg hlen i pos inside enough =
    let past : ltb pos hlen ≡ false = ground arith in rw past tt
print_options-HasValue (suc fuel) seg hlen i pos inside enough =
    if_cases (λ (o : Option (List (List ℕ))). HasValue o) (ltb pos hlen)
      (λ e.
        next_option-HasValue (print_options fuel seg hlen) seg hlen i pos
          (λ j q lt. print_options-HasValue fuel seg hlen j q inside (omega arith)) inside
          (ground arith))
      (λ _. tt)

-- Equal branches, and equal results behind a read.
if_same :
    {A : Type 0} (b : Bool) (x x' y y' : A)
    → x ≡ x'
    → (b ≡ false → y ≡ y')
    → (if b then x else y) ≡ (if b then x' else y')
if_same true x x' y y' h k = h
if_same false x x' y y' h k = k refl

then_same :
    {A B : Type 0} (o : Option A) (f g : A → Option B)
    → ((a : A) → f a ≡ g a)
    → elim o as (λ x. Option B) [ none ↦ none | some a ↦ f a ]
      ≡ elim o as (λ x. Option B) [ none ↦ none | some a ↦ g a ]
then_same none f g h = refl
then_same (some a) f g h = h a

-- A turn depends on what comes behind its position only.
next_option-rest :
    (rest rest' : ℕ → ℕ → Option (List (List ℕ))) (seg : List ℕ) (hlen i pos : ℕ)
    → ((j q : ℕ) → pos < q → rest j q ≡ rest' j q)
    → next_option rest seg hlen i pos ≡ next_option rest' seg hlen i pos
unfolding next_option
next_option-rest rest rest' seg hlen i pos h = then_same (get_elem? seg pos) _ _ λ kind.
    if_same (kind == 0) _ _ _ _ refl λ _.
      if_same (kind == 1) _ _ _ _
        (ap (then_lines (option_line i kind)) (h (i + 1) (pos + 1) (omega arith)))
        λ _. if_same (leb hlen (pos + 1)) _ _ _ _ refl λ _.
          then_same (get_elem? seg (pos + 1)) _ _ λ olen. if_same (olen == 0) _ _ _ _ refl λ e.
            ap (then_lines (option_line i kind ++ (codes ", len=" ++ print_dec olen)))
              (h (i + 1) (pos + olen) (ground arith))

-- Fuel for the bytes up to the end of the header is enough.
pub print_options-fuel :
    (f g : ℕ) (seg : List ℕ) (hlen i pos : ℕ)
    → hlen ≤ pos + f
    → hlen ≤ pos + g
    → print_options f seg hlen i pos ≡ print_options g seg hlen i pos
unfolding print_options
print_options-fuel zero zero seg hlen i pos a b = refl
print_options-fuel zero (suc g) seg hlen i pos a b = ground arith
print_options-fuel (suc f) zero seg hlen i pos a b = ground arith
print_options-fuel (suc f) (suc g) seg hlen i pos a b =
    ap (λ x. if ltb pos hlen then x else some [])
      (next_option-rest (print_options f seg hlen) (print_options g seg hlen) seg hlen i pos
        (λ j q lt. print_options-fuel f g seg hlen j q (omega arith) (omega arith)))
