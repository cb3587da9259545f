-- ===== src/Text/Parts.antt =====
-- Parts that are joined by a separator which they do not contain are split again.
use microps_rs.Base.{
  ℕ, ◌≡◌, ◌≢◌, refl, List, [], ◌∷◌, ◌++◌, Option, none, some, arith, All, length, map,
}
use microps_rs.Text.{cons_first, split, rsplit_once, join, parse_parts}

pub split_end : (sep : ℕ) (p : List ℕ) → All (λ c. c ≢ sep) p → split sep p ≡ p ∷ []
unfolding split cons_first
split_end sep [] h = refl
split_end sep (c ∷ cs) (hc, hs) = ground (arith, split_end sep cs hs)

pub split-cons :
    (sep : ℕ) (p rest : List ℕ)
    → All (λ c. c ≢ sep) p
    → split sep (p ++ sep ∷ rest) ≡ p ∷ split sep rest
unfolding split cons_first
split-cons sep [] rest h = ground arith
split-cons sep (c ∷ cs) rest (hc, hs) = ground (arith, split-cons sep cs rest hs)

pub split-join :
    (sep : ℕ) (p : List ℕ) (ps : List (List ℕ))
    → All (All (λ c. c ≢ sep)) (p ∷ ps)
    → split sep (join sep (p ∷ ps)) ≡ p ∷ ps
unfolding join
split-join sep p [] (h, _) = split_end sep p h
split-join sep p (q ∷ qs) (h, hs) =
    rw (split-cons sep p (join sep (q ∷ qs)) h, split-join sep q qs hs)

rsplit_once-none : (sep : ℕ) (p : List ℕ) → All (λ c. c ≢ sep) p → rsplit_once sep p ≡ none
unfolding rsplit_once
rsplit_once-none sep [] h = refl
rsplit_once-none sep (c ∷ cs) (hc, hs) = rw (rsplit_once-none sep cs hs) (ground arith)

pub rsplit_once-append :
    (sep : ℕ) (front back : List ℕ)
    → All (λ c. c ≢ sep) back
    → rsplit_once sep (front ++ sep ∷ back) ≡ some (front, back)
unfolding rsplit_once
rsplit_once-append sep [] back h = rw (rsplit_once-none sep back h) (ground arith)
rsplit_once-append sep (c ∷ cs) back h = rw (rsplit_once-append sep cs back h)

pub parse_parts-map :
    (parse : List ℕ → Option ℕ) (print : ℕ → List ℕ) (xs : List ℕ)
    → All (λ x. parse (print x) ≡ some x) xs
    → parse_parts parse (length xs) (map print xs) ≡ some xs
unfolding parse_parts
parse_parts-map parse print [] h = refl
parse_parts-map parse print (x ∷ xs) (hx, hs) = rw (hx, parse_parts-map parse print xs hs)
