-- ===== src/Table/Laws.antt =====
-- Reads behind writes in a table, and what an allocation changes.
use microps_rs.Base.{
  ℕ, zero, suc, ◌≤◌, ◌<◌, ◌≡◌, refl, ap, ◌≢◌, inl, inr, List, [], ◌∷◌, ◌++◌, Option, none, some,
  arith, length, set, length-set, length-append, leb, false, Option-cases,
}
use microps_rs.Table.{slot, first_free, alloc, sock_alloc}

module _ {ℓ} {A : Type ℓ} where
  pub slot-lt : (xs : List (Option A)) (i : ℕ) (a : A) → slot xs i ≡ some a → i < length xs
  slot-lt [] i a h = absurd (cc)
  slot-lt (x ∷ xs) zero a h = omega arith
  slot-lt (x ∷ xs) (suc i) a h = omega (arith, slot-lt xs i a h)

  pub slot-set_self :
      (xs : List (Option A)) (i : ℕ) (v : Option A) → i < length xs → slot (set xs i v) i ≡ v
  slot-set_self [] i v h = elim h [ ]
  slot-set_self (x ∷ xs) zero v h = refl
  slot-set_self (x ∷ xs) (suc i) v h = slot-set_self xs i v (omega arith)

  pub slot-set_ne :
      (xs : List (Option A)) (i j : ℕ) (v : Option A) → i ≢ j → slot (set xs i v) j ≡ slot xs j
  slot-set_ne [] i j v h = refl
  slot-set_ne (x ∷ xs) zero zero v h = absurd (h refl)
  slot-set_ne (x ∷ xs) zero (suc j) v h = refl
  slot-set_ne (x ∷ xs) (suc i) zero v h = refl
  slot-set_ne (x ∷ xs) (suc i) (suc j) v h = slot-set_ne xs i j v (λ e. h (ap suc e))

  -- A write of an empty slot leaves it empty, in range or not.
  pub slot-set-none : (xs : List (Option A)) (i : ℕ) → slot (set xs i none) i ≡ none
  slot-set-none [] i = refl
  slot-set-none (x ∷ xs) zero = refl
  slot-set-none (x ∷ xs) (suc i) = slot-set-none xs i

  pub slot-append_end :
      (xs : List (Option A)) (a : A) → slot (xs ++ some a ∷ []) (length xs) ≡ some a
  slot-append_end [] a = refl
  slot-append_end (x ∷ xs) a = slot-append_end xs a

  slot_past : (xs : List (Option A)) → slot xs (length xs) ≡ none
  slot_past [] = refl
  slot_past (x ∷ xs) = slot_past xs

  slot-append_ne :
      (xs : List (Option A)) (a : A) (j : ℕ)
      → length xs ≢ j
      → slot (xs ++ some a ∷ []) j ≡ slot xs j
  slot-append_ne [] a zero h = absurd (h refl)
  slot-append_ne [] a (suc j) h = refl
  slot-append_ne (x ∷ xs) a zero h = refl
  slot-append_ne (x ∷ xs) a (suc j) h = slot-append_ne xs a j (λ e. h (ap suc e))

  pub first_free_lem :
      (xs : List (Option A)) (i : ℕ) → first_free xs ≡ some i → (i < length xs) × (slot xs i ≡ none)
  unfolding first_free
  first_free_lem [] i h = absurd (cc)
  first_free_lem (none ∷ xs) zero h = (omega arith, refl)
  first_free_lem (none ∷ xs) (suc i) h = absurd (cc)
  first_free_lem (some a ∷ xs) zero h = ground arith
  first_free_lem (some a ∷ xs) (suc i) h = ground (arith, first_free_lem xs i)

  -- What an allocation gives: the slot was empty and holds the new value, no other slot changes,
  -- and a table within its limit stays there.
  pub record IsAlloc (limit : ℕ) (a : A) (xs : List (Option A)) (i : ℕ) (ys : List (Option A))
      : Type ℓ where
    pub was_free : slot xs i ≡ none
    pub holds : slot ys i ≡ some a
    pub others : (j : ℕ) → i ≢ j → slot ys j ≡ slot xs j
    pub fits : length xs ≤ limit → (length ys ≤ limit) × (i < limit)

  IsAlloc-set :
      (limit : ℕ) (a : A) (xs : List (Option A)) (i : ℕ)
      → first_free xs ≡ some i
      → IsAlloc limit a xs i (set xs i (some a))
  IsAlloc-set limit a xs i h = record {
    was_free = (first_free_lem xs i h).1;
    holds = slot-set_self xs i (some a) (first_free_lem xs i h).0;
    others = λ j ne. slot-set_ne xs i j (some a) ne;
    fits = λ le. omega (arith, length-set xs i (some a), first_free_lem xs i h);
  }

  IsAlloc-append :
      (limit : ℕ) (a : A) (xs : List (Option A))
      → leb limit (length xs) ≡ false
      → IsAlloc limit a xs (length xs) (xs ++ some a ∷ [])
  IsAlloc-append limit a xs h = record {
    was_free = slot_past xs;
    holds = slot-append_end xs a;
    others = λ j ne. slot-append_ne xs a j ne;
    fits = λ le. ground (arith, length-append xs (some a ∷ []));
  }

  pub alloc-IsAlloc :
      (limit : ℕ) (a : A) (xs : List (Option A)) (i : ℕ) (ys : List (Option A))
      → alloc limit a xs ≡ some (i, ys)
      → IsAlloc limit a xs i ys
  unfolding alloc
  alloc-IsAlloc limit a xs i ys h = elim (Option-cases (first_free xs)) [
    | inr (k, e) ↦
        let p : i ≡ k = ground arith in
        let q : ys ≡ set xs k (some a) = ground arith in rw (p, q) (IsAlloc-set limit a xs k e)
    | inl e ↦
        let full : leb limit (length xs) ≡ false = ground arith in
        let p : i ≡ length xs = ground arith in
        let q : ys ≡ xs ++ some a ∷ [] = ground arith in rw (p, q) (IsAlloc-append limit a xs full)
  ]

  -- The table of sockets never refuses.
  pub sock_alloc-IsAlloc :
      (a : A) (xs : List (Option A))
      → IsAlloc (suc (length xs)) a xs (sock_alloc a xs).0 (sock_alloc a xs).1
  unfolding sock_alloc
  sock_alloc-IsAlloc a xs = elim (Option-cases (first_free xs)) [
    | inl e ↦ rw (e, sock_alloc) (IsAlloc-append (suc (length xs)) a xs (ground arith))
    | inr (i, e) ↦ rw (e, sock_alloc) (IsAlloc-set (suc (length xs)) a xs i e)
  ]
