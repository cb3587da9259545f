-- ===== src/Table.antt =====
-- The tables of control blocks and sockets, `Vec<Option<T>>` (src/tcp.rs, src/udp.rs, src/sock.rs).
pub mod Laws
use microps_rs.Base.{
  ℕ, zero, suc, ◌+◌, List, [], ◌∷◌, ◌++◌, Option, none, some, leb, if◌then◌else◌, length, set,
}

module _ {ℓ} {A : Type ℓ} where
  -- `pcbs.get(desc).and_then(|s| s.as_ref())`.
  abbrev pub slot : List (Option A) → ℕ → Option A
  slot [] i = none
  slot (x ∷ xs) zero = x
  slot (x ∷ xs) (suc i) = slot xs i

  -- The index of the first free slot.
  unfoldable pub first_free : List (Option A) → Option ℕ
  first_free [] = none
  first_free (none ∷ xs) = some 0
  first_free (some a ∷ xs) = elim (first_free xs) [ none ↦ none | some i ↦ some (suc i) ]

  -- `pcb_alloc`: a free slot is taken again before the table grows, up to `limit` slots.
  unfoldable pub alloc : ℕ → A → List (Option A) → Option (ℕ × List (Option A))
  unfolding first_free
  alloc limit a xs = elim (first_free xs) [
    | some i ↦ some (i, set xs i (some a))
    | none ↦ if leb limit (length xs) then none else some (length xs, xs ++ some a ∷ [])
  ]

  -- `sock_alloc`: the table of sockets has no limit.
  unfoldable pub sock_alloc : A → List (Option A) → ℕ × List (Option A)
  unfolding first_free
  sock_alloc a xs = elim (first_free xs) [
    | some i ↦ (i, set xs i (some a))
    | none ↦ (length xs, xs ++ some a ∷ [])
  ]
