-- ===== src/Tcp/Pcb/Select.antt =====
-- `pcb_select` of src/tcp.rs: which block a segment is for.
use microps_rs.Base.{
  ℕ, zero, suc, ◌+◌, ◌<◌, ◌≡◌, refl, true, false, ◌⊎◌, inl, inr, List, [], ◌∷◌, Option, none, some,
  arith, Bool-cases,
}
use mathlib.Core.Option.{some-injective}
use microps_rs.Addr.{IpEndp}
use microps_rs.Table.{slot}
use microps_rs.Tcp.{TcpPcb}
use microps_rs.Tcp.Pcb.{endp_match, is_listen, select_from, pcb_select}

module _ (local remote : IpEndp) where
  -- A block that the endpoints match, and that is no listener.
  abbrev pub IsConnection : TcpPcb → Type 0
  IsConnection p = (endp_match local remote p ≡ true) × (is_listen p.state ≡ false)

  -- A block that the endpoints match, and that listens.
  abbrev pub IsListener : TcpPcb → Type 0
  IsListener p = (endp_match local remote p ≡ true) × (is_listen p.state ≡ true)

  -- No block of the table is of the kind.
  abbrev pub Lacks : (TcpPcb → Type 0) → List (Option TcpPcb) → Type 0
  Lacks P ps = (j : ℕ) (q : TcpPcb) → slot ps j ≡ some q → P q → ⊥

  -- The first connection is chosen, or else some listener; nothing only if there are neither.
  abbrev pub IsChosen : List (Option TcpPcb) → Option ℕ → Type 0
  IsChosen ps none = Lacks IsConnection ps × Lacks IsListener ps
  IsChosen ps (some i) =
      (p : TcpPcb) × (slot ps i ≡ some p)
      × ((IsConnection p × ((j : ℕ) (q : TcpPcb) → j < i → slot ps j ≡ some q → IsConnection q → ⊥))
          ⊎ (IsListener p
              × Lacks IsConnection ps
              × ((j : ℕ) (q : TcpPcb) → i < j → slot ps j ≡ some q → IsListener q → ⊥)))

  not_both : (p q : TcpPcb) → IsListener p → some p ≡ some q → IsConnection q → ⊥
  not_both p q h e g = let same = some-injective p q e in cc

  -- No connection stands before the place, no listener behind it.
  abbrev FirstAt : ℕ → List (Option TcpPcb) → Type 0
  FirstAt i ps = (j : ℕ) (q : TcpPcb) → j < i → slot ps j ≡ some q → IsConnection q → ⊥

  abbrev LastAt : ℕ → List (Option TcpPcb) → Type 0
  LastAt i ps = (j : ℕ) (q : TcpPcb) → i < j → slot ps j ≡ some q → IsListener q → ⊥

  -- What the loop returns from the index `i` on, with the candidate `c`.
  data Loop (i : ℕ) (c : Option ℕ) (ps : List (Option TcpPcb)) : Option ℕ → Type 0 where
    at_connection :
        (m k : ℕ) (p : TcpPcb)
        → k ≡ i + m
        → slot ps m ≡ some p
        → IsConnection p
        → FirstAt m ps
        → Loop i c ps (some k)
    at_listener :
        (m k : ℕ) (p : TcpPcb)
        → k ≡ i + m
        → slot ps m ≡ some p
        → IsListener p
        → Lacks IsConnection ps
        → LastAt m ps
        → Loop i c ps (some k)
    past_all : Lacks IsConnection ps → Lacks IsListener ps → Loop i c ps c

  Lacks-cons :
      (P : TcpPcb → Type 0) (x : Option TcpPcb) (ps : List (Option TcpPcb))
      → ((q : TcpPcb) → x ≡ some q → P q → ⊥)
      → Lacks P ps
      → Lacks P (x ∷ ps)
  Lacks-cons P x ps h k zero q e = h q e
  Lacks-cons P x ps h k (suc j) q e = k j q e

  FirstAt-cons :
      (m : ℕ) (x : Option TcpPcb) (ps : List (Option TcpPcb))
      → ((q : TcpPcb) → x ≡ some q → IsConnection q → ⊥)
      → FirstAt m ps
      → FirstAt (suc m) (x ∷ ps)
  FirstAt-cons m x ps h k zero q lt e = h q e
  FirstAt-cons m x ps h k (suc j) q lt e = k j q (omega arith) e

  LastAt-cons :
      (m : ℕ) (x : Option TcpPcb) (ps : List (Option TcpPcb))
      → LastAt m ps
      → LastAt (suc m) (x ∷ ps)
  LastAt-cons m x ps k zero q lt e = absurd (omega arith)
  LastAt-cons m x ps k (suc j) q lt e = k j q (omega arith) e

  -- A slot that is no match is passed over.
  skip :
      (i : ℕ) (c : Option ℕ) (x : Option TcpPcb) (ps : List (Option TcpPcb)) (r : Option ℕ)
      → ((q : TcpPcb) → x ≡ some q → endp_match local remote q ≡ false)
      → Loop (i + 1) c ps r
      → Loop i c (x ∷ ps) r
  skip i c x ps _ h (at_connection m k p e f g b) =
      at_connection (suc m) k p (omega arith) f g (FirstAt-cons m x ps (λ q u v. cc (h q u)) b)
  skip i c x ps _ h (at_listener m k p e f g b l) =
      at_listener (suc m) k p (omega arith) f g
        (Lacks-cons IsConnection x ps (λ q u v. cc (h q u)) b) (LastAt-cons m x ps l)
  skip i c x ps _ h (past_all b l) =
      past_all (Lacks-cons IsConnection x ps (λ q u v. cc (h q u)) b)
        (Lacks-cons IsListener x ps (λ q u v. cc (h q u)) l)

  -- A listener becomes the candidate.
  keep_listener :
      (i : ℕ) (c : Option ℕ) (p : TcpPcb) (ps : List (Option TcpPcb)) (r : Option ℕ)
      → IsListener p
      → Loop (i + 1) (some i) ps r
      → Loop i c (some p ∷ ps) r
  keep_listener i c p ps _ h (at_connection m k q e f g b) =
      at_connection (suc m) k q (omega arith) f g
        (FirstAt-cons m (some p) ps (λ q u v. not_both p q h u v) b)
  keep_listener i c p ps _ h (at_listener m k q e f g b l) =
      at_listener (suc m) k q (omega arith) f g
        (Lacks-cons IsConnection (some p) ps (λ q u v. not_both p q h u v) b)
        (LastAt-cons m (some p) ps l)
  keep_listener i c p ps _ h (past_all b l) =
      at_listener 0 i p (omega arith) refl h
        (Lacks-cons IsConnection (some p) ps (λ q u v. not_both p q h u v) b)
        (λ j q lt e. behind j q lt e)
    where
      behind : (j : ℕ) (q : TcpPcb) → 0 < j → slot (some p ∷ ps) j ≡ some q → IsListener q → ⊥
      behind zero q lt e = absurd (omega arith)
      behind (suc j) q lt e = l j q e

  select_from-Loop :
      (i : ℕ) (c : Option ℕ) (ps : List (Option TcpPcb))
      → Loop i c ps (select_from local remote i c ps)
  unfolding select_from
  select_from-Loop i c [] = past_all (λ j q e. absurd (cc)) (λ j q e. absurd (cc))
  select_from-Loop i c (none ∷ ps) =
      skip i c none ps _ (λ q e. absurd (cc)) (select_from-Loop (i + 1) c ps)
  select_from-Loop i c (some p ∷ ps) = elim (Bool-cases (endp_match local remote p)) [
    | inr differs ↦ rw differs (
        skip i c (some p) ps (select_from local remote (i + 1) c ps)
          (λ q e. let same = some-injective p q e in cc) (select_from-Loop (i + 1) c ps))
    | inl same ↦ elim (Bool-cases (is_listen p.state)) [
      | inl l ↦
          rw (same, l)
            (keep_listener i c p ps (select_from local remote (i + 1) (some i) ps) (same, l)
              (select_from-Loop (i + 1) (some i) ps))
      | inr l ↦
          rw (same, l)
            (at_connection 0 i p (omega arith) refl (same, l) (λ j q lt e. absurd (omega arith)))
    ]
  ]

  IsChosen-Loop : (ps : List (Option TcpPcb)) (r : Option ℕ) → Loop 0 none ps r → IsChosen ps r
  IsChosen-Loop ps _ (at_connection m k p e f g b) =
      let q : k ≡ m = omega arith in rw q (p, f, inl (g, b))
  IsChosen-Loop ps _ (at_listener m k p e f g b l) =
      let q : k ≡ m = omega arith in rw q (p, f, inr (g, b, l))
  IsChosen-Loop ps _ (past_all b l) = (b, l)

pub pcb_select-IsChosen :
    (local remote : IpEndp) (ps : List (Option TcpPcb))
    → IsChosen local remote ps (pcb_select local remote ps)
unfolding pcb_select
pcb_select-IsChosen local remote ps =
    IsChosen-Loop local remote ps _ (select_from-Loop local remote 0 none ps)
