-- ===== src/Udp/Exclusive.antt =====
-- Endpoints in the table of src/udp.rs, and when they collide.
use microps_rs.Base.{
  ℕ, zero, suc, ◌≡◌, ◌≢◌, refl, sym, ap, ◌∙◌, subst, false, inl, inr, List, [], ◌∷◌, Option, none,
  some, arith, set, Bool-cases, some≢none,
}
use mathlib.Core.Option.{some-injective}
use native.Mathlib.Decide.{ℕ_discrete}
use microps_rs.Addr.{IpEndp, addr_eq}
use microps_rs.Table.{slot}
use microps_rs.Table.Laws.{slot-lt, slot-set_self, slot-set_ne, slot-set-none}
use microps_rs.Udp.Pcb.{UdpPcb, endp_match, pcb_select}

suc-none :
    (o : Option ℕ)
    → elim o as (λ _. Option ℕ) [ none ↦ none | some j ↦ some (suc j) ] ≡ none
    → o ≡ none
suc-none none h = refl
suc-none (some j) h = absurd (some≢none h)

-- Nothing in the table collides with an endpoint for which nothing is selected.
pub pcb_select-none :
    (key : IpEndp) (ps : List (Option UdpPcb)) (i : ℕ) (p : UdpPcb)
    → pcb_select key ps ≡ none
    → slot ps i ≡ some p
    → endp_match key p ≡ false
unfolding pcb_select
pcb_select-none key [] i p h e = absurd (cc)
pcb_select-none key (none ∷ ps) zero p h e = absurd (cc)
pcb_select-none key (none ∷ ps) (suc i) p h e =
    pcb_select-none key ps i p (suc-none (pcb_select key ps) h) e
pcb_select-none key (some q ∷ ps) zero p h e = elim (Bool-cases (endp_match key q)) [
  | inl t ↦ absurd (some≢none (rw t at h))
  | inr f ↦ subst (λ x. endp_match key x ≡ false) (some-injective q p e) f
]
pcb_select-none key (some q ∷ ps) (suc i) p h e = elim (Bool-cases (endp_match key q)) [
  | inl t ↦ absurd (some≢none (rw t at h))
  | inr f ↦ pcb_select-none key ps i p (suc-none (pcb_select key ps) (rw f at h)) e
]

endp_match-sym : (p q : UdpPcb) → endp_match p.local q ≡ false → endp_match q.local p ≡ false
unfolding endp_match addr_eq
endp_match-sym p q h = ground arith

-- An unbound block collides with no bound one.
endp_match-unbound :
    (p q : UdpPcb) → q.local.port ≡ 0 → p.local.port ≢ 0 → endp_match p.local q ≡ false
unfolding endp_match
endp_match-unbound p q h k = ground arith

-- No two blocks of the table collide, where one of them is bound.
abbrev pub IsExclusive : List (Option UdpPcb) → Type 0
IsExclusive ps =
    (i j : ℕ) (p q : UdpPcb)
    → i ≢ j
    → slot ps i ≡ some p
    → slot ps j ≡ some q
    → p.local.port ≢ 0
    → endp_match p.local q ≡ false

-- The table differs in one slot only.
pub record Changes (d : ℕ) (o : Option UdpPcb) (ps ps' : List (Option UdpPcb)) : Type 0 where
  pub here : slot ps' d ≡ o
  pub others : (j : ℕ) → d ≢ j → slot ps' j ≡ slot ps j

pub set-Changes :
    (d : ℕ) (p q : UdpPcb) (ps : List (Option UdpPcb))
    → slot ps d ≡ some p
    → Changes d (some q) ps (set ps d (some q))
set-Changes d p q ps e = record {
  here = slot-set_self ps d (some q) (slot-lt ps d p e);
  others = λ j ne. slot-set_ne ps d j (some q) ne;
}

pub free-Changes : (d : ℕ) (ps : List (Option UdpPcb)) → Changes d none ps (set ps d none)
free-Changes d ps = record {
  here = slot-set-none ps d;
  others = λ j ne. slot-set_ne ps d j none ne;
}

-- Two blocks do not collide, whichever is bound.
abbrev Apart : UdpPcb → UdpPcb → Type 0
Apart p q =
    (p.local.port ≢ 0 → endp_match p.local q ≡ false)
    × (q.local.port ≢ 0 → endp_match q.local p ≡ false)

IsExclusive-Changes :
    (d : ℕ) (o : Option UdpPcb) (ps ps' : List (Option UdpPcb))
    → Changes d o ps ps'
    → ((q : UdpPcb) → o ≡ some q → (j : ℕ) (p : UdpPcb) → d ≢ j → slot ps j ≡ some p → Apart q p)
    → IsExclusive ps
    → IsExclusive ps'
IsExclusive-Changes d o ps ps' c apart h i j p q ne e f bound = elim (ℕ_discrete d i) [
  | yes a ↦
      (apart p (sym c.here ∙ (ap (slot ps') a ∙ e)) j q (λ b. ne (sym a ∙ b))
          (sym (c.others j (λ b. ne (sym a ∙ b))) ∙ f)).0
        bound
  | no a ↦ elim (ℕ_discrete d j) [
    | yes b ↦ (apart q (sym c.here ∙ (ap (slot ps') b ∙ f)) i p a (sym (c.others i a) ∙ e)).1 bound
    | no b ↦ h i j p q ne (sym (c.others i a) ∙ e) (sym (c.others j b) ∙ f) bound
  ]
]

endp_match-local :
    (key : IpEndp) (p q : UdpPcb) → p.local ≡ q.local → endp_match key p ≡ endp_match key q
unfolding endp_match
endp_match-local key p q e = rw e refl

-- A block that keeps its endpoint collides with no more than before.
pub IsExclusive-keep :
    (d : ℕ) (p q : UdpPcb) (ps ps' : List (Option UdpPcb))
    → slot ps d ≡ some p
    → q.local ≡ p.local
    → Changes d (some q) ps ps'
    → IsExclusive ps
    → IsExclusive ps'
IsExclusive-keep d p q ps ps' found same c h =
    IsExclusive-Changes d (some q) ps ps' c
      (λ r e j x ne f.
        let t : r.local ≡ p.local =
          ap (λ (y : UdpPcb). y.local) (sym (some-injective q r e)) ∙ same in
        (
          λ b.
              subst (λ key. endp_match key x ≡ false) (sym t)
                (h d j p x ne found f (λ z. b (ap (λ (l : IpEndp). l.port) t ∙ z))),
          λ b. endp_match-local x.local r p t ∙ h j d x p (λ z. ne (sym z)) f found b,
        ))
      h

pub IsExclusive-free :
    (d : ℕ) (ps ps' : List (Option UdpPcb))
    → Changes d none ps ps'
    → IsExclusive ps
    → IsExclusive ps'
IsExclusive-free d ps ps' c h = IsExclusive-Changes d none ps ps' c (λ q e. absurd (cc)) h

-- A new block is not bound.
pub IsExclusive-new :
    (d : ℕ) (q : UdpPcb) (ps ps' : List (Option UdpPcb))
    → q.local.port ≡ 0
    → Changes d (some q) ps ps'
    → IsExclusive ps
    → IsExclusive ps'
IsExclusive-new d q ps ps' z c h =
    IsExclusive-Changes d (some q) ps ps' c
      (λ r e j x ne f.
        let t : r.local.port ≡ 0 =
          ap (λ (y : UdpPcb). y.local.port) (sym (some-injective q r e)) ∙ z in
        (λ b. absurd (b t), λ b. endp_match-unbound x r t b))
      h

-- A block gets an endpoint for which nothing is selected.
pub IsExclusive-bind :
    (d : ℕ) (q : UdpPcb) (ps ps' : List (Option UdpPcb))
    → pcb_select q.local ps ≡ none
    → Changes d (some q) ps ps'
    → IsExclusive ps
    → IsExclusive ps'
IsExclusive-bind d q ps ps' free c h =
    IsExclusive-Changes d (some q) ps ps' c
      (λ r e j x ne f.
        let t : endp_match r.local x ≡ false =
          subst (λ (y : UdpPcb). endp_match y.local x ≡ false) (some-injective q r e)
            (pcb_select-none q.local ps j x free f) in
        (λ b. t, λ b. endp_match-sym r x t))
      h
