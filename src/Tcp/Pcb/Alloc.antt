-- ===== src/Tcp/Pcb/Alloc.antt =====
-- `pcb_alloc` of src/tcp.rs.
use microps_rs.Base.{
  ℕ, ◌≡◌, refl, sym, subst, inl, inr, none, some, length, Option-cases, some≢none,
}
use mathlib.Core.Option.{some-injective}
use microps_rs.Table.{alloc}
use microps_rs.Table.Laws.{IsAlloc, alloc-IsAlloc}
use microps_rs.Tcp.{Tcp, empty}
use microps_rs.Tcp.Pcb.{pcb_alloc, pcb_size_max}

-- With no slot to give nothing changes.
pub pcb_alloc-none : (s : Tcp) → (pcb_alloc s).0 ≡ none → (pcb_alloc s).1 ≡ s
unfolding pcb_alloc
pcb_alloc-none s h = elim (Option-cases (alloc pcb_size_max (empty (length s.tasks)) s.pcbs)) [
  | inl e ↦ rw (e, pcb_alloc) refl
  | inr (r, e) ↦ absurd (some≢none (rw (e, pcb_alloc) at h))
]

-- A descriptor that `pcb_alloc` gives names a slot that was empty and now holds an empty block; no
-- other slot changes, and a table of at most 16 slots stays one.
pub pcb_alloc-IsAlloc :
    (s : Tcp) (d : ℕ)
    → (pcb_alloc s).0 ≡ some d
    → IsAlloc pcb_size_max (empty (length s.tasks)) s.pcbs d (pcb_alloc s).1.pcbs
unfolding pcb_alloc
pcb_alloc-IsAlloc s d h = elim (Option-cases (alloc pcb_size_max (empty (length s.tasks)) s.pcbs)) [
  | inl e ↦ absurd (some≢none (sym (rw (e, pcb_alloc) at h)))
  | inr (r, e) ↦
      let same : some r.0 ≡ some d = rw (e, pcb_alloc) at h in
      rw (e, pcb_alloc)
        (subst (λ x. IsAlloc pcb_size_max (empty (length s.tasks)) s.pcbs x r.1)
          (some-injective r.0 d same) (alloc-IsAlloc pcb_size_max _ s.pcbs r.0 r.1 e))
]
