-- ===== src/Udp/Laws.antt =====
-- The bound ports of src/udp.rs, over every sequence of its operations.
use microps_rs.Base.{
  ℕ, ◌≤◌, ◌≡◌, refl, sym, subst, Bool, true, inl, inr, Option, none, some, arith, length, set,
  length-set, is_none, Option-cases, if_cases,
}
use microps_rs.Addr.{IpEndp}
use microps_rs.Table.{slot, alloc}
use microps_rs.Table.Laws.{alloc-IsAlloc}
use microps_rs.Udp.Pcb.{Udp, UdpPcb, pcb_select, pcb_alloc, pcb_release, pcb_size_max, empty}
use microps_rs.Udp.{bind}
use microps_rs.Udp.Exclusive.{
  IsExclusive, Changes, set-Changes, free-Changes, IsExclusive-keep, IsExclusive-free,
  IsExclusive-new, IsExclusive-bind,
}

pub is_none-none {ℓ} : {A : Type ℓ} (o : Option A) → is_none o ≡ true → o ≡ none
is_none-none none h = refl
is_none-none (some a) h = absurd (cc)

-- No collisions, and at most 16 blocks.
pub record IsTable (s : Udp) : Type 0 where
  pub exclusive : IsExclusive s.pcbs
  pub bounded : length s.pcbs ≤ pcb_size_max

pub set-IsTable :
    (d : ℕ) (o : Option UdpPcb) (s t : Udp)
    → t.pcbs ≡ set s.pcbs d o
    → (Changes d o s.pcbs (set s.pcbs d o) → IsExclusive (set s.pcbs d o))
    → Changes d o s.pcbs (set s.pcbs d o)
    → IsTable s
    → IsTable t
set-IsTable d o s t e f c h = record {
  exclusive = subst IsExclusive (sym e) (f c);
  bounded = rw e (omega (arith, length-set s.pcbs d o, h.bounded));
}

pub pcb_alloc-IsTable : (s : Udp) → IsTable s → IsTable (pcb_alloc s).1
unfolding pcb_alloc
pcb_alloc-IsTable s h = elim (Option-cases (alloc pcb_size_max (empty (length s.tasks)) s.pcbs)) [
  | inl e ↦ rw (e, pcb_alloc) h
  | inr (r, e) ↦
      let a = alloc-IsAlloc pcb_size_max (empty (length s.tasks)) s.pcbs r.0 r.1 e in
      rw (e, pcb_alloc)
        record {
          exclusive =
              IsExclusive-new r.0 (empty (length s.tasks)) s.pcbs r.1 refl
                record { here = a.holds; others = a.others } h.exclusive;
          bounded = (a.fits h.bounded).0;
        }
]

pub pcb_release-IsTable : (d : ℕ) (s : Udp) → IsTable s → IsTable (pcb_release d s).1
unfolding pcb_release
pcb_release-IsTable d s h = elim (Option-cases (slot s.pcbs d)) [
  | inl e ↦ rw (e, pcb_release) h
  | inr (p, e) ↦
      rw (e, pcb_release)
        (set-IsTable d none s _ refl (λ c. IsExclusive-free d s.pcbs _ c h.exclusive)
          (free-Changes d s.pcbs) h)
]

pub bind-IsTable : (d : ℕ) (local : IpEndp) (s : Udp) → IsTable s → IsTable (bind d local s).1
unfolding bind
bind-IsTable d local s h = elim (Option-cases (slot s.pcbs d)) [
  | inl e ↦ rw (e, bind) h
  | inr (p, e) ↦
      rw (e, bind)
        (if_cases (λ (r : Bool × Udp). IsTable r.1) (is_none (pcb_select local s.pcbs))
          (λ free.
            set-IsTable d (some (record p { local = local })) s _ refl
              (λ c.
                IsExclusive-bind d (record p { local = local }) s.pcbs _
                  (is_none-none (pcb_select local s.pcbs) free) c h.exclusive)
              (set-Changes d p (record p { local = local }) s.pcbs e) h)
          (λ _. h))
]

-- A block that keeps its endpoint is written back.
pub keep-IsTable :
    (d : ℕ) (p q : UdpPcb) (s t : Udp)
    → slot s.pcbs d ≡ some p
    → q.local ≡ p.local
    → t.pcbs ≡ set s.pcbs d (some q)
    → IsTable s
    → IsTable t
keep-IsTable d p q s t e same f h =
    set-IsTable d (some q) s t f (λ c. IsExclusive-keep d p q s.pcbs _ e same c h.exclusive)
      (set-Changes d p q s.pcbs e) h
