-- ===== src/Tcp/Pcb/Release.antt =====
-- The recursion of `pcb_release` of src/tcp.rs over the backlogs.
use microps_rs.Base.{
  ℕ, zero, suc, ◌+◌, ◌≤◌, ◌<◌, ◌≡◌, refl, Bool, true, false, inl, inr, ◌∙◌, ap, List, [], ◌∷◌,
  Option, none, some, arith, length, set, length-set, Option-cases, if◌then◌else◌,
}
use microps_rs.Table.{slot}
use microps_rs.Table.Laws.{slot-set-none}
use microps_rs.Tcp.{Tcp, TcpPcb, closed}
use microps_rs.Tcp.Flags.{rst}
use microps_rs.Tcp.Pcb.Queue.{emit-pcbs, emit-backlog}
use microps_rs.Tcp.Pcb.{
  backlog_total, reset, free_slot, take_backlog, each_backlog, release_fuel, pcb_release, store,
  emit, transition, is_closed,
}

-- A write that keeps a block's backlog keeps the total; one that empties it takes it away.
backlog_total-set :
    (xs : List (Option TcpPcb)) (i : ℕ) (p q : TcpPcb)
    → slot xs i ≡ some p
    → backlog_total (set xs i (some q)) + length p.backlog ≡ backlog_total xs + length q.backlog
unfolding backlog_total
backlog_total-set [] i p q h = absurd (cc)
backlog_total-set (none ∷ xs) zero p q h = absurd (cc)
backlog_total-set (some r ∷ xs) zero p q h = ground arith
backlog_total-set (none ∷ xs) (suc i) p q h = backlog_total-set xs i p q h
backlog_total-set (some r ∷ xs) (suc i) p q h = omega (arith, backlog_total-set xs i p q h)

backlog_total-set-none :
    (xs : List (Option TcpPcb)) (i : ℕ) → backlog_total (set xs i none) ≤ backlog_total xs
unfolding backlog_total
backlog_total-set-none [] i = omega arith
backlog_total-set-none (none ∷ xs) zero = omega arith
backlog_total-set-none (some r ∷ xs) zero = omega arith
backlog_total-set-none (none ∷ xs) (suc i) = backlog_total-set-none xs i
backlog_total-set-none (some r ∷ xs) (suc i) = omega (arith, backlog_total-set-none xs i)

-- What an operation must keep for the fuel to last: the total does not grow, nor the table change
-- its length.
record Shrinks (s t : Tcp) : Type 0 where
  total : backlog_total t.pcbs ≤ backlog_total s.pcbs
  slots : length t.pcbs ≡ length s.pcbs

Shrinks-refl : (s : Tcp) → Shrinks s s
Shrinks-refl s = record { total = omega arith; slots = refl }

Shrinks-trans : {s t u : Tcp} → Shrinks s t → Shrinks t u → Shrinks s u
Shrinks-trans h k = record { total = omega arith; slots = k.slots ∙ h.slots }

store-Shrinks :
    (desc : ℕ) (p q : TcpPcb) (s t : Tcp)
    → slot s.pcbs desc ≡ some p
    → length q.backlog ≤ length p.backlog
    → t.pcbs ≡ s.pcbs
    → Shrinks s (store desc q t)
store-Shrinks desc p q s t e le same =
    rw (same, store)
      (record {
        total = omega (arith, backlog_total-set s.pcbs desc p q e);
        slots = length-set s.pcbs desc (some q);
      })

reset-Shrinks : (desc : ℕ) (s : Tcp) → Shrinks s (reset desc s)
reset-Shrinks desc s = elim (Option-cases (slot s.pcbs desc)) [
  | inl e ↦ unfold reset in rw (e, reset) (Shrinks-refl s)
  | inr (p, e) ↦ unfold reset in rw (e, reset) (open_block p e (is_closed p.state))
]
  where
    open_block :
        (p : TcpPcb)
        → slot s.pcbs desc ≡ some p
        → (b : Bool)
        → Shrinks s
            (if b then s else store desc (transition closed (emit rst p s).0) (emit rst p s).1)
    open_block p e true = Shrinks-refl s
    open_block p e false =
        store-Shrinks desc p _ s (emit rst p s).1 e
          (omega (arith, ap length (emit-backlog rst p s))) (emit-pcbs rst p s)

free_slot-Shrinks : (desc : ℕ) (s : Tcp) → Shrinks s (free_slot desc s).1
unfolding free_slot
free_slot-Shrinks desc s = elim (Option-cases (slot s.pcbs desc)) [
  | inl e ↦ rw (e, free_slot) (Shrinks-refl s)
  | inr (p, e) ↦
      rw (e, free_slot)
        (record { total = backlog_total-set-none s.pcbs desc; slots = length-set s.pcbs desc none })
]

-- The loop over a backlog, for any release that shrinks.
module _ (release : ℕ → Tcp → Bool × Tcp)
    (shrinks : (d : ℕ) (s : Tcp) → Shrinks s (release d s).1) where
  next_state : ℕ → Tcp → Tcp
  next_state d s = elim (slot s.pcbs d) [ none ↦ s | some p ↦ (release d (reset d s)).1 ]

  next_state-Shrinks : (d : ℕ) (s : Tcp) → Shrinks s (next_state d s)
  unfolding next_state
  next_state-Shrinks d s = elim (Option-cases (slot s.pcbs d)) [
    | inl e ↦ rw (e, next_state) (Shrinks-refl s)
    | inr (p, e) ↦ rw (e, next_state) (Shrinks-trans (reset-Shrinks d s) (shrinks d (reset d s)))
  ]

  each_backlog-Shrinks : (ds : List ℕ) (s : Tcp) → Shrinks s (each_backlog release ds s)
  unfolding each_backlog next_state
  each_backlog-Shrinks [] s = Shrinks-refl s
  each_backlog-Shrinks (d ∷ ds) s =
      Shrinks-trans (next_state-Shrinks d s) (each_backlog-Shrinks ds (next_state d s))

release_fuel-Shrinks : (fuel desc : ℕ) (s : Tcp) → Shrinks s (release_fuel fuel desc s).1
unfolding release_fuel take_backlog
release_fuel-Shrinks zero desc s = Shrinks-refl s
release_fuel-Shrinks (suc fuel) desc s = elim (Option-cases (slot s.pcbs desc)) [
  | inl e ↦ rw (e, release_fuel) (Shrinks-refl s)
  | inr (p, e) ↦
      rw (e, release_fuel)
        (Shrinks-trans
          (Shrinks-trans (store-Shrinks desc p (record p { backlog = [] }) s s e (omega arith) refl)
            (each_backlog-Shrinks (release_fuel fuel) (release_fuel-Shrinks fuel) p.backlog _))
          (free_slot-Shrinks desc _))
]

-- Releases that agree on all states with at most `k` backlog entries do the same to a backlog.
module _ (f g : ℕ → Tcp → Bool × Tcp) (k : ℕ)
    (agree : (d : ℕ) (s : Tcp) → backlog_total s.pcbs ≤ k → f d s ≡ g d s)
    (shrinks : (d : ℕ) (s : Tcp) → Shrinks s (f d s).1) where
  each_backlog-eq :
      (ds : List ℕ) (s : Tcp) → backlog_total s.pcbs ≤ k → each_backlog f ds s ≡ each_backlog g ds s
  unfolding each_backlog
  each_backlog-eq [] s le = refl
  each_backlog-eq (d ∷ ds) s le = elim (Option-cases (slot s.pcbs d)) [
    | inl e ↦ rw (e, each_backlog) (each_backlog-eq ds s le)
    | inr (p, e) ↦
        let less = reset-Shrinks d s in
        let same = agree d (reset d s) (omega (arith, less.total)) in
        let after = shrinks d (reset d s) in
        rw (e, each_backlog)
          (each_backlog-eq ds (f d (reset d s)).1 (omega (arith, less.total, after.total))
            ∙ ap (λ (r : Bool × Tcp). each_backlog g ds r.1) same)
  ]

take_backlog-total :
    (desc : ℕ) (p : TcpPcb) (s : Tcp)
    → slot s.pcbs desc ≡ some p
    → backlog_total (take_backlog desc p s).pcbs + length p.backlog ≡ backlog_total s.pcbs
unfolding take_backlog
take_backlog-total desc p s e =
    omega (arith, backlog_total-set s.pcbs desc p (record p { backlog = [] }) e)

-- A backlog that is not empty leaves less for the calls below.
taken_backlog-eq :
    (m n desc : ℕ) (p : TcpPcb) (s : Tcp) (ds : List ℕ)
    → slot s.pcbs desc ≡ some p
    → p.backlog ≡ ds
    → backlog_total s.pcbs < suc m
    → backlog_total s.pcbs < suc n
    → ((d : ℕ) (t : Tcp)
        → backlog_total t.pcbs < m
        → backlog_total t.pcbs < n
        → release_fuel m d t ≡ release_fuel n d t)
    → each_backlog (release_fuel m) ds (take_backlog desc p s)
      ≡ each_backlog (release_fuel n) ds (take_backlog desc p s)
unfolding each_backlog
taken_backlog-eq m n desc p s [] e q hm hn agree = refl
taken_backlog-eq m n desc p s (d ∷ ds) e q hm hn agree =
    let left = omega_left in
    each_backlog-eq (release_fuel m) (release_fuel n) (backlog_total (take_backlog desc p s).pcbs)
      (λ c t le. agree c t (omega (arith, left)) (omega (arith, left))) (release_fuel-Shrinks m)
      (d ∷ ds) (take_backlog desc p s) (omega arith)
  where
    omega_left : suc (backlog_total (take_backlog desc p s).pcbs) ≤ backlog_total s.pcbs
    omega_left = omega (arith, take_backlog-total desc p s e, ap length q)

-- Past the total of the backlogs more fuel changes nothing: the recursion ends by itself.
pub release_fuel_enough :
    (m n desc : ℕ) (s : Tcp)
    → backlog_total s.pcbs < m
    → backlog_total s.pcbs < n
    → release_fuel m desc s ≡ release_fuel n desc s
unfolding release_fuel
release_fuel_enough zero n desc s hm hn = absurd (omega arith)
release_fuel_enough (suc m) zero desc s hm hn = absurd (omega arith)
release_fuel_enough (suc m) (suc n) desc s hm hn = elim (Option-cases (slot s.pcbs desc)) [
  | inl e ↦ rw (e, release_fuel) refl
  | inr (p, e) ↦
      rw (e, release_fuel)
        (ap (free_slot desc) (
          taken_backlog-eq m n desc p s p.backlog e refl hm hn
            (λ d t h k. release_fuel_enough m n d t h k)))
]

-- After a release the slot is free, and the table has its length.
free_slot_frees : (desc : ℕ) (s : Tcp) → slot (free_slot desc s).1.pcbs desc ≡ none
unfolding free_slot
free_slot_frees desc s = elim (Option-cases (slot s.pcbs desc)) [
  | inl e ↦ rw (e, free_slot) e
  | inr (p, e) ↦ rw (e, free_slot) (slot-set-none s.pcbs desc)
]

-- `pcb_release` frees the slot, whatever stood in it and in the backlogs, and keeps the size of
-- the table.
pub pcb_release_frees :
    (desc : ℕ) (s : Tcp)
    → (slot (pcb_release desc s).1.pcbs desc ≡ none)
      × (length (pcb_release desc s).1.pcbs ≡ length s.pcbs)
unfolding pcb_release release_fuel
pcb_release_frees desc s = (
  elim (Option-cases (slot s.pcbs desc)) [
    | inl e ↦ rw (e, pcb_release, release_fuel) e
    | inr (p, e) ↦ rw (e, pcb_release, release_fuel) (free_slot_frees desc _)
  ],
  (release_fuel-Shrinks (suc (backlog_total s.pcbs)) desc s).slots,
)

-- The recursion of `pcb_release` over the backlogs ends: any fuel above the number of entries in
-- all backlogs gives the same result.
pub release_fuel-pcb_release :
    (n desc : ℕ) (s : Tcp) → backlog_total s.pcbs < n → release_fuel n desc s ≡ pcb_release desc s
unfolding pcb_release
release_fuel-pcb_release n desc s h =
    release_fuel_enough n (suc (backlog_total s.pcbs)) desc s h (omega arith)
