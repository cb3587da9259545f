-- ===== src/Platform/Intr/Laws.antt =====
-- The table of interrupts of src/platform/linux/intr.rs, over every sequence of registrations.
use microps_rs.Base.{
  ℕ, ◌≡◌, refl, inl, inr, true, false, List, [], ◌∷◌, ◌++◌, arith, ◌==◌, All, Bool-cases,
  if◌then◌else◌, ==_iff, subst, sym,
}
use microps_rs.Platform.Intr.{
  Isr, IrqEntry, is_shared, conflicts, register, matching, call_matching, dispatch, SigWait, failed,
  got, intr_main, sighup,
}

-- Two entries of one interrupt are both shared.
abbrev pub Compatible : IrqEntry → IrqEntry → Type 0
Compatible a b = a.irq ≡ b.irq → (is_shared a.flags ≡ true) × (is_shared b.flags ≡ true)

abbrev pub IsIrqTable : List IrqEntry → Type 0
IsIrqTable [] = Unit
IsIrqTable (e ∷ es) = All (Compatible e) es × IsIrqTable es

-- The tables that registrations lead to, refused ones included.
pub data Registered : List IrqEntry → Type 0 where
  start : Registered []
  registered : {es : List IrqEntry} (e : IrqEntry) → Registered es → Registered (register e es).1

conflicts-Compatible :
    (e : IrqEntry) (es : List IrqEntry)
    → conflicts e.irq e.flags es ≡ false
    → All (λ a. Compatible a e) es
unfolding conflicts
conflicts-Compatible e [] h = tt
conflicts-Compatible e (x ∷ xs) h = let rest = conflicts-Compatible e xs in ground arith

All-last :
    (P : IrqEntry → Type 0) (es : List IrqEntry) (e : IrqEntry)
    → All P es
    → P e
    → All P (es ++ e ∷ [])
All-last P [] e h p = (p, tt)
All-last P (x ∷ xs) e (h, hs) p = (h, All-last P xs e hs p)

IsIrqTable-last :
    (es : List IrqEntry) (e : IrqEntry)
    → IsIrqTable es
    → All (λ a. Compatible a e) es
    → IsIrqTable (es ++ e ∷ [])
IsIrqTable-last [] e t h = (tt, tt)
IsIrqTable-last (x ∷ xs) e (a, t) (h, hs) =
    (All-last (Compatible x) xs e a h, IsIrqTable-last xs e t hs)

register-IsIrqTable :
    (e : IrqEntry) (es : List IrqEntry) → IsIrqTable es → IsIrqTable (register e es).1
unfolding register
register-IsIrqTable e es t = elim (Bool-cases (conflicts e.irq e.flags es)) [
  | inl c ↦ rw (c, register) t
  | inr c ↦ rw (c, register) (IsIrqTable-last es e t (conflicts-Compatible e es c))
]

-- Any two entries of one interrupt are both shared, in every table that registrations lead to.
pub Registered-IsIrqTable : {es : List IrqEntry} → Registered es → IsIrqTable es
Registered-IsIrqTable start = tt
Registered-IsIrqTable (registered {es} e r) = register-IsIrqTable e es (Registered-IsIrqTable r)

-- The signals up to an error of `sigwait` or SIGHUP.
abbrev pub served : List SigWait → List ℕ
served [] = []
served (failed ∷ ws) = []
served (got sig ∷ ws) = let rest = served ws in if sig == sighup then [] else sig ∷ rest

module _ {S : Type 0} (call : Isr → ℕ → S → S) where
  -- Every handler of a signal runs once, in the order of registration.
  abbrev pub call_each : ℕ → List IrqEntry → S → S
  call_each sig [] s = s
  call_each sig (e ∷ es) s = call_each sig es (if e.irq == sig then call e.isr e.irq s else s)

  abbrev pub serve : List IrqEntry → List ℕ → S → S
  serve es [] s = s
  serve es (sig ∷ sigs) s = serve es sigs (call_each sig es s)

  -- Behind an entry that is not shared there is no other of its interrupt.
  call_each-unshared :
      (e : IrqEntry) (es : List IrqEntry) (s : S)
      → is_shared e.flags ≡ false
      → All (Compatible e) es
      → call_each e.irq es s ≡ s
  call_each-unshared e [] s h c = refl
  call_each-unshared e (x ∷ xs) s h (c, cs) =
      let rest = call_each-unshared e xs s h cs in ground arith

  call_matching-each :
      (sig : ℕ) (es : List IrqEntry) (s : S)
      → IsIrqTable es
      → call_matching call (matching sig es) s ≡ call_each sig es s
  unfolding call_matching matching
  call_matching-each sig [] s t = refl
  call_matching-each sig (e ∷ es) s (c, t) = elim (Bool-cases (e.irq == sig)) [
    | inr miss ↦ rw (miss, matching) (call_matching-each sig es s t)
    | inl hit ↦ elim (Bool-cases (is_shared e.flags)) [
      | inl sh ↦ rw (hit, matching, sh) (call_matching-each sig es (call e.isr e.irq s) t)
      | inr un ↦
          rw (hit, matching, un)
            (subst (λ n. call e.isr e.irq s ≡ call_each n es (call e.isr e.irq s))
              ((==_iff e.irq sig).0 hit) (sym (call_each-unshared e es (call e.isr e.irq s) un c)))
    ]
  ]

  intr_main-serve :
      (es : List IrqEntry) (ws : List SigWait) (s : S)
      → IsIrqTable es
      → intr_main call es ws s ≡ serve es (served ws) s
  unfolding intr_main dispatch
  intr_main-serve es [] s t = refl
  intr_main-serve es (failed ∷ ws) s t = refl
  intr_main-serve es (got sig ∷ ws) s t = elim (Bool-cases (sig == sighup)) [
    | inl stop ↦ rw stop refl
    | inr go ↦
        rw (go, intr_main, dispatch, call_matching-each sig es s t)
          (intr_main-serve es ws (call_each sig es s) t)
  ]

  -- With a table that registrations lead to, the thread runs for each signal before the first
  -- error of sigwait or SIGHUP every handler of it once, in the order of registration.
  pub intr_main-Registered :
      {es : List IrqEntry} (ws : List SigWait) (s : S)
      → Registered es
      → intr_main call es ws s ≡ serve es (served ws) s
  intr_main-Registered {es} ws s r = intr_main-serve es ws s (Registered-IsIrqTable r)
