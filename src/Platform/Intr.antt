-- ===== src/Platform/Intr.antt =====
-- src/platform/linux/intr.rs: the table of interrupts, and the thread that waits for signals and
-- runs the handlers. The thread is its loop over what `sigwait` returns, one call after another.
pub mod Laws
use microps_rs.Base.{
  ℕ, Bool, true, false, not, ◌&&◌, List, [], ◌∷◌, ◌++◌, Option, none, some, bit_and, ◌==◌,
  if◌then◌else◌,
}

abbrev pub flag_shared : ℕ
flag_shared = 1

abbrev pub flag_quiet : ℕ
flag_quiet = 2

-- The signals of Linux that the crate uses; a tap uses `SIGRTMIN + 1`.
abbrev pub sighup : ℕ
sighup = 1

abbrev pub sigusr1 : ℕ
sigusr1 = 10

abbrev pub sigusr2 : ℕ
sigusr2 = 12

abbrev pub sigalrm : ℕ
sigalrm = 14

abbrev pub tap_irq : ℕ
tap_irq = 35

-- The handlers that the crate registers; that of a tap is a closure over its device.
pub data Isr : Type 0 where
  softirq_isr timer_isr task_isr : Isr
  tap_isr : ℕ → Isr

pub record IrqEntry : Type 0 where
  pub irq : ℕ
  pub isr : Isr
  pub flags : ℕ

-- `IRQS`, the signals that are blocked, and `THREAD` with the mask that it waits on.
pub record Intr : Type 0 where
  pub irqs : List IrqEntry
  pub blocked : List ℕ
  pub thread : Option (List ℕ)

unfoldable pub is_shared : ℕ → Bool
is_shared flags = not (bit_and flags flag_shared == 0)

-- The loop of `register` over the entries that are there.
unfoldable pub conflicts : ℕ → ℕ → List IrqEntry → Bool
unfolding is_shared
conflicts irq flags [] = false
conflicts irq flags (e ∷ es) =
    let rest = conflicts irq flags es in
    if e.irq == irq then if is_shared e.flags && is_shared flags then rest else true else rest

unfoldable pub register : IrqEntry → List IrqEntry → Bool × List IrqEntry
unfolding conflicts
register e irqs = if conflicts e.irq e.flags irqs then (false, irqs) else (true, irqs ++ e ∷ [])

unfoldable pub sigmask : List IrqEntry → List ℕ
sigmask [] = []
sigmask (e ∷ es) = e.irq ∷ sigmask es

-- `run`: `blocks` says whether `pthread_sigmask` succeeds.
unfoldable pub run : Bool → Intr → Bool × Intr
unfolding sigmask
run blocks s =
    let mask = sighup ∷ sigmask s.irqs in
    if blocks
    then (true, record s { blocked = mask ++ s.blocked; thread = some mask })
    else (false, s)

-- `shutdown`: the signals that it sends to the process, before it joins the thread.
unfoldable pub shutdown : Intr → List ℕ × Intr
shutdown s = elim s.thread [
  | none ↦ ([], s)
  | some mask ↦ (sighup ∷ [], record s { thread = none })
]

-- The entries that are collected for a signal.
unfoldable pub matching : ℕ → List IrqEntry → List IrqEntry
matching sig [] = []
matching sig (e ∷ es) = let rest = matching sig es in if e.irq == sig then e ∷ rest else rest

-- What a call of `sigwait` returns.
pub data SigWait : Type 0 where
  failed : SigWait
  got : ℕ → SigWait

-- The handlers act on a state of which the thread knows nothing.
module _ {S : Type 0} (call : Isr → ℕ → S → S) where
  unfoldable pub call_matching : List IrqEntry → S → S
  unfolding is_shared
  call_matching [] s = s
  call_matching (e ∷ es) s =
      let after = call e.isr e.irq s in
      let rest = call_matching es after in if is_shared e.flags then rest else after

  unfoldable pub dispatch : List IrqEntry → ℕ → S → S
  unfolding call_matching matching
  dispatch irqs sig s = call_matching (matching sig irqs) s

  -- The loop of `intr_main`; it ends with an error of `sigwait`, or with SIGHUP.
  unfoldable pub intr_main : List IrqEntry → List SigWait → S → S
  unfolding dispatch
  intr_main irqs [] s = s
  intr_main irqs (failed ∷ ws) s = s
  intr_main irqs (got sig ∷ ws) s =
      let rest = intr_main irqs ws (dispatch irqs sig s) in if sig == sighup then s else rest
