-- ===== src/Platform/Timer.antt =====
-- src/platform/linux/timer.rs: the table of timers, and the handler of the periodic signal. Times
-- and intervals are in nanoseconds, as `Duration` counts them.
pub mod Rate
use microps_rs.Base.{
  ℕ, ◌-◌, Bool, true, false, List, [], ◌∷◌, ◌++◌, Option, none, some, leb, if◌then◌else◌,
}
use microps_rs.Platform.Intr.{IrqEntry, register as register_irq, timer_isr, sigalrm, flag_quiet}

-- What is registered: `on_timer` of src/arp.rs and of src/tcp.rs.
pub data TimerFn : Type 0 where
  arp_timer tcp_timer : TimerFn
  other_timer : ℕ → TimerFn

pub record TimerEntry : Type 0 where
  pub interval : ℕ
  pub last : ℕ
  pub handler : TimerFn

-- `TIMERS`, and `TIMER_ID`; `armed` is what the kernel knows of the timer.
pub record Timers : Type 0 where
  pub entries : List TimerEntry
  pub id : Option ℕ
  pub armed : Bool

unfoldable pub register : ℕ → TimerFn → ℕ → Timers → Timers
register interval f now t = record t {
  entries = t.entries ++ record { interval = interval; last = now; handler = f } ∷ [];
}

-- The subtraction saturates at zero, as that of the natural numbers does.
unfoldable pub is_due : ℕ → TimerEntry → Bool
is_due now e = leb e.interval (now - e.last)

-- The loop of `isr`: the handlers to call, and the entries with their new times.
unfoldable pub expire : ℕ → List TimerEntry → List TimerFn × List TimerEntry
unfolding is_due
expire now [] = ([], [])
expire now (e ∷ es) =
    let (fns, rest) = expire now es in
    if is_due now e then (e.handler ∷ fns, (record e { last = now }) ∷ rest) else (fns, e ∷ rest)

-- `isr`; the handlers run when the table is free again.
unfoldable pub isr : {S : Type 0} → (TimerFn → S → S) → ℕ → Timers → S → Timers × S
unfolding expire
isr {S = S} run now t s =
    let (fns, entries) = expire now t.entries in (record t { entries = entries }, run_all fns s)
  where
    run_all : List TimerFn → S → S
    run_all [] s' = s'
    run_all (f ∷ fs) s' = run_all fs (run f s')

-- `init`: `created` is the outcome of `timer_create`.
unfoldable pub init : Option ℕ → List IrqEntry → Timers → Bool × List IrqEntry × Timers
init created irqs t =
    let (done, irqs') =
      register_irq (record { irq = sigalrm; isr = timer_isr; flags = flag_quiet }) irqs in
    if done
    then elim created [
      | none ↦ (false, irqs', t)
      | some id ↦ (true, irqs', record t { id = some id })
    ]
    else (false, irqs', t)

-- `run`: `sets` says whether `timer_settime` succeeds.
unfoldable pub run : Bool → Timers → Bool × Timers
run sets t = elim t.id [
  | none ↦ (false, t)
  | some id ↦ if sets then (true, record t { armed = true }) else (false, t)
]

-- `shutdown`, with `timer_delete`.
unfoldable pub shutdown : Timers → Timers
shutdown t = elim t.id [ none ↦ t | some id ↦ record t { id = none; armed = false } ]
