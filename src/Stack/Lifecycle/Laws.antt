-- ===== src/Stack/Lifecycle/Laws.antt =====
-- What starting and stopping the stack leaves of its devices, timers and interrupts.
use microps_rs.Base.{
  ℕ, ◌%◌, ◌≡◌, ◌≢◌, refl, sym, ◌∙◌, ◌++◌, Option, Bool, true, false, inl, inr, List, [], ◌∷◌, none,
  some, arith, All, Bool-cases, Option-cases, some≢none, ◌⊎◌, if_cases, bit_and, bit_or,
  bit_and-one, bit_and-mask, bit_or-one,
}
use mathlib.Core.List.{append-nil}
use microps_rs.Link.{Device, Ops, loopback, ether_tap}
use microps_rs.Link.Devices.{TapOpen, is_up, open_device, close_device, ops_open, ops_close}
use microps_rs.Platform.Intr.{
  Intr, IrqEntry, sighup, sigmask, run as run_intr, shutdown as stop_intr,
}
use microps_rs.Platform.Timer.{Timers, run as run_timer, shutdown as stop_timer}
use microps_rs.Stack.Lifecycle.{
  Machine, Env, and_then, open_all, close_all, net_run, net_shutdown, platform_shutdown,
  platform_run, intr_run, timer_run,
}

abbrev pub IsDown : Device → Type 0
IsDown d = is_up d ≡ false

abbrev pub IsUp : Device → Type 0
IsUp d = is_up d ≡ true

even_flags-IsDown : (d : Device) → d.flags % 2 ≡ 0 → IsDown d
unfolding is_up
even_flags-IsDown d h = let low = bit_and-one d.flags in ground arith

odd_flags-IsUp : (d : Device) → d.flags % 2 ≡ 1 → IsUp d
unfolding is_up
odd_flags-IsUp d h = let low = bit_and-one d.flags in ground arith

-- Closing never fails where the device is up.
ops_close-done : (o : Ops) (d : Device) → (ops_close o d).0 ≡ true
unfolding ops_close
ops_close-done loopback d = refl
ops_close-done (ether_tap up) d = refl

close_device-IsDown : (d : Device) → IsDown (close_device d).1
unfolding close_device
close_device-IsDown d = elim (Bool-cases (is_up d)) [
  | inr down ↦ rw (down, close_device) down
  | inl up ↦
      let d' = (ops_close d.ops d).1 in
      rw (up, close_device, ops_close-done d.ops d)
        (even_flags-IsDown (record d' { flags = bit_and d'.flags 65534 }) (bit_and-mask d'.flags))
]

abbrev Opened : {A : Type 0} → (A → Type 0) → Bool × A → Type 0
Opened P (done, a) = done ≡ true → P a

open_device-IsUp :
    (k : TapOpen) (d : Device) → (open_device k d).0 ≡ true → IsUp (open_device k d).1
unfolding open_device
open_device-IsUp k d =
    let d' = (ops_open d.ops k d).1 in
    if_cases (Opened IsUp) (is_up d) (λ _ h. absurd (cc))
      λ _.
        if_cases (Opened IsUp) (ops_open d.ops k d).0
          (λ _ h. odd_flags-IsUp (record d' { flags = bit_or d'.flags 1 }) (bit_or-one d'.flags))
          λ _ h. absurd (cc)

close_all-IsDown : (ds : List Device) → All IsDown (close_all ds)
unfolding close_all
close_all-IsDown [] = tt
close_all-IsDown (d ∷ ds) = (close_device-IsDown d, close_all-IsDown ds)

open_all-IsUp :
    (k : ℕ → TapOpen) (i : ℕ) (ds : List Device)
    → (open_all k i ds).0 ≡ true
    → All IsUp (open_all k i ds).1
unfolding open_all
open_all-IsUp k i [] = λ h. tt
open_all-IsUp k i (d ∷ ds) =
    if_cases (Opened (All IsUp)) (open_device (k i) d).0
      (λ done h. (open_device-IsUp (k i) d done, open_all-IsUp k (ℕ.suc i) ds h)) λ _ h. absurd (cc)

-- One of the signals.
abbrev pub Has : ℕ → List ℕ → Type 0
Has sig [] = ⊥
Has sig (x ∷ xs) = (sig ≡ x) ⊎ Has sig xs

-- The dispatcher waits for SIGHUP, which is signal 1, and for every registered interrupt; these
-- signals are blocked.
abbrev pub IsWaiting : Intr → Type 0
IsWaiting s =
    (mask : List ℕ) × (s.thread ≡ some mask)
    × Has 1 mask
    × All (λ e. Has e.irq mask) s.irqs
    × ((sig : ℕ) → Has sig mask → Has sig s.blocked)

abbrev pub IsTicking : Timers → Type 0
IsTicking t = (t.armed ≡ true) × (t.id ≢ none)

-- Every device is up, the timer runs, and the dispatcher waits.
abbrev pub IsRunning : Machine → Type 0
IsRunning m = All IsUp m.host.net.devices × IsTicking m.timers × IsWaiting m.intr

-- Only a timer that was created runs.
abbrev pub IsConsistent : Timers → Type 0
IsConsistent t = (t.armed ≡ false) ⊎ (t.id ≢ none)

-- The dispatcher is gone, and was told by SIGHUP to go if there was one.
abbrev pub IsEnded : Option (List ℕ) → List ℕ → Machine → Type 0
IsEnded none raised m' = (m'.intr.thread ≡ none) × (m'.raised ≡ raised)
IsEnded (some mask) raised m' = (m'.intr.thread ≡ none) × (m'.raised ≡ raised ++ 1 ∷ [])

-- Every device is down, the timer is deleted and does not run, and the dispatcher has ended.
abbrev pub IsStopped : Machine → Machine → Type 0
IsStopped m m' =
    All IsDown m'.host.net.devices
    × ((m'.timers.id ≡ none) × (m'.timers.armed ≡ false))
    × IsEnded m.intr.thread m.raised m'

abbrev Waits : Machine → Type 0
Waits m = IsWaiting m.intr

abbrev IsArmed : Machine → Type 0
IsArmed m = IsTicking m.timers × IsWaiting m.intr

-- What the first step establishes the second one can use.
Opened-and_then :
    {S : Type 0} (P Q : S → Type 0) (r : Bool × S) (f : S → Bool × S)
    → Opened P r
    → ((s : S) → P s → Opened Q (f s))
    → Opened Q (and_then r f)
unfolding and_then
Opened-and_then P Q (true, s) f p q = q s (p refl)
Opened-and_then P Q (false, s) f p q = λ h. absurd (cc)

-- The mask has the signal of every entry.
Has-weaker :
    (sig x : ℕ) (es : List IrqEntry) (xs : List ℕ)
    → All (λ e. Has e.irq xs) es
    → All (λ e. Has e.irq (x ∷ xs)) es
Has-weaker sig x [] xs h = tt
Has-weaker sig x (e ∷ es) xs (h, hs) = (inr h, Has-weaker sig x es xs hs)

sigmask-Has : (es : List IrqEntry) → All (λ e. Has e.irq (sigmask es)) es
unfolding sigmask
sigmask-Has [] = tt
sigmask-Has (e ∷ es) = (inl refl, Has-weaker e.irq e.irq es (sigmask es) (sigmask-Has es))

Has-append : (sig : ℕ) (xs ys : List ℕ) → Has sig xs → Has sig (xs ++ ys)
Has-append sig [] ys h = absurd h
Has-append sig (x ∷ xs) ys (inl e) = inl e
Has-append sig (x ∷ xs) ys (inr h) = inr (Has-append sig xs ys h)

intr_run-Waits : (env : Env) (m : Machine) → Opened Waits (intr_run env m)
unfolding intr_run run_intr
intr_run-Waits env m =
    let mask = sighup ∷ sigmask m.intr.irqs in
    elim (Bool-cases env.mask_set) [
      | inl b ↦ rw b (λ h. (
        mask,
        refl,
        inl refl,
        Has-weaker 1 sighup m.intr.irqs (sigmask m.intr.irqs) (sigmask-Has m.intr.irqs),
        (λ sig k. Has-append sig mask m.intr.blocked k),
      ))
      | inr b ↦ rw b (λ h. absurd (cc))
    ]

timer_run-IsArmed : (env : Env) (m : Machine) → Waits m → Opened IsArmed (timer_run env m)
unfolding timer_run run_timer
timer_run-IsArmed env m t = elim (Option-cases m.timers.id) [
  | inl e ↦ rw (e, run_timer) (λ h. absurd (cc))
  | inr (id, e) ↦ elim (Bool-cases env.timer_set) [
    | inl b ↦ rw (e, run_timer, b) (λ h. ((refl, (λ k. some≢none (sym e ∙ k))), t))
    | inr b ↦ rw (e, run_timer, b) (λ h. absurd (cc))
  ]
]

net_run-IsRunning : (env : Env) (m : Machine) → Opened IsRunning (net_run env m)
unfolding net_run platform_run
net_run-IsRunning env m =
    Opened-and_then IsArmed IsRunning (platform_run env m) _
      (Opened-and_then Waits IsArmed (intr_run env m) (timer_run env) (intr_run-Waits env m)
        (timer_run-IsArmed env))
      λ m' armed h. (open_all-IsUp env.tap_open 0 m'.host.net.devices h, armed.0, armed.1)

stop_timer-stopped :
    (t : Timers) → IsConsistent t → ((stop_timer t).id ≡ none) × ((stop_timer t).armed ≡ false)
unfolding stop_timer
stop_timer-stopped t h = elim (Option-cases t.id) [
  | inl e ↦ rw (stop_timer, e) (e, idle h e)
  | inr (id, e) ↦ rw (stop_timer, e) (refl, refl)
]
  where
    idle : IsConsistent t → t.id ≡ none → t.armed ≡ false
    idle (inl off) e = off
    idle (inr there) e = absurd (there e)

net_shutdown-IsStopped : (m : Machine) → IsConsistent m.timers → IsStopped m (net_shutdown m)
unfolding net_shutdown platform_shutdown stop_intr
net_shutdown-IsStopped m h = (
  close_all-IsDown m.host.net.devices,
  stop_timer-stopped m.timers h,
  ended (Option-cases m.intr.thread),
)
  where
    ended :
        (m.intr.thread ≡ none) ⊎ ((mask : List ℕ) × (m.intr.thread ≡ some mask))
        → IsEnded m.intr.thread m.raised (net_shutdown m)
    ended (inl e) = rw (stop_intr, e) (e, append-nil m.raised)
    ended (inr (mask, e)) = rw (stop_intr, e) (refl, refl)

-- A run that succeeds leaves every device up, the timer created and running, and the dispatcher
-- waiting for SIGHUP and for the signal of every registered interrupt, all of which are blocked.
-- Shutdown, from any state in which only a timer that was created runs, leaves every device down,
-- the timer deleted and not running, and no dispatcher; where there was one, the process has sent
-- itself SIGHUP, once, and otherwise nothing.
pub net_run-net_shutdown :
    (env : Env) (m any_state : Machine)
    → (net_run env m).0 ≡ true
    → IsConsistent any_state.timers
    → IsRunning (net_run env m).1 × IsStopped any_state (net_shutdown any_state)
net_run-net_shutdown env m any_state done h =
    (net_run-IsRunning env m done, net_shutdown-IsStopped any_state h)
