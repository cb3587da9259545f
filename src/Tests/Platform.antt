-- ===== src/Tests/Platform.antt =====
-- Interrupts, timers, and the start of the stack.
use microps_rs.Base.{
  ℕ, some≢none, inr, ◌≤◌, ◌+◌, ◌*◌, ◌≡◌, refl, List, [], ◌∷◌, none, some, true, false, Bool, arith,
  max,
}
use microps_rs.Link.Devices.{opened, open_device, is_up, ops_open}
use microps_rs.Link.{new_device, loopback}
use microps_rs.Platform.Intr.{
  Isr, IrqEntry, SigWait, got, intr_main, register, conflicts, is_shared, tap_isr, timer_isr,
  flag_shared, tap_irq, sigalrm, sighup, run as run_intr,
}
use microps_rs.Platform.Intr.Laws.{
  Registered, start, registered, serve, served, intr_main-Registered,
}
use microps_rs.Platform.Timer.{TimerEntry, TimerFn, arp_timer, tcp_timer, run as run_timer}
use microps_rs.Platform.Timer.Rate.{ticks, calls, ticks-rate}
use microps_rs.Stack.Lifecycle.{
  Machine, Env, net_run, net_shutdown, platform_run, intr_run, timer_run, and_then, open_all,
}
use microps_rs.Stack.Lifecycle.Laws.{IsRunning, IsStopped, IsConsistent, net_run-net_shutdown}
use microps_rs.Tests.Data.{net}

abbrev tap_entry : ℕ → IrqEntry
tap_entry i = record { irq = tap_irq; isr = tap_isr i; flags = flag_shared }

abbrev timer_entry : IrqEntry
timer_entry = record { irq = sigalrm; isr = timer_isr; flags = 2 }

-- The handlers that were called, newest first.
abbrev log : Isr → ℕ → List Isr → List Isr
log f irq s = f ∷ s

-- Two taps, which share a signal, and a timer.
abbrev three : List IrqEntry
three = tap_entry 0 ∷ timer_entry ∷ tap_entry 1 ∷ []

three-Registered : Registered three
unfolding register conflicts is_shared
three-Registered =
    registered (tap_entry 1) (registered timer_entry (registered (tap_entry 0) start))

abbrev signals : List SigWait
signals = got tap_irq ∷ got sigalrm ∷ got sighup ∷ []

intr_main-Registered_example : intr_main log three signals [] ≡ serve log three (served signals) []
intr_main-Registered_example = intr_main-Registered log signals [] three-Registered

abbrev is_tcp : TimerFn → Bool
is_tcp tcp_timer = true
is_tcp _ = false

abbrev arp_entry : TimerEntry
arp_entry = record { interval = 1000; last = 0; handler = arp_timer }

abbrev tcp_entry : TimerEntry
tcp_entry = record { interval = 100; last = 0; handler = tcp_timer }

ticks-rate_example :
    calls is_tcp (ticks (50 ∷ 100 ∷ 150 ∷ 220 ∷ []) (arp_entry ∷ tcp_entry ∷ [])) * 100 + 0
    ≤ max 0 250
ticks-rate_example =
    ticks-rate is_tcp (50 ∷ 100 ∷ 150 ∷ 220 ∷ []) 250 (arp_entry ∷ []) [] tcp_entry
      (omega arith, (omega arith, (omega arith, (omega arith, tt)))) (refl, tt) tt

abbrev env : Env
env = record {
  now = 0;
  timer_created = some 1;
  timer_set = true;
  mask_set = true;
  tap_open = λ i. opened [];
}

abbrev machine : Machine
machine = record {
  host = record {
    net = record net { devices = new_device 1 65535 16 loopback ∷ [] };
    tasks = [];
    ip_protocols = [];
    udp_pcbs = [];
    tcp_pcbs = [];
  };
  intr = record { irqs = three; blocked = []; thread = none };
  timers = record { entries = []; id = some 1; armed = false };
  raised = [];
}

starts : (net_run env machine).0 ≡ true
unfolding net_run platform_run intr_run timer_run and_then open_all run_intr run_timer open_device
    is_up ops_open
starts = refl

has_timer : IsConsistent (net_run env machine).1.timers
unfolding net_run platform_run intr_run timer_run and_then open_all run_intr run_timer open_device
    is_up ops_open
has_timer = inr (λ e. some≢none e)

net_run-net_shutdown_example :
    IsRunning (net_run env machine).1
    × IsStopped (net_run env machine).1 (net_shutdown (net_run env machine).1)
net_run-net_shutdown_example =
    net_run-net_shutdown env machine (net_run env machine).1 starts has_timer
