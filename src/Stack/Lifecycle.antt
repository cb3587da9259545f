-- ===== src/Stack/Lifecycle.antt =====
-- How the parts are started and stopped: src/platform/linux/mod.rs, softirq.rs and task.rs beside
-- it, `init`, `run` and `shutdown` of src/net.rs, and the `init` of each protocol.
pub mod Laws
use microps_rs.Base.{ℕ, Bool, true, false, List, [], ◌∷◌, ◌++◌, Option, none, some, if◌then◌else◌}
use microps_rs.Link.{Net, Device, NetProtocol, ip_input, arp_input}
use microps_rs.Link.Devices.{TapOpen, open_device, close_device}
use microps_rs.Link.Driver.{register_protocol as register_ether}
use microps_rs.Platform.Intr.{
  Intr, IrqEntry, register as register_irq, run as run_intr, shutdown as stop_intr, softirq_isr,
  task_isr, sigusr1, sigusr2,
}
use microps_rs.Platform.Timer.{
  Timers, TimerFn, arp_timer, tcp_timer, register as register_timer, init as init_timer,
  run as run_timer, shutdown as stop_timer,
}
use microps_rs.Stack.{Host, IpProtocol, icmp_handler, udp_handler, tcp_handler, register_protocol}

-- The host with the platform below it, and the signals that the process has sent to itself.
pub record Machine : Type 0 where
  pub host : Host
  pub intr : Intr
  pub timers : Timers
  pub raised : List ℕ

-- What the system calls return, and the time.
pub record Env : Type 0 where
  pub now : ℕ
  pub timer_created : Option ℕ
  pub timer_set : Bool
  pub mask_set : Bool
  pub tap_open : ℕ → TapOpen

-- The operator `?`: the next step, unless this one failed.
unfoldable pub and_then {ℓ} : {S : Type ℓ} → Bool × S → (S → Bool × S) → Bool × S
and_then (true, s) f = f s
and_then (false, s) f = (false, s)

abbrev pub on_irqs : (List IrqEntry → Bool × List IrqEntry) → Machine → Bool × Machine
on_irqs f m =
    let (done, irqs) = f m.intr.irqs in (done, record m { intr = record (m.intr) { irqs = irqs } })

abbrev pub on_host : (Host → Bool × Host) → Machine → Bool × Machine
on_host f m = let (done, host) = f m.host in (done, record m { host = host })

-- `softirq::init` and `task::init`.
unfoldable pub softirq_init : Machine → Bool × Machine
softirq_init = on_irqs (register_irq (record { irq = sigusr1; isr = softirq_isr; flags = 0 }))

unfoldable pub task_init : Machine → Bool × Machine
task_init = on_irqs (register_irq (record { irq = sigusr2; isr = task_isr; flags = 0 }))

-- `timer::init`, on the two tables that it changes.
unfoldable pub timer_init : Env → Machine → Bool × Machine
timer_init env m =
    let (done, irqs, timers) = init_timer env.timer_created m.intr.irqs m.timers in
    (done, record m { intr = record (m.intr) { irqs = irqs }; timers = timers })

unfoldable pub platform_init : Env → Machine → Bool × Machine
unfolding softirq_init task_init timer_init and_then
platform_init env m = and_then (and_then (softirq_init m) (timer_init env)) task_init

-- `intr::run` and `timer::run`; those of the soft interrupts and the tasks do nothing.
unfoldable pub intr_run : Env → Machine → Bool × Machine
intr_run env m = let (done, intr) = run_intr env.mask_set m.intr in (done, record m { intr = intr })

unfoldable pub timer_run : Env → Machine → Bool × Machine
timer_run env m =
    let (done, timers) = run_timer env.timer_set m.timers in (done, record m { timers = timers })

unfoldable pub platform_run : Env → Machine → Bool × Machine
unfolding intr_run timer_run and_then
platform_run env m = and_then (intr_run env m) (timer_run env)

unfoldable pub platform_shutdown : Machine → Machine
platform_shutdown m =
    let (signals, intr) = stop_intr m.intr in
    record m { timers = stop_timer m.timers; intr = intr; raised = m.raised ++ signals }

-- The `init` of each protocol.
unfoldable pub add_ether : NetProtocol → Machine → Bool × Machine
add_ether p =
    on_host λ h. let (done, net) = register_ether p h.net in (done, record h { net = net })

unfoldable pub add_timer : ℕ → TimerFn → ℕ → Machine → Bool × Machine
add_timer interval f now m = (true, record m { timers = register_timer interval f now m.timers })

unfoldable pub arp_init : Env → Machine → Bool × Machine
unfolding add_ether add_timer and_then
arp_init env m =
    and_then (add_ether (record { ty = 2054; handler = arp_input }) m)
      (add_timer 1000000000 arp_timer env.now)

unfoldable pub ip_init : Machine → Bool × Machine
unfolding add_ether
ip_init m = add_ether (record { ty = 2048; handler = ip_input }) m

unfoldable pub icmp_init : Machine → Bool × Machine
icmp_init = on_host (register_protocol (record { protocol = 1; handler = icmp_handler }))

unfoldable pub udp_init : Machine → Bool × Machine
udp_init = on_host (register_protocol (record { protocol = 17; handler = udp_handler }))

unfoldable pub tcp_init : Env → Machine → Bool × Machine
unfolding add_timer and_then
tcp_init env m =
    and_then (on_host (register_protocol (record { protocol = 6; handler = tcp_handler })) m)
      (add_timer 100000000 tcp_timer env.now)

-- `net::init`.
unfoldable pub net_init : Env → Machine → Bool × Machine
unfolding platform_init arp_init ip_init icmp_init udp_init tcp_init and_then
net_init env m =
    and_then
      (and_then
        (and_then (and_then (and_then (platform_init env m) (arp_init env)) ip_init) icmp_init)
        udp_init)
      (tcp_init env)

-- `try_foreach` with `open`, from the device of an index on; the first failure ends it.
unfoldable pub open_all : (ℕ → TapOpen) → ℕ → List Device → Bool × List Device
open_all k i [] = (true, [])
open_all k i (d ∷ ds) =
    let (done, d') = open_device (k i) d in
    let (all_done, ds') = open_all k (ℕ.suc i) ds in
    if done then (all_done, d' ∷ ds') else (false, d' ∷ ds)

-- `foreach` with `close`, whose failures do not matter.
unfoldable pub close_all : List Device → List Device
close_all [] = []
close_all (d ∷ ds) = (close_device d).1 ∷ close_all ds

abbrev pub set_devices : List Device → Machine → Machine
set_devices ds m = record m {
  host = record (m.host) { net = record (m.host.net) { devices = ds } };
}

unfoldable pub net_run : Env → Machine → Bool × Machine
unfolding open_all platform_run and_then
net_run env m =
    and_then (platform_run env m) λ m'.
      let (done, ds) = open_all env.tap_open 0 m'.host.net.devices in (done, set_devices ds m')

unfoldable pub net_shutdown : Machine → Machine
unfolding close_all platform_shutdown
net_shutdown m = platform_shutdown (set_devices (close_all m.host.net.devices) m)
