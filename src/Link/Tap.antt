-- ===== src/Link/Tap.antt =====
-- src/platform/linux/driver/ether_tap.rs on the level of its system calls, whose outcomes are a
-- parameter, and the drivers' `init` (with that of src/driver/loopback.rs).
pub mod Laws
pub mod Frame
use microps_rs.Base.{
  ℕ, ◌+◌, Bool, true, false, List, [], ◌∷◌, ◌++◌, Option, none, some, ◌==◌, if◌then◌else◌, take,
  drop, replicate,
}
use microps_rs.Link.{Net, Device, loopback, ether_tap, new_device}
use microps_rs.Link.Devices.{register, store_mac}
use microps_rs.Link.Driver.{ether_addr_len, ether_hdr_size, ether_payload_size_max, tap_input}
use microps_rs.Platform.Intr.{IrqEntry, register as register_irq, tap_isr, tap_irq, flag_shared}

-- What the calls of `open` and `query_mac` return; a call that fails returns -1.
pub record TapSys : Type 0 where
  pub open_fd : Option ℕ
  pub set_iff : Bool
  pub socket_fd : Option ℕ
  pub hwaddr : Option (List ℕ)
  pub set_own : Bool
  pub get_fl : Option ℕ
  pub set_fl : Bool
  pub set_sig : Bool

-- `tap.fd`, `dev.addr`, and the descriptors that the process has open, the newest first.
pub record TapIo : Type 0 where
  pub fd : Option ℕ
  pub addr : List ℕ
  pub opened : List ℕ

remove_fd : ℕ → List ℕ → List ℕ
remove_fd fd [] = []
remove_fd fd (x ∷ xs) = if x == fd then xs else x ∷ remove_fd fd xs

-- `libc::close`.
unfoldable pub close_fd : ℕ → TapIo → TapIo
unfolding remove_fd
close_fd fd s = record s { opened = remove_fd fd s.opened }

abbrev pub add_fd : ℕ → TapIo → TapIo
add_fd fd s = record s { opened = fd ∷ s.opened }

-- The socket is closed again whatever the `ioctl` returns.
unfoldable pub query_mac : TapSys → TapIo → Option (List ℕ) × TapIo
query_mac sys s = elim sys.socket_fd [
  | none ↦ (none, s)
  | some soc ↦ (
    elim sys.hwaddr [ none ↦ none | some sa ↦ some (take ether_addr_len sa) ],
    close_fd soc (add_fd soc s),
  )
]

-- The address that was configured, or that of the kernel.
unfoldable pub choose_mac : Option (List ℕ) → TapSys → TapIo → Option (List ℕ) × TapIo
unfolding query_mac
choose_mac none sys s = query_mac sys s
choose_mac (some mac) sys s = (some mac, s)

-- `open` behind the address: the owner, the flags and the signal of the descriptor.
unfoldable pub set_async : TapSys → ℕ → TapIo → Bool × TapIo
unfolding close_fd
set_async sys fd s =
    if sys.set_own
    then elim sys.get_fl [
      | none ↦ (false, close_fd fd s)
      | some val ↦
          if sys.set_fl
          then if sys.set_sig then (true, record s { fd = some fd }) else (false, close_fd fd s)
          else (false, close_fd fd s)
    ]
    else (false, close_fd fd s)

store_addr : List ℕ → TapIo → TapIo
unfolding store_mac
store_addr mac s = record s { addr = store_mac mac s.addr }

unfoldable pub open_with : TapSys → ℕ → Option (List ℕ) × TapIo → Bool × TapIo
unfolding set_async store_addr close_fd
open_with sys fd (none, s) = (false, close_fd fd s)
open_with sys fd (some mac, s) = set_async sys fd (store_addr mac s)

unfoldable pub open_via : Option (List ℕ) → TapSys → ℕ → TapIo → Bool × TapIo
unfolding open_with choose_mac
open_via configured sys fd s =
    if sys.set_iff then open_with sys fd (choose_mac configured sys s) else (false, close_fd fd s)

unfoldable pub open_tap : Option (List ℕ) → TapSys → TapIo → Bool × TapIo
unfolding open_via
open_tap configured sys s = elim sys.open_fd [
  | none ↦ (false, s)
  | some fd ↦ open_via configured sys fd (add_fd fd s)
]

unfoldable pub close_tap : TapIo → TapIo
unfolding close_fd
close_tap s = elim s.fd [ none ↦ s | some fd ↦ record (close_fd fd s) { fd = none } ]

-- What a call of `read` returns: an error, or some bytes, none at the end of the file.
pub data Read : Type 0 where
  interrupted would_block read_error : Read
  got : List ℕ → Read

-- The loop of `isr` over the results of `read`.
unfoldable pub read_loop : ℕ → List Read → Net → Net
read_loop dev [] n = n
read_loop dev (interrupted ∷ rs) n = read_loop dev rs n
read_loop dev (would_block ∷ rs) n = n
read_loop dev (read_error ∷ rs) n = n
read_loop dev (got [] ∷ rs) n = n
read_loop dev (got (b ∷ bs) ∷ rs) n = read_loop dev rs (tap_input dev (b ∷ bs) n)

unfoldable pub isr : TapIo → ℕ → List Read → Net → Net
unfolding read_loop
isr s dev reads n = elim s.fd [ none ↦ n | some fd ↦ read_loop dev reads n ]

-- `init` of the loopback.
unfoldable pub loopback_init : Net → ℕ × Net
loopback_init n = register (new_device 1 65535 16 loopback) n

abbrev pub tap_device : Device
tap_device = record (new_device 2 ether_payload_size_max 288 (ether_tap false)) {
  hlen = ether_hdr_size;
  alen = ether_addr_len;
  broadcast = replicate ether_addr_len 255 ++ replicate 10 0;
}

-- `init` of a tap: the device stays where the interrupt is refused.
unfoldable pub tap_init : List IrqEntry → Net → Option ℕ × List IrqEntry × Net
tap_init irqs n =
    let (dev, n') = register tap_device n in
    let (done, irqs') =
      register_irq (record { irq = tap_irq; isr = tap_isr dev; flags = flag_shared }) irqs in
    (if done then some dev else none, irqs', n')
