-- ===== src/Link/Driver.antt =====
-- `Device::output` with the drivers behind it (src/device.rs, src/driver/loopback.rs,
-- src/platform/linux/driver/ether_tap.rs), and the way in: `net::input_handler` (src/net.rs).
use microps_rs.Base.{
  ℕ, ◌+◌, ◌-◌, Bool, true, false, not, ◌&&◌, List, [], ◌∷◌, ◌++◌, none, some, ltb, ◌==◌,
  if◌then◌else◌, length, take, drop, replicate, byte_at, from_be16, to_be16, u16,
}
use microps_rs.Link.{Device, Ops, loopback, ether_tap, Net, NetProtocol, device_at}
use microps_rs.Link.Devices.{is_up, by_index}

unfoldable pub is_registered : ℕ → List NetProtocol → Bool
is_registered ty [] = false
is_registered ty (p ∷ ps) = if p.ty == ty then true else is_registered ty ps

-- `net::register_protocol`.
unfoldable pub register_protocol : NetProtocol → Net → Bool × Net
unfolding is_registered
register_protocol p n =
    if is_registered p.ty n.protocols
    then (false, n)
    else (true, record n { protocols = n.protocols ++ p ∷ [] })

-- A packet of a registered type is queued, and the soft interrupt raised.
unfoldable pub input_handler : ℕ → List ℕ → ℕ → Net → Bool × Net
unfolding is_registered
input_handler ty payload dev n =
    if not (is_registered ty n.protocols) then (true, n) else elim (by_index n dev) [
      | none ↦ (false, n)
      | some d ↦ (
        true,
        record n {
          input_queue = n.input_queue ++ record { ty = ty; payload = payload; dev = dev } ∷ [];
          raised = n.raised + 1;
        },
      )
    ]

abbrev pub ether_addr_len : ℕ
ether_addr_len = 6

abbrev pub ether_hdr_size : ℕ
ether_hdr_size = 14

abbrev pub ether_payload_size_min : ℕ
ether_payload_size_min = 46

abbrev pub ether_payload_size_max : ℕ
ether_payload_size_max = 1500

-- The frame on the wire: header, payload, and zeros up to the least size.
unfoldable pub build_frame : List ℕ → List ℕ → ℕ → List ℕ → List ℕ
build_frame dst src ty payload =
    take ether_addr_len dst
    ++ (take ether_addr_len src
        ++ (to_be16 ty ++ (payload ++ replicate (ether_payload_size_min - length payload) 0)))

unfoldable pub tap_transmit : Bool → Device → ℕ → List ℕ → List ℕ → Net → Bool × Net
unfolding build_frame
tap_transmit up d ty payload dst n =
    let frame = build_frame dst d.addr ty payload in
    if ltb (length dst) ether_addr_len
    then (false, n)
    else if ltb ether_payload_size_max (length payload)
    then (false, n)
    else if not up
    then (false, n)
    else if n.write_ok d.index frame
    then (true, record n { wire = (d.index, frame) ∷ n.wire })
    else (false, n)

unfoldable pub transmit : Ops → Device → ℕ → List ℕ → List ℕ → Net → Bool × Net
unfolding tap_transmit input_handler
transmit loopback d ty payload dst n = input_handler ty payload d.index n
transmit (ether_tap up) d ty payload dst n = tap_transmit up d ty payload dst n

-- `Device::output`; the length is cut to 16 bits before it is compared with the MTU.
unfoldable pub output : ℕ → ℕ → List ℕ → List ℕ → Net → Bool × Net
unfolding transmit is_up
output dev ty payload dst n =
    let d = device_at n dev in
    if not (is_up d)
    then (false, n)
    else if ltb d.mtu (u16 (length payload))
    then (false, n)
    else transmit d.ops d ty payload dst n

unfoldable pub bytes_eq : List ℕ → List ℕ → Bool
bytes_eq [] [] = true
bytes_eq [] (y ∷ ys) = false
bytes_eq (x ∷ xs) [] = false
bytes_eq (x ∷ xs) (y ∷ ys) = (x == y) && bytes_eq xs ys

-- `input` of the tap: frames for another station are dropped.
unfoldable pub tap_input : ℕ → List ℕ → Net → Net
unfolding bytes_eq input_handler
tap_input dev frame n =
    let d = device_at n dev in
    let dst = take ether_addr_len frame in
    let for_me = bytes_eq dst (take ether_addr_len d.addr) in
    let for_all = bytes_eq dst (replicate ether_addr_len 255) in
    if ltb (length frame) ether_hdr_size
    then n
    else if not for_me && not for_all
    then n
    else (input_handler (from_be16 (byte_at frame 12) (byte_at frame 13))
        (drop ether_hdr_size frame) dev n).1
