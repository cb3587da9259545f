-- ===== src/Arp/Station.antt =====
-- A device on which the packets of src/arp.rs go out, and the frames that it writes.
use microps_rs.Base.{
  ℕ, ◌-◌, ◌≤◌, ◌≡◌, refl, true, false, List, [], ◌∷◌, ◌++◌, some, arith, ltb, length, take, drop,
  replicate, six, to_be16, u16,
}
use microps_rs.Link.{Net, IpIface, CacheEntry, ether_tap, device_at}
use microps_rs.Link.Devices.{is_up, get_iface, family_ip}
use microps_rs.Link.Driver.{output, transmit, tap_transmit, build_frame}

-- A device that is a tap which takes every frame, and has the interface.
pub record IsStation (n : Net) (i : IpIface) : Type 0 where
  pub up : is_up (device_at n i.dev) ≡ true
  pub tap : (device_at n i.dev).ops ≡ ether_tap true
  pub mtu_fits : 28 ≤ (device_at n i.dev).mtu
  pub addr_len : 6 ≤ length (device_at n i.dev).addr
  pub broadcast_len : 6 ≤ length (device_at n i.dev).broadcast
  pub iface : get_iface family_ip (device_at n i.dev).ifaces ≡ some i
  pub writes : (frame : List ℕ) → n.write_ok (device_at n i.dev).index frame ≡ true

-- The state behind a frame that was written.
abbrev pub written : ℕ → ℕ → List ℕ → List ℕ → Net → Net
written dev ty payload dst n =
    let d = device_at n dev in
    record n { wire = (d.index, build_frame dst d.addr ty payload) ∷ n.wire }

pub output-written :
    (n : Net) (i : IpIface) (ty : ℕ) (payload dst : List ℕ)
    → IsStation n i
    → length payload ≡ 28
    → 6 ≤ length dst
    → output i.dev ty payload dst n ≡ (true, written i.dev ty payload dst n)
unfolding output transmit tap_transmit
output-written n i ty payload dst st p q =
    let short : ltb (length dst) 6 ≡ false = ground arith in
    let fits : ltb (device_at n i.dev).mtu (u16 (length payload)) ≡ false =
      ground (arith, st.mtu_fits, p) in
    let small : ltb 1500 (length payload) ≡ false = ground (arith, p) in
    rw
      (
        output,
        st.up,
        fits,
        st.tap,
        transmit,
        tap_transmit,
        short,
        small,
        st.writes (build_frame dst (device_at n i.dev).addr ty payload),
      )
      refl

-- A station stays one when its cache and its wire change.
pub moved :
    (n : Net) (i : IpIface) (cache : List CacheEntry) (wire : List (ℕ × List ℕ))
    → IsStation n i
    → IsStation (record n { cache = cache; wire = wire }) i
moved n i cache wire st = record {
  up = st.up;
  tap = st.tap;
  mtu_fits = st.mtu_fits;
  addr_len = st.addr_len;
  broadcast_len = st.broadcast_len;
  iface = st.iface;
  writes = st.writes;
}

-- The payload of the newest frame, as it arrives at the other stations.
abbrev pub newest : Net → List ℕ
newest n = elim n.wire [ [] ↦ [] | f ∷ fs ↦ drop 14 f.1 ]

pub drop-build_frame :
    (dst src : List ℕ) (ty : ℕ) (payload : List ℕ)
    → 6 ≤ length dst
    → 6 ≤ length src
    → drop 14 (build_frame dst src ty payload) ≡ payload ++ replicate (46 - length payload) 0
unfolding build_frame
drop-build_frame dst src ty payload p q =
    let rest = to_be16 ty ++ (payload ++ replicate (46 - length payload) 0) in
    six (λ xs. drop 14 (xs ++ (take 6 src ++ rest)) ≡ payload ++ replicate (46 - length payload) 0)
      (λ a b c d e f.
        six
          (λ ys.
            drop 14 ((a ∷ b ∷ c ∷ d ∷ e ∷ f ∷ []) ++ (ys ++ rest))
            ≡ payload ++ replicate (46 - length payload) 0)
          (λ a' b' c' d' e' f'. refl) src q)
      dst p
