-- ===== src/Link/Tap/Frame.antt =====
-- A frame from one tap to another: `transmit` and `input` of
-- src/platform/linux/driver/ether_tap.rs.
use microps_rs.Base.{
  ℕ, ◌-◌, ◌/◌, ◌%◌, ◌≤◌, ◌<◌, ◌≡◌, refl, subst, Bool, true, false, not, ◌&&◌, ◌||◌, List, [], ◌∷◌,
  ◌++◌, arith, ltb, length, take, drop, replicate, byte_at, from_be16, to_be16, if_cases, six,
}
use microps_rs.Link.{Device, Net, device_at}
use microps_rs.Link.Driver.{
  build_frame, tap_transmit, tap_input, input_handler, bytes_eq, ether_addr_len,
  ether_payload_size_min,
}

-- The payload as it arrives, with the zeros that fill a short frame.
abbrev pub padded : List ℕ → List ℕ
padded payload = payload ++ replicate (ether_payload_size_min - length payload) 0

-- A frame for a station is one for its address or for all.
abbrev pub for_station : List ℕ → Device → Bool
for_station dst d =
    bytes_eq (take ether_addr_len dst) (take ether_addr_len d.addr)
    || bytes_eq (take ether_addr_len dst) (replicate ether_addr_len 255)

-- A frame that starts with two addresses of six bytes.
frame_of : List ℕ → List ℕ → ℕ → List ℕ → List ℕ
frame_of dst src ty rest = dst ++ (src ++ (to_be16 ty ++ rest))

not_other : (a b : Bool) → (a || b) ≡ true → (not a && not b) ≡ false
not_other true b h = refl
not_other false true h = refl
not_other false false h = absurd (cc)

-- A frame that is long enough and for this station is handed up.
tap_input-taken :
    (dev : ℕ) (frame : List ℕ) (m : Net)
    → 14 ≤ length frame
    → for_station frame (device_at m dev) ≡ true
    → tap_input dev frame m
      ≡ (input_handler (from_be16 (byte_at frame 12) (byte_at frame 13)) (drop 14 frame) dev m).1
unfolding tap_input
tap_input-taken dev frame m long mine =
    let short : ltb (length frame) 14 ≡ false = ground arith in
    let other =
      not_other (bytes_eq (take 6 frame) (take 6 (device_at m dev).addr))
        (bytes_eq (take 6 frame) (replicate 6 255)) mine in
    rw (tap_input, short, other) refl

word : (ty : ℕ) → ty < 65536 → from_be16 (ty / 256 % 256) (ty % 256) ≡ ty
word ty lt = omega arith

module _ (dev ty : ℕ) (rest : List ℕ) (m : Net) (lt : ty < 65536) where
  Taken : List ℕ → List ℕ → Type 0
  Taken dst src =
      for_station dst (device_at m dev) ≡ true
      → tap_input dev (frame_of dst src ty rest) m ≡ (input_handler ty rest dev m).1

  frame-Taken :
      (a b c d e f a' b' c' d' e' f' : ℕ)
      → Taken (a ∷ b ∷ c ∷ d ∷ e ∷ f ∷ []) (a' ∷ b' ∷ c' ∷ d' ∷ e' ∷ f' ∷ [])
  unfolding Taken frame_of
  frame-Taken a b c d e f a' b' c' d' e' f' mine =
      let frame =
        frame_of (a ∷ b ∷ c ∷ d ∷ e ∷ f ∷ []) (a' ∷ b' ∷ c' ∷ d' ∷ e' ∷ f' ∷ []) ty rest in
      subst (λ t. tap_input dev frame m ≡ (input_handler t rest dev m).1) (word ty lt)
        (tap_input-taken dev frame m (omega arith) mine)

  addresses-Taken :
      (dst src : List ℕ) → 6 ≤ length dst → 6 ≤ length src → Taken (take 6 dst) (take 6 src)
  addresses-Taken dst src p q =
      six (λ xs. Taken xs (take 6 src))
        (λ a b c d e f.
          six (Taken (a ∷ b ∷ c ∷ d ∷ e ∷ f ∷ []))
            (λ a' b' c' d' e' f'. frame-Taken a b c d e f a' b' c' d' e' f') src q)
        dst p

for_station-take :
    (dst : List ℕ) (d : Device)
    → 6 ≤ length dst
    → for_station dst d ≡ true
    → for_station (take 6 dst) d ≡ true
for_station-take dst d p =
    six
      (λ xs.
        bytes_eq xs (take 6 d.addr) || bytes_eq xs (replicate 6 255) ≡ true
        → for_station xs d ≡ true)
      (λ a b c d' e f h. h) dst p

Sent : Device → ℕ → List ℕ → List ℕ → Net → Bool × Net → Type 0
Sent d ty payload dst n (done, n') =
    done ≡ true
    → (6 ≤ length dst) × (n'.wire ≡ (d.index, build_frame dst d.addr ty payload) ∷ n.wire)

tap_transmit-Sent :
    (d : Device) (ty : ℕ) (payload dst : List ℕ) (n : Net)
    → Sent d ty payload dst n (tap_transmit true d ty payload dst n)
unfolding tap_transmit Sent
tap_transmit-Sent d ty payload dst n =
    let frame = build_frame dst d.addr ty payload in
    if_cases (Sent d ty payload dst n) (ltb (length dst) 6) (λ _ h. absurd (cc))
      λ long.
        if_cases (Sent d ty payload dst n) (ltb 1500 (length payload)) (λ _ h. absurd (cc))
          λ _.
            if_cases (Sent d ty payload dst n) (n.write_ok d.index frame)
              (λ _ h. (ground arith, refl)) λ _ h. absurd (cc)

-- A tap that transmits has put a frame on the wire which any station that it is for takes with its
-- type and payload, filled up with zeros to 46 bytes.
pub tap_input-tap_transmit :
    (d : Device) (ty : ℕ) (payload dst : List ℕ) (n m : Net) (dev : ℕ)
    → ty < 65536
    → 6 ≤ length d.addr
    → (tap_transmit true d ty payload dst n).0 ≡ true
    → for_station dst (device_at m dev) ≡ true
    → let frame = build_frame dst d.addr ty payload in
      ((tap_transmit true d ty payload dst n).1.wire ≡ (d.index, frame) ∷ n.wire)
      × (tap_input dev frame m ≡ (input_handler ty (padded payload) dev m).1)
unfolding build_frame Sent Taken frame_of
tap_input-tap_transmit d ty payload dst n m dev lt src_len sent mine =
    let (dst_len, wire) = tap_transmit-Sent d ty payload dst n sent in
    (
      wire,
      addresses-Taken dev ty (padded payload) m lt dst d.addr dst_len src_len
          (for_station-take dst (device_at m dev) dst_len mine),
    )
