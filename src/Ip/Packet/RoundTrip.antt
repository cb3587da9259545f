-- ===== src/Ip/Packet/RoundTrip.antt =====
-- `build_packet` and `input` of src/ip.rs, one behind the other.
use microps_rs.Base.{
  ℕ, ◌+◌, ◌-◌, ◌≤◌, ◌≡◌, refl, subst, ap, List, [], ◌∷◌, ◌++◌, none, some, arith, length, ltb, sym,
  inl, inr, Bool-cases, some≢none, take, slice, to_ne16, IsByte,
}
use mathlib.Core.Option.{some-injective}
use microps_rs.Addr.{IpAddr, IsAddr, octets}
use microps_rs.Util.{cksum16}
use microps_rs.Util.Verify.{word_sum, cksum16_verifies}
use microps_rs.Ip.Packet.{
  hdr_head, build_packet, check, version, offset, total, protocol_of, src_of, dst_of, hdr_len,
}

take_all : (xs : List ℕ) → take (length xs) xs ≡ xs
take_all [] = refl
take_all (x ∷ xs) = ap (λ ys. x ∷ ys) (take_all xs)

take_rest : (xs : List ℕ) → take (20 + length xs - 20) xs ≡ xs
take_rest xs = subst (λ n. take n xs ≡ xs) (omega arith) (take_all xs)

-- The header that `build_packet` makes.
header : ℕ → ℕ → ℕ → IpAddr → IpAddr → List ℕ
unfolding hdr_head
header tot id protocol src dst =
    let head = hdr_head tot id protocol in
    let tail = octets src ++ octets dst in
    head ++ (to_ne16 (cksum16 (head ++ 0 ∷ 0 ∷ tail) 0) ++ tail)

header_verifies :
    (tot id protocol : ℕ) (src dst : IpAddr)
    → IsByte protocol
    → IsAddr src
    → IsAddr dst
    → cksum16 (header tot id protocol src dst) 0 ≡ 0
unfolding header hdr_head word_sum
header_verifies tot id protocol src dst p s d =
    cksum16_verifies (hdr_head tot id protocol) (octets src ++ octets dst) 0 tt (omega arith)

check-none :
    (buf : List ℕ)
    → 20 ≤ length buf
    → version buf ≡ 4
    → hdr_len buf ≤ length buf
    → total buf ≤ length buf
    → cksum16 (take (hdr_len buf) buf) 0 ≡ 0
    → offset buf ≡ 0
    → check buf ≡ none
unfolding check
check-none buf a b c d e f = rw (f, e, b) (ground arith)

-- What a receiver reads in a packet.
pub record IsPacket (protocol : ℕ) (payload : List ℕ) (src dst : IpAddr) (buf : List ℕ)
    : Type 0 where
  pub passes : check buf ≡ none
  pub protocol_read : protocol_of buf ≡ protocol
  pub src_read : src_of buf ≡ src
  pub dst_read : dst_of buf ≡ dst
  pub payload_read : slice buf (hdr_len buf) (total buf) ≡ payload

header-IsPacket :
    (protocol : ℕ) (payload : List ℕ) (src dst : IpAddr) (id : ℕ)
    → IsByte protocol
    → IsAddr src
    → IsAddr dst
    → length payload ≤ 65515
    → IsPacket protocol payload src dst
        (header (20 + length payload) id protocol src dst ++ payload)
unfolding header hdr_head check
header-IsPacket protocol payload src dst id p s d le =
    let n = 20 + length payload in
    let tot : total (header n id protocol src dst ++ payload) ≡ n = omega arith in
    let valid : cksum16 (take 20 (header n id protocol src dst ++ payload)) 0 ≡ 0 =
      header_verifies n id protocol src dst p s d in
    record {
      passes =
          check-none (header n id protocol src dst ++ payload) (omega arith) refl (omega arith)
            (omega (arith, tot)) valid refl;
      protocol_read = refl;
      src_read = refl;
      dst_read = refl;
      payload_read = rw tot (take_rest payload);
    }

-- A packet that `build_packet` makes of a protocol and addresses that are bytes passes all tests of
-- `input` on the packet, and its protocol, its addresses and its payload are read back. The payload
-- is short enough whenever there is a packet.
pub build_packet-IsPacket :
    (protocol : ℕ) (payload : List ℕ) (src dst : IpAddr) (id : ℕ) (buf : List ℕ)
    → IsByte protocol
    → IsAddr src
    → IsAddr dst
    → build_packet protocol payload src dst id ≡ some buf
    → IsPacket protocol payload src dst buf
unfolding build_packet
build_packet-IsPacket protocol payload src dst id buf p s d h =
    elim (Bool-cases (ltb 65535 (20 + length payload))) [
      | inl long ↦ absurd (some≢none (sym (rw (long, build_packet) at h)))
      | inr fits ↦
          let same : some (header (20 + length payload) id protocol src dst ++ payload) ≡ some buf =
            unfold header in rw (fits, build_packet) at h in
          subst (IsPacket protocol payload src dst) (some-injective _ buf same)
            (header-IsPacket protocol payload src dst id p s d (ground arith))
    ]
