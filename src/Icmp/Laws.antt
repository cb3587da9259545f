-- ===== src/Icmp/Laws.antt =====
-- The echo request of src/icmp.rs and its answer.
use microps_rs.Base.{
  ℕ, ◌≤◌, ◌<◌, ◌≡◌, refl, false, List, [], ◌∷◌, ◌++◌, arith, ltb, length, All, IsByte, to_be32,
}
use microps_rs.Addr.{IpAddr}
use microps_rs.Util.{cksum16}
use microps_rs.Util.Verify.{word_sum, word_sum-le, cksum16_verifies}
use microps_rs.Link.{Net, IpIface}
use microps_rs.Icmp.{build_message, input, output, echo, echo_reply, dep}

-- A message of bytes that fits a packet passes the test of its checksum.
pub build_message-verifies :
    (ty code values : ℕ) (payload : List ℕ)
    → IsByte ty
    → IsByte code
    → All IsByte payload
    → length payload ≤ 65507
    → cksum16 (build_message ty code values payload) 0 ≡ 0
unfolding build_message word_sum
build_message-verifies ty code values payload t c bytes le =
    cksum16_verifies (ty ∷ code ∷ []) (to_be32 values ++ payload) 0 tt
      (omega (arith, word_sum-le payload bytes))

-- An echo request that a host builds of at most 65507 bytes is answered with an echo reply that
-- carries the same identifier, sequence number and payload, from the address of the interface to
-- the sender.
pub input-echo :
    (values : ℕ) (payload : List ℕ) (src : IpAddr) (iface : IpIface) (n : Net)
    → values < 4294967296
    → All IsByte payload
    → length payload ≤ 65507
    → input src (build_message echo 0 values payload) iface n
      ≡ (output echo_reply 0 values payload iface.unicast src n).1
unfolding input build_message
input-echo values payload src iface n small bytes le =
    let msg = build_message echo 0 values payload in
    let valid : cksum16 msg 0 ≡ 0 =
      build_message-verifies echo 0 values payload (omega arith) (omega arith) bytes le in
    let same : dep msg ≡ values = omega (arith, small) in
    let long : ltb (length msg) 8 ≡ false = ground arith in rw (long, valid, same) refl
