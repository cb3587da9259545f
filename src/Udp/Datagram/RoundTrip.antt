-- ===== src/Udp/Datagram/RoundTrip.antt =====
-- `output` and `input` of src/udp.rs, one behind the other.
use microps_rs.Base.{
  ℕ, ◌+◌, ◌≤◌, ◌<◌, ◌≡◌, refl, true, false, inl, inr, List, arith, ltb, ◌==◌, length, drop, All,
  IsByte, u16, Bool-cases,
}
use microps_rs.Addr.{IpAddr, IpEndp, IsAddr}
use microps_rs.Util.{cksum16}
use microps_rs.Util.Verify.{word_sum, word_sum-le, cksum16_verifies_nonzero}
use microps_rs.Udp.Datagram.{
  hdr_head, build_datagram, pseudo_init, never_zero, accepts, hdr_src, hdr_dst, hdr_len, hdr_sum,
  udp_hdr_size,
}

-- The fields of a datagram have the widths of their types, and the payload fits a packet.
pub record IsDatagram (src dst : IpEndp) (payload : List ℕ) : Type 0 where
  pub payload_fits : length payload ≤ 65507
  pub bytes : All IsByte payload
  pub src_fits : IsAddr src.addr × (src.port < 65536)
  pub dst_fits : IsAddr dst.addr × (dst.port < 65536)

-- What a receiver reads in a datagram.
pub record Reads (src dst : IpEndp) (payload dgram : List ℕ) : Type 0 where
  pub accepted : accepts src.addr dst.addr dgram ≡ true
  pub src_read : hdr_src dgram ≡ src.port
  pub dst_read : hdr_dst dgram ≡ dst.port
  pub payload_read : drop udp_hdr_size dgram ≡ payload

init_fits : (src dst : IpAddr) (n : ℕ) → pseudo_init src dst n < 65536
unfolding pseudo_init
init_fits src dst n = omega arith

accepts_lem :
    (src dst : IpAddr) (d : List ℕ) (n : ℕ)
    → length d ≡ n
    → udp_hdr_size ≤ n
    → hdr_len d ≡ n
    → cksum16 d (pseudo_init src dst (u16 n)) ≡ 0
    → accepts src dst d ≡ true
unfolding accepts pseudo_init
accepts_lem src dst d n e le l c =
    let long : ltb (length d) 8 ≡ false = ground arith in
    let same : (hdr_len d == length d) ≡ true = ground arith in
    let valid : cksum16 d (pseudo_init src dst (u16 (length d))) ≡ 0 = rw e c in
    elim (Bool-cases (hdr_sum d == 0)) [
      | inl z ↦ rw (long, same, z) refl
      | inr z ↦ rw (long, same, z, valid) refl
    ]

-- A datagram that `output` builds of ports and addresses that fit their widths and of at most
-- 65507 bytes is accepted at the other end, with its ports and its
-- payload, also where its checksum would be 0 and 65535 is sent.
pub build_datagram-Reads :
    (src dst : IpEndp) (payload : List ℕ)
    → IsDatagram src dst payload
    → Reads src dst payload (build_datagram src dst payload)
unfolding build_datagram hdr_head never_zero word_sum
build_datagram-Reads src dst payload h =
    let n = udp_hdr_size + length payload in
    let d = build_datagram src dst payload in
    let init = pseudo_init src.addr dst.addr (u16 n) in
    record {
      accepted =
          accepts_lem src.addr dst.addr d n (omega arith) (omega arith)
            (omega (arith, h.payload_fits))
            (cksum16_verifies_nonzero (hdr_head src.port dst.port n) payload init tt (
              omega (
                arith,
                h.payload_fits,
                word_sum-le payload h.bytes,
                init_fits src.addr dst.addr (u16 n),
              )));
      src_read = omega (arith, h.src_fits);
      dst_read = omega (arith, h.dst_fits);
      payload_read = refl;
    }
