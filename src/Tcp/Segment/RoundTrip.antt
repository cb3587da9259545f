-- ===== src/Tcp/Segment/RoundTrip.antt =====
-- `output_segment` and `input` of src/tcp.rs, one behind the other.
use microps_rs.Base.{
  ℕ, ◌+◌, ◌-◌, ◌≤◌, ◌<◌, ◌≡◌, refl, ◌∙◌, drop, Bool, false, ◌||◌, List, ◌∷◌, arith, ltb, length,
  All, IsByte, u16, if◌then◌else◌,
}
use microps_rs.Addr.{IpAddr, IpEndp, IsAddr, addr_eq, broadcast_addr}
use microps_rs.Util.{cksum16}
use microps_rs.Util.Verify.{word_sum, word_sum-le, cksum16_verifies}
use microps_rs.Link.{IpIface}
use microps_rs.Tcp.Flags.{flag_isset, syn, fin}
use microps_rs.Tcp.Segment.{
  hdr_head, build_segment, pseudo_init, parse, seg_len, hdr_seq, hdr_ack, hdr_len, hdr_flg, hdr_wnd,
  hdr_up, hdr_src, hdr_dst, arrived, tcp_hdr_size,
}

-- The fields of a segment have the widths of their types, and the payload fits a datagram.
pub record IsSegment (seq ack flg wnd : ℕ) (payload : List ℕ) (local remote : IpEndp) : Type 0 where
  pub seq_fits : seq < 4294967296
  pub ack_fits : ack < 4294967296
  pub flg_fits : IsByte flg
  pub wnd_fits : wnd < 65536
  pub payload_fits : length payload ≤ 65515
  pub bytes : All IsByte payload
  pub local_fits : IsAddr local.addr × (local.port < 65536)
  pub remote_fits : IsAddr remote.addr × (remote.port < 65536)

-- The test of `input` for a broadcast, which it drops.
abbrev pub is_broadcast : IpAddr → IpAddr → IpIface → Bool
is_broadcast src dst iface =
    addr_eq src broadcast_addr
    || (addr_eq src iface.broadcast || (addr_eq dst broadcast_addr || addr_eq dst iface.broadcast))

module _ (seq ack flg wnd : ℕ) (payload : List ℕ) (local remote : IpEndp)
    (h : IsSegment seq ack flg wnd payload local remote) where
  bytes_of : List ℕ
  bytes_of = build_segment seq ack flg wnd payload local remote

  init_fits : (n : ℕ) → pseudo_init local.addr remote.addr n < 65536
  unfolding pseudo_init
  init_fits n = omega arith

  segment_verifies :
      cksum16
        (build_segment seq ack flg wnd payload local remote)
        (pseudo_init local.addr remote.addr (u16 (tcp_hdr_size + length payload)))
      ≡ 0
  unfolding build_segment hdr_head word_sum
  segment_verifies =
      cksum16_verifies (hdr_head local.port remote.port seq ack flg wnd) (0 ∷ 0 ∷ payload)
        (pseudo_init local.addr remote.addr (u16 (tcp_hdr_size + length payload))) tt
        (omega (
          arith,
          h.flg_fits,
          h.payload_fits,
          word_sum-le payload h.bytes,
          init_fits (u16 (tcp_hdr_size + length payload)),
        ))

parse-arrived :
    (src dst : IpAddr) (iface : IpIface) (seg : List ℕ) (n : ℕ)
    → length seg ≡ n
    → tcp_hdr_size ≤ length seg
    → cksum16 seg (pseudo_init src dst (u16 n)) ≡ 0
    → is_broadcast src dst iface ≡ false
    → tcp_hdr_size ≤ hdr_len seg
    → hdr_len seg ≤ length seg
    → parse src dst iface seg
      ≡ arrived
          (record {
            seq = hdr_seq seg;
            ack = hdr_ack seg;
            len = seg_len seg;
            wnd = hdr_wnd seg;
            up = hdr_up seg;
          })
          (hdr_flg seg)
          (drop (hdr_len seg) seg)
          (record { addr = dst; port = hdr_dst seg })
          (record { addr = src; port = hdr_src seg })
unfolding parse pseudo_init
parse-arrived src dst iface seg n e a c b m d =
    let long : ltb (length seg) 20 ≡ false = ground arith in
    let full : ltb (hdr_len seg) tcp_hdr_size ≡ false = ground arith in
    let whole : ltb (length seg) (hdr_len seg) ≡ false = ground arith in
    let valid : cksum16 seg (pseudo_init src dst (u16 (length seg))) ≡ 0 = rw e c in
    rw (long, valid, b, full, whole) refl

-- A segment that `output_segment` builds of fields that fit their widths and of at most 65515 bytes
-- is accepted by `input` at the other end, unless an address is a broadcast. All fields, the
-- payload and the endpoints come back, and the length counts SYN and FIN.
pub parse-build_segment :
    (seq ack flg wnd : ℕ) (payload : List ℕ) (local remote : IpEndp) (iface : IpIface)
    → IsSegment seq ack flg wnd payload local remote
    → is_broadcast local.addr remote.addr iface ≡ false
    → parse local.addr remote.addr iface (build_segment seq ack flg wnd payload local remote)
      ≡ arrived
          (record {
            seq = seq;
            ack = ack;
            len =
                length payload
                + (if flag_isset flg syn then 1 else 0)
                + (if flag_isset flg fin then 1 else 0);
            wnd = wnd;
            up = 0;
          })
          flg
          payload
          remote
          local
unfolding build_segment hdr_head seg_len
parse-build_segment seq ack flg wnd payload local remote iface h b =
    let seg = build_segment seq ack flg wnd payload local remote in
    let read : hdr_seq seg ≡ seq = omega (arith, h.seq_fits) in
    let acked : hdr_ack seg ≡ ack = omega (arith, h.ack_fits) in
    let window : hdr_wnd seg ≡ wnd = omega (arith, h.wnd_fits) in
    let sport : hdr_src seg ≡ local.port = omega (arith, h.local_fits) in
    let dport : hdr_dst seg ≡ remote.port = omega (arith, h.remote_fits) in
    let size : length seg - hdr_len seg ≡ length payload = omega arith in
    parse-arrived local.addr remote.addr iface seg (tcp_hdr_size + length payload) (omega arith)
      (omega arith) (segment_verifies seq ack flg wnd payload local remote h) b (omega arith)
      (omega arith)
    ∙ rw (read, acked, window, sport, dport, size) refl
