-- ===== src/Tcp/Segment.antt =====
-- The bytes of a segment (src/tcp.rs): `build_pseudo_header`, `output_segment` and `TcpHdr`.
pub mod RoundTrip
use microps_rs.Base.{
  ℕ, ◌+◌, ◌-◌, ◌*◌, ◌/◌, ◌%◌, Bool, true, false, ◌||◌, List, [], ◌∷◌, ◌++◌, Option, none, some, ltb,
  ◌==◌, not, if◌then◌else◌, length, drop, byte_at, from_be16, from_be32, to_be16, to_be32, to_ne16,
  u16,
}
use microps_rs.Addr.{IpAddr, IpEndp, octets, addr_eq, broadcast_addr}
use microps_rs.Util.{cksum16}
use microps_rs.Link.{Net, IpIface}
use microps_rs.Ip.{output}
use microps_rs.Tcp.{SegInfo}
use microps_rs.Tcp.Flags.{fin, syn, flag_isset}

abbrev pub ip_protocol_tcp : ℕ
ip_protocol_tcp = 6

abbrev pub tcp_hdr_size : ℕ
tcp_hdr_size = 20

unfoldable pub build_pseudo_header : IpAddr → IpAddr → ℕ → List ℕ
build_pseudo_header src dst len = octets src ++ (octets dst ++ (0 ∷ ip_protocol_tcp ∷ to_be16 len))

-- The initial sum for the checksum of a segment.
unfoldable pub pseudo_init : IpAddr → IpAddr → ℕ → ℕ
unfolding build_pseudo_header
pseudo_init src dst len = 65535 - cksum16 (build_pseudo_header src dst len) 0

-- The header up to the checksum; 80 is the length of five words in the upper four bits.
unfoldable pub hdr_head : ℕ → ℕ → ℕ → ℕ → ℕ → ℕ → List ℕ
hdr_head sport dport seq ack flg wnd =
    to_be16 sport ++ (to_be16 dport ++ (to_be32 seq ++ (to_be32 ack ++ (80 ∷ flg ∷ to_be16 wnd))))

-- The buffer of `output_segment`.
unfoldable pub build_segment : ℕ → ℕ → ℕ → ℕ → List ℕ → IpEndp → IpEndp → List ℕ
unfolding hdr_head pseudo_init
build_segment seq ack flg wnd payload local remote =
    let head = hdr_head local.port remote.port seq ack flg wnd in
    let init = pseudo_init local.addr remote.addr (u16 (tcp_hdr_size + length payload)) in
    let sum = cksum16 (head ++ 0 ∷ 0 ∷ 0 ∷ 0 ∷ payload) init in
    head ++ (to_ne16 sum ++ 0 ∷ 0 ∷ payload)

-- The number of bytes sent, unless the layer below refuses the packet.
unfoldable pub output_segment : ℕ → ℕ → ℕ → ℕ → List ℕ → IpEndp → IpEndp → Net → Option ℕ × Net
unfolding build_segment
output_segment seq ack flg wnd payload local remote n =
    let (sent, n') =
      output ip_protocol_tcp (build_segment seq ack flg wnd payload local remote) local.addr
        remote.addr n in
    (if sent then some (length payload) else none, n')

-- The accessors of `TcpHdr`.
abbrev pub hdr_src : List ℕ → ℕ
hdr_src seg = from_be16 (byte_at seg 0) (byte_at seg 1)

abbrev pub hdr_dst : List ℕ → ℕ
hdr_dst seg = from_be16 (byte_at seg 2) (byte_at seg 3)

abbrev pub hdr_seq : List ℕ → ℕ
hdr_seq seg = from_be32 (byte_at seg 4) (byte_at seg 5) (byte_at seg 6) (byte_at seg 7)

abbrev pub hdr_ack : List ℕ → ℕ
hdr_ack seg = from_be32 (byte_at seg 8) (byte_at seg 9) (byte_at seg 10) (byte_at seg 11)

abbrev pub hdr_len : List ℕ → ℕ
hdr_len seg = byte_at seg 12 / 16 * 4

abbrev pub hdr_flg : List ℕ → ℕ
hdr_flg seg = byte_at seg 13

abbrev pub hdr_wnd : List ℕ → ℕ
hdr_wnd seg = from_be16 (byte_at seg 14) (byte_at seg 15)

abbrev pub hdr_up : List ℕ → ℕ
hdr_up seg = from_be16 (byte_at seg 18) (byte_at seg 19)

-- What `input` makes of a packet: it is dropped, it panics, or it is handed on. It panics where the
-- header is longer than the packet (a subtraction and a slice), and where it is shorter than 20
-- bytes (the subtraction in `print`, with overflow checks).
pub data Parsed : Type 0 where
  dropped panics : Parsed
  arrived : SegInfo → ℕ → List ℕ → IpEndp → IpEndp → Parsed

unfoldable pub seg_len : List ℕ → ℕ
seg_len seg =
    length seg
    - hdr_len seg
    + (if flag_isset (hdr_flg seg) syn then 1 else 0)
    + (if flag_isset (hdr_flg seg) fin then 1 else 0)

-- `input`, up to the call of `segment_arrives`; the last two endpoints are its local and remote.
unfoldable pub parse : IpAddr → IpAddr → IpIface → List ℕ → Parsed
unfolding seg_len pseudo_init
parse src dst iface seg =
    let info : SegInfo = record {
      seq = hdr_seq seg;
      ack = hdr_ack seg;
      len = seg_len seg;
      wnd = hdr_wnd seg;
      up = hdr_up seg;
    } in
    if ltb (length seg) tcp_hdr_size
    then dropped
    else if not (cksum16 seg (pseudo_init src dst (u16 (length seg))) == 0)
    then dropped
    else if addr_eq src broadcast_addr
        || (addr_eq src iface.broadcast
            || (addr_eq dst broadcast_addr || addr_eq dst iface.broadcast))
    then dropped
    else if ltb (hdr_len seg) tcp_hdr_size || ltb (length seg) (hdr_len seg)
    then panics
    else arrived info (hdr_flg seg) (drop (hdr_len seg) seg)
        (record { addr = dst; port = hdr_dst seg }) (record { addr = src; port = hdr_src seg })
