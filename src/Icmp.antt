-- ===== src/Icmp.antt =====
-- src/icmp.rs: messages are built and sent, and an echo request is answered.
pub mod Laws
pub mod Print
use microps_rs.Base.{
  ℕ, ◌+◌, Bool, true, false, not, List, [], ◌∷◌, ◌++◌, ltb, ◌==◌, if◌then◌else◌, length, drop,
  byte_at, from_be32, to_be32, to_ne16,
}
use microps_rs.Addr.{IpAddr}
use microps_rs.Util.{cksum16}
use microps_rs.Link.{Net, IpIface}
use microps_rs.Ip.{output as ip_output}

abbrev pub icmp_hdr_size : ℕ
icmp_hdr_size = 8

abbrev pub ip_protocol_icmp : ℕ
ip_protocol_icmp = 1

abbrev pub echo_reply : ℕ
echo_reply = 0

abbrev pub dest_unreach : ℕ
dest_unreach = 3

abbrev pub echo : ℕ
echo = 8

abbrev pub code_proto_unreach : ℕ
code_proto_unreach = 2

abbrev pub code_port_unreach : ℕ
code_port_unreach = 3

unfoldable pub build_message : ℕ → ℕ → ℕ → List ℕ → List ℕ
build_message ty code values payload =
    let tail = to_be32 values ++ payload in
    let sum = cksum16 (ty ∷ code ∷ 0 ∷ 0 ∷ tail) 0 in ty ∷ code ∷ (to_ne16 sum ++ tail)

unfoldable pub output : ℕ → ℕ → ℕ → List ℕ → IpAddr → IpAddr → Net → Bool × Net
unfolding build_message
output ty code values payload src dst n =
    ip_output ip_protocol_icmp (build_message ty code values payload) src dst n

abbrev pub dep : List ℕ → ℕ
dep msg = from_be32 (byte_at msg 4) (byte_at msg 5) (byte_at msg 6) (byte_at msg 7)

-- `input`, for a message from `src`.
unfoldable pub input : IpAddr → List ℕ → IpIface → Net → Net
unfolding output
input src msg iface n =
    if ltb (length msg) icmp_hdr_size
    then n
    else if not (cksum16 msg 0 == 0)
    then n
    else if byte_at msg 0 == echo
    then (output echo_reply 0 (dep msg) (drop icmp_hdr_size msg) iface.unicast src n).1
    else n
