-- ===== src/Tests/Prints.antt =====
-- The prints of a TCP segment with options, and of one whose header is too long.
use microps_rs.Base.{ℕ, ◌<◌, ◌↔◌, ◌⊎◌, List, [], ◌∷◌, length}
use microps_rs.Tcp.Segment.{hdr_len}
use microps_rs.Ether.Print.{print as print_frame}
use microps_rs.Arp.Print.{print as print_arp}
use microps_rs.Ip.Print.{print as print_packet}
use microps_rs.Icmp.Print.{print as print_icmp}
use microps_rs.Udp.Print.{print as print_datagram}
use microps_rs.Tcp.Print.{print as print_segment}
use microps_rs.Print.Reads.{HasValue}
use microps_rs.Print.Returns.{IsPrintable, print-HasValue}

-- 24 bytes of header: an MSS of 1460.
abbrev with_mss : List ℕ
with_mss =
    31 ∷ 144 ∷ 0 ∷ 7 ∷ 0 ∷ 0 ∷ 35 ∷ 40 ∷ 0 ∷ 0 ∷ 0 ∷ 0 ∷ 96 ∷ 2 ∷ 16 ∷ 0 ∷ 0 ∷ 0 ∷ 0 ∷ 0 ∷ 2 ∷ 4 ∷ 5
    ∷ 180 ∷ []

print-HasValue_example :
    HasValue (print_frame with_mss)
    × HasValue (print_arp with_mss)
    × HasValue (print_packet with_mss)
    × HasValue (print_icmp with_mss)
    × HasValue (print_datagram with_mss)
    × (HasValue (print_segment with_mss)
        ↔ ((length with_mss < 20) ⊎ IsPrintable with_mss (hdr_len with_mss)))
print-HasValue_example = print-HasValue with_mss
