-- ===== src/Arp/Reads.antt =====
-- What a receiver reads in a packet that src/arp.rs builds.
use microps_rs.Base.{
  ℕ, ◌/◌, ◌%◌, ◌≤◌, ◌<◌, ◌≡◌, refl, true, List, [], ◌∷◌, ◌++◌, arith, length, take, slice, byte_at,
  from_be16, six, length-append, length-take,
}
use microps_rs.Addr.{IpAddr, octets, addr_at}
use microps_rs.Arp.{build_packet, is_ether_ip}

-- What a receiver reads in a packet.
pub record Reads (op : ℕ) (sha : List ℕ) (spa tpa : IpAddr) (buf : List ℕ) : Type 0 where
  pub valid : is_ether_ip buf ≡ true
  pub op_read : from_be16 (byte_at buf 6) (byte_at buf 7) ≡ op
  pub sha_read : slice buf 8 14 ≡ sha
  pub spa_read : addr_at buf 14 ≡ spa
  pub tpa_read : addr_at buf 24 ≡ tpa

pub build_packet-Reads :
    (op : ℕ) (sha tha : List ℕ) (spa tpa : IpAddr) (rest : List ℕ)
    → op < 65536
    → 6 ≤ length sha
    → 6 ≤ length tha
    → Reads op (take 6 sha) spa tpa (build_packet op sha spa tha tpa ++ rest)
unfolding build_packet is_ether_ip
build_packet-Reads op sha tha spa tpa rest lt s t =
    six (λ xs. Reads op xs spa tpa (packet xs (take 6 tha)))
      (λ a b c d e f.
        six
          (λ ys.
            Reads op (a ∷ b ∷ c ∷ d ∷ e ∷ f ∷ []) spa tpa (packet (a ∷ b ∷ c ∷ d ∷ e ∷ f ∷ []) ys))
          (λ a' b' c' d' e' f'. record {
            valid = ground arith;
            op_read = omega arith;
            sha_read = refl;
            spa_read = refl;
            tpa_read = refl;
          })
          tha t)
      sha s
  where
    packet : List ℕ → List ℕ → List ℕ
    packet xs ys =
        (0
          ∷ 1
          ∷ 8
          ∷ 0
          ∷ 6
          ∷ 4
          ∷ op / 256 % 256
          ∷ op % 256
          ∷ (xs
              ++ (spa.o0
                  ∷ spa.o1
                  ∷ spa.o2
                  ∷ spa.o3
                  ∷ (ys ++ tpa.o0 ∷ tpa.o1 ∷ tpa.o2 ∷ tpa.o3 ∷ []))))
        ++ rest

pub length-build_packet :
    (op : ℕ) (sha tha : List ℕ) (spa tpa : IpAddr)
    → 6 ≤ length sha
    → 6 ≤ length tha
    → length (build_packet op sha spa tha tpa) ≡ 28
unfolding build_packet
length-build_packet op sha tha spa tpa s t = omega (
  arith,
  length-append (take 6 sha) (octets spa ++ (take 6 tha ++ octets tpa)),
  length-append (take 6 tha) (octets tpa),
  length-take 6 sha,
  length-take 6 tha,
)
