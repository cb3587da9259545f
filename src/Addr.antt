-- ===== src/Addr.antt =====
-- The addresses of src/ip.rs (`IpAddr`, `IpEndp`): four bytes, compared by their derived `==`.
pub mod Text
pub mod RoundTrip
use microps_rs.Base.{
  ℕ, ◌+◌, ◌≡◌, refl, ◌↔◌, Bool, true, ◌&&◌, List, [], ◌∷◌, arith, ◌==◌, byte_at, IsByte,
}

pub record IpAddr : Type 0 where
  pub o0 : ℕ
  pub o1 : ℕ
  pub o2 : ℕ
  pub o3 : ℕ

abbrev pub any : IpAddr
any = record { o0 = 0; o1 = 0; o2 = 0; o3 = 0 }

abbrev pub broadcast_addr : IpAddr
broadcast_addr = record { o0 = 255; o1 = 255; o2 = 255; o3 = 255 }

-- The derived equality.
unfoldable pub addr_eq : IpAddr → IpAddr → Bool
addr_eq a b = (a.o0 == b.o0) && ((a.o1 == b.o1) && ((a.o2 == b.o2) && (a.o3 == b.o3)))

abbrev pub octets : IpAddr → List ℕ
octets a = a.o0 ∷ a.o1 ∷ a.o2 ∷ a.o3 ∷ []

-- Four bytes of a buffer, from an offset.
abbrev pub addr_at : List ℕ → ℕ → IpAddr
addr_at buf i = record {
  o0 = byte_at buf i;
  o1 = byte_at buf (i + 1);
  o2 = byte_at buf (i + 2);
  o3 = byte_at buf (i + 3);
}

pub record IpEndp : Type 0 where
  pub addr : IpAddr
  pub port : ℕ

pub addr_eq_iff : (a b : IpAddr) → (addr_eq a b ≡ true) ↔ (a ≡ b)
unfolding addr_eq
addr_eq_iff a b = (λ h. ground arith, λ h. ground arith)

pub addr_eq_refl : (a : IpAddr) → addr_eq a a ≡ true
addr_eq_refl a = (addr_eq_iff a a).1 refl

-- Every octet is a byte.
abbrev pub IsAddr : IpAddr → Type 0
IsAddr a = IsByte a.o0 × IsByte a.o1 × IsByte a.o2 × IsByte a.o3
