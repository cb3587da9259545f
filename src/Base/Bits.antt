-- ===== src/Base/Bits.antt =====
-- The lowest bit of `&` and `|`, which is the flag `UP` of a device.
use Prim.Native.Nat.{
  ℕ, zero, suc, ◌/◌, ◌%◌, min, digits, bit_and, bit_or, bit_and-bitwise, bit_or-bitwise,
}
use mathlib.Core.Path.{◌≡◌, refl}
use native.Mathlib.Omega.{arith}

digits-zero : (n a : ℕ) → digits (λ b. zero) min n a 0 ≡ 0
digits-zero zero a = refl
digits-zero (suc n) zero = refl
digits-zero (suc n) (suc a) = omega (arith, digits-zero n (suc a / 2))

pub bit_and-one : (a : ℕ) → bit_and a 1 ≡ a % 2
bit_and-one zero = simp bit_and-bitwise (omega arith)
bit_and-one (suc a) = simp bit_and-bitwise (omega (arith, digits-zero a (suc a / 2)))

pub bit_and-mask : (a : ℕ) → bit_and a 65534 % 2 ≡ 0
bit_and-mask zero = refl
bit_and-mask (suc a) = simp bit_and-bitwise (omega arith)

pub bit_or-one : (a : ℕ) → bit_or a 1 % 2 ≡ 1
bit_or-one zero = refl
bit_or-one (suc a) = simp bit_or-bitwise (omega arith)
