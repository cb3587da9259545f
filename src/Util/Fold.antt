-- ===== src/Util/Fold.antt =====
-- The carry loop of src/util.rs, `cksum16`.
use microps_rs.Base.{ℕ, ◌+◌, ◌-◌, ◌%◌, ◌<◌, ◌≡◌, refl, arith}
use microps_rs.Util.{fold_carries}

-- What three rounds return lies in 16 bits, is the sum modulo 65535, and is 0 for 0 only.
pub fold_carries_lem :
    (s : ℕ)
    → s < 4294967296
    → (fold_carries 3 s < 65536)
      × (fold_carries 3 s % 65535 ≡ s % 65535)
      × (fold_carries 3 s ≡ 0 → s ≡ 0)
unfolding fold_carries
fold_carries_lem s h = (ground arith, ground arith, ground arith)

-- Two results are equal if they agree modulo 65535 and are 0 together.
fold_carries-eq :
    (s t : ℕ)
    → s < 4294967296
    → t < 4294967296
    → s % 65535 ≡ t % 65535
    → (s ≡ 0 → t ≡ 0)
    → (t ≡ 0 → s ≡ 0)
    → fold_carries 3 s ≡ fold_carries 3 t
fold_carries-eq s t hs ht e p q =
    ground (arith, fold_carries_lem s hs, fold_carries_lem t ht, fold_zero)
  where
    fold_zero : fold_carries 3 0 ≡ 0
    fold_zero = unfold fold_carries in refl

-- Adding the complement of the folded sum fills all 16 bits.
pub fold_carries_complement :
    (t : ℕ) → t + 65535 < 4294967296 → fold_carries 3 (t + (65535 - fold_carries 3 t)) ≡ 65535
fold_carries_complement t h =
    let f = fold_carries_lem t (omega arith) in
    let g = fold_carries_lem (t + (65535 - fold_carries 3 t)) (omega arith) in ground (arith, f, g)

-- A sum may be folded before the rest is added.
pub fold_carries_twice :
    (t w : ℕ)
    → t + w + 65535 < 4294967296
    → fold_carries 3 (fold_carries 3 t + w) ≡ fold_carries 3 (t + w)
fold_carries_twice t w h =
    let f = fold_carries_lem t (omega arith) in
    let zero_too : t ≡ 0 → fold_carries 3 t ≡ 0 = λ e. rw e (unfold fold_carries in refl) in
    fold_carries-eq (fold_carries 3 t + w) (t + w) (omega (arith, f)) (omega arith)
      (omega (arith, f)) (λ e. ground (arith, f)) (λ e. ground (arith, zero_too))
