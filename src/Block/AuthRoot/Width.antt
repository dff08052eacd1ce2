-- ===== src/Block/AuthRoot/Width.antt =====
-- The padded size: the least power of two that holds the leaves.
use native.Mathlib.Nat.{pow-suc, one-le-pow, pow-le-pow_right}
use zcash_devtool_sqlx.Base.{
  ℕ, zero, suc, ◌-◌, ◌*◌, ◌/◌, ◌%◌, ◌^◌, ◌≤◌, ◌<◌, ◌≡◌, refl, some, arith, ◌⊎◌, inl, inr, lt→ltb,
}
use zcash_devtool_sqlx.Block.AuthRoot.{leading_zeros, bit_and, shift_one, next_pow2, node_count}

leading_zeros_le : (w x : ℕ) → leading_zeros w x ≤ w
unfolding leading_zeros
leading_zeros_le zero x = omega arith
leading_zeros_le (suc w) x = grind (arith, leading_zeros_le w x)

low_zeros : (w x : ℕ) → x < 2 ^ w → leading_zeros (suc w) x ≡ suc (leading_zeros w x)
unfolding leading_zeros
low_zeros w x h = ground arith

high_zeros : (w x : ℕ) → 2 ^ w ≤ x → leading_zeros (suc w) x ≡ 0
unfolding leading_zeros
high_zeros w x h = ground arith

le_or_lt : (a b : ℕ) → (a < b) ⊎ (b ≤ a)
le_or_lt a b = ground arith

bits_left : (w x : ℕ) → x < 2 ^ w → suc w - leading_zeros (suc w) x ≡ w - leading_zeros w x
bits_left w x h = rw (low_zeros w x h) (omega arith)

all_bits : (w x : ℕ) → 2 ^ w ≤ x → suc w - leading_zeros (suc w) x ≡ suc w
all_bits w x h = rw (high_zeros w x h) (omega arith)

-- The bits that are left hold the number, and no fewer bits do.
leading_zeros_holds : (w x : ℕ) → x < 2 ^ w → x < 2 ^ (w - leading_zeros w x)
leading_zeros_holds zero x h = unfold leading_zeros in h
leading_zeros_holds (suc w) x h = elim (le_or_lt x (2 ^ w)) [
  | inl l ↦ rw (bits_left w x l) (leading_zeros_holds w x l)
  | inr g ↦ rw (all_bits w x g) h
]

wide_enough : (w x k : ℕ) → x < 2 ^ k → 2 ^ w ≤ x → suc w ≤ k
wide_enough w x k h l = elim (le_or_lt w k) [
  | inl e ↦ e
  | inr e ↦ absurd (omega (arith, pow-le-pow_right {n = 2} (omega arith) e))
]

leading_zeros_least : (w x k : ℕ) → x < 2 ^ k → w - leading_zeros w x ≤ k
leading_zeros_least zero x k h = omega arith
leading_zeros_least (suc w) x k h = elim (le_or_lt x (2 ^ w)) [
  | inl l ↦ rw (bits_left w x l) (leading_zeros_least w x k h)
  | inr g ↦ rw (all_bits w x g) (wide_enough w x k h g)
]

bit_and_zero : (w : ℕ) → bit_and w 0 0 ≡ 0
unfolding bit_and
bit_and_zero zero = refl
bit_and_zero (suc w) = rw (bit_and_zero w) refl

pub bit_and_power : (w k : ℕ) → bit_and w (2 ^ k) (2 ^ k - 1) ≡ 0
unfolding bit_and
bit_and_power zero k = refl
bit_and_power (suc w) zero = rw (bit_and_zero w) refl
bit_and_power (suc w) (suc k) =
    let e : 2 ^ suc k ≡ 2 ^ k * 2 = pow-suc 2 k in
    let p : 1 ≤ 2 ^ k = one-le-pow k 2 (omega arith) in
    let even : 2 ^ suc k % 2 ≡ 0 = omega (arith, e) in
    let half : 2 ^ suc k / 2 ≡ 2 ^ k = omega (arith, e) in
    let below : (2 ^ suc k - 1) / 2 ≡ 2 ^ k - 1 = omega (arith, e, p) in
    rw even (rw half (rw below (rw (bit_and_power w k) (omega arith))))

-- The size for `n` leaves is the least power of two that is not below `n`.
pub next_pow2_lem :
    (n : ℕ)
    → n ≤ 2 ^ 62
    → (k : ℕ) × (k ≤ 62)
      × (next_pow2 n ≡ some (2 ^ k))
      × (n ≤ 2 ^ k)
      × ((m : ℕ) → n ≤ 2 ^ m → k ≤ m)
unfolding next_pow2 shift_one
next_pow2_lem n h =
    let k = 64 - leading_zeros 64 (n - 1) in
    let small : k ≤ 62 = leading_zeros_least 64 (n - 1) 62 (omega arith) in
    let holds : n - 1 < 2 ^ k = leading_zeros_holds 64 (n - 1) (omega arith) in
    (
      k,
      small,
      rw (lt→ltb k 64 (omega (arith, small))) refl,
      omega (arith, holds),
      λ m l. leading_zeros_least 64 (n - 1) m (omega (arith, one-le-pow m 2 (omega arith))),
    )

pub node_count-power : (k : ℕ) → k ≤ 62 → node_count (2 ^ k) ≡ 2 ^ k * 2 - 1
unfolding node_count
node_count-power k h =
    omega (arith, one-le-pow k 2 (omega arith), pow-le-pow_right {n = 2} (omega arith) h)
