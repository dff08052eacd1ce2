-- ===== src/Block/Target/Value.antt =====
-- The number that a compact target stands for, independent of the width of a word.
use native.Mathlib.Nat.{pow-suc, pow-le-pow_right, mul-div_cancel_left, mul-le-mul, mul_left_comm}
use native.Mathlib.Decide.{dec_le}
use native.Mathlib.Nat.{mod-eq_of_lt}
use native.Mathlib.Numerals.{towards_suc}
use zcash_devtool_sqlx.Base.{
  ℕ, zero, suc, ◌+◌, ◌-◌, ◌*◌, ◌/◌, ◌^◌, ◌≤◌, ◌<◌, ◌≡◌, refl, true, false, arith, ◌∙◌, ap, ◌⊎◌, inl,
  inr, ◌↔◌, leb,
}
use zcash_devtool_sqlx.Block.Target.{Shift, overflows, shifted}

-- A floating-point number in base 256: `word * 256 ^ (size - 3)`, rounded down.
abbrev pub value : ℕ → ℕ → ℕ
value word size = word * 256 ^ size / 2 ^ 24

pow_split : (n : ℕ) → 256 ^ n ≡ 2 ^ (8 * n)
pow_split zero = refl
pow_split (suc n) =
    let e : 8 * suc n ≡ 8 * n + 8 = omega arith in
    rw e (simp (towards_suc, pow-suc) (omega (arith, pow_split n)))

pow-add_three : (n : ℕ) → 256 ^ (n + 3) ≡ 2 ^ 24 * 2 ^ (8 * n)
pow-add_three n = simp (towards_suc, pow-suc) (omega (arith, pow_split n))

-- Above size 3 the value is a left shift.
value_shl : (w n : ℕ) → value w (n + 3) ≡ w * 2 ^ (8 * n)
value_shl w n =
    ap (λ p. w * p / 2 ^ 24) (pow-add_three n)
    ∙ rw (mul_left_comm w (2 ^ 24) (2 ^ (8 * n)))
        (mul-div_cancel_left (w * 2 ^ (8 * n)) (omega arith))

value_shr : (w n : ℕ) → n ≤ 3 → value w n ≡ w / 2 ^ (8 * (3 - n))
value_shr w zero h = omega arith
value_shr w (suc zero) h = omega arith
value_shr w (suc (suc zero)) h = omega arith
value_shr w (suc (suc (suc zero))) h = omega arith
value_shr w (suc (suc (suc (suc n)))) h = omega arith

shl_mono : (w n b k : ℕ) → w ≤ b → n ≤ k → w * 2 ^ (8 * n) ≤ b * 2 ^ (8 * k)
shl_mono w n b k h j = mul-le-mul h (pow-le-pow_right (omega arith) (omega arith))

-- Words and shifts that are not flagged fit in 256 bits.
pub fits : (w n : ℕ) → w < 2 ^ 23 → overflows w (n + 3) ≡ false → w * 2 ^ (8 * n) < 2 ^ 256
unfolding overflows
fits zero n hw h = omega arith
fits (suc w) n hw h = ground (
  arith,
  shl_mono (suc w) n (2 ^ 23) 29,
  shl_mono (suc w) n 0xffff 30,
  shl_mono (suc w) n 0xff 31,
)

-- Words and shifts that are flagged do not.
pub spills : (w n : ℕ) → overflows w (n + 3) ≡ true → 2 ^ 256 ≤ w * 2 ^ (8 * n)
unfolding overflows
spills w n h = ground (arith, shl_mono 1 32 w n, shl_mono 256 31 w n, shl_mono 65536 30 w n)

value_small : (w n : ℕ) → n ≤ 3 → w < 2 ^ 23 → value w n < 2 ^ 256
value_small w zero h hw = omega arith
value_small w (suc zero) h hw = omega arith
value_small w (suc (suc zero)) h hw = omega arith
value_small w (suc (suc (suc zero))) h hw = omega arith
value_small w (suc (suc (suc (suc n)))) h hw = omega arith

no_overflow_small : (w n : ℕ) → n ≤ 3 → overflows w n ≡ false
unfolding overflows
no_overflow_small w n h = ground arith

size-cases : (n : ℕ) → (n ≤ 3) ⊎ ((k : ℕ) × (0 < k) × (n ≡ k + 3))
size-cases n = elim (dec_le n 3) [ yes h ↦ inl h | no h ↦ inr (n - 3, omega arith, omega arith) ]

-- The flag is the exact test that the value needs more than 256 bits.
pub overflows_iff : (w n : ℕ) → w < 2 ^ 23 → (overflows w n ≡ true) ↔ (2 ^ 256 ≤ value w n)
overflows_iff w n hw = elim (size-cases n) [
  | inl small ↦ ground (arith, no_overflow_small w n small, value_small w n small hw)
  | inr (k, _, e) ↦ rw e (rw (value_shl w k) (ground (arith, spills w k, fits w k hw)))
]

shifted_shl : (s : Shift) (w k : ℕ) → 0 < k → shifted s w (k + 3) ≡ s.shl w (8 * k)
unfolding shifted
shifted_shl s w k h = let e : k + 3 - 3 ≡ k = omega arith in rw (e, le_false) refl
  where
    le_false : leb (k + 3) 3 ≡ false
    le_false = ground arith

-- A target that is not flagged is the exact value.
pub shifted_exact :
    (s : Shift) (w n : ℕ) → w < 2 ^ 23 → overflows w n ≡ false → shifted s w n ≡ value w n
unfolding shifted
shifted_exact s w n hw h = elim (size-cases n) [
  | inl small ↦ ground (arith, value_shr w n small)
  | inr (k, pos, e) ↦ rw e (
      rw (value_shl w k)
        (shifted_shl s w k pos ∙ s.shl_lem w (8 * k) ∙ mod-eq_of_lt (fits w k hw (rw e at h))))
]
