-- ===== src/Explore/Layout/Columns.antt =====
-- Columns of children and parents on the screen of src/commands/wallet/tree/explore.rs.
use zcash_devtool_sqlx.Base.{
  ℕ, ◌+◌, ◌*◌, ◌/◌, ◌%◌, ◌^◌, ◌==◌, ◌≡◌, ap, Bool, true, false, arith, if◌then◌else◌,
}
use zcash_devtool_sqlx.Base.Int.{pos, sub_ℕ, ◌+ℤ◌, ◌-ℤ◌}

pub left_of :
    (i n : ℕ)
    → sub_ℕ (20 * (2 * i + 1)) (20 * (2 * n + 1)) -ℤ pos 10
      ≡ sub_ℕ (10 * (2 * (2 * i) + 1) * 2 ^ 0) (20 * (2 * n + 1))
unfolding ◌-ℤ◌
left_of i n = ground arith

pub right_of :
    (i n : ℕ)
    → sub_ℕ (20 * (2 * i + 1)) (20 * (2 * n + 1)) +ℤ pos 10
      ≡ sub_ℕ (10 * (2 * (2 * i + 1) + 1) * 2 ^ 0) (20 * (2 * n + 1))
unfolding ◌+ℤ◌
right_of i n = ground arith

pub twice : (i m : ℕ) → sub_ℕ (20 * (2 * i + 1)) m ≡ sub_ℕ (10 * (2 * i + 1) * 2 ^ 1) m
twice i m = ap (λ t. sub_ℕ t m) (omega arith)

pub four_times : (i m : ℕ) → sub_ℕ (40 * (2 * i + 1)) m ≡ sub_ℕ (10 * (2 * i + 1) * 2 ^ 2) m
four_times i m = ap (λ t. sub_ℕ t m) (omega arith)

-- The column of a parent, from that of its left or right child's parent.
pub above :
    (i n : ℕ) (left : Bool)
    → (i % 2 == 0) ≡ left
    → (if left
        then sub_ℕ (40 * (2 * i + 1)) (20 * (2 * n + 1)) +ℤ pos 40
        else sub_ℕ (40 * (2 * i + 1)) (20 * (2 * n + 1)) -ℤ pos 40)
      ≡ sub_ℕ (10 * (2 * (i / 2) + 1) * 2 ^ 3) (20 * (2 * n + 1))
unfolding ◌+ℤ◌ ◌-ℤ◌
above i n true h = ground arith
above i n false h = ground arith

pub same_column : (i : ℕ) → pos 0 ≡ sub_ℕ (20 * (2 * i + 1)) (20 * (2 * i + 1))
same_column i = ground arith
