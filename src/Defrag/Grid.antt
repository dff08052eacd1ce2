-- ===== src/Defrag/Grid.antt =====
-- The blocks in the cells of the grid that src/commands/wallet/sync/defrag.rs draws.
use native.Mathlib.Nat.{
  mul_assoc, mul_comm, div-add-mod, mod-lt, mod-eq_of_lt, div-lt_iff_lt-mul, mul-add, mul-suc,
  mul-le-mul_left, le-mul_of_pos_right,
}
use zcash_devtool_sqlx.Base.{
  ℕ, zero, suc, ◌+◌, ◌*◌, ◌/◌, ◌%◌, ◌^◌, ◌==◌, ◌≤◌, ◌<◌, ◌≡◌, sym, ap, subst, ◌∙◌, arith, ==_iff,
  Bool-cases, inl, inr,
}
use zcash_devtool_sqlx.Defrag.{div_ceil, cell_start, cell_end, u32}

-- Ceiling division needs no more cells than there are.
div_ceil_lem : (n area : ℕ) → 0 < area → n ≤ area * div_ceil n area
unfolding div_ceil
div_ceil_lem n area h = elim (Bool-cases (n % area == 0)) [
  | inl whole ↦ rw (whole) (omega (arith, div-add-mod n area, (==_iff (n % area) 0).0 whole))
  | inr more ↦ rw (more) (omega (arith, div-add-mod n area, mod-lt n h))
]

u32_small : (n : ℕ) → n < 2 ^ 32 → u32 n ≡ n
u32_small n h = mod-eq_of_lt h

-- The sum of a cell's start does not wrap if its end fits in 32 bits.
start_lem :
    (birthday per width i j : ℕ)
    → birthday + (per * width * j + per * i) < 2 ^ 32
    → per * width < 2 ^ 32
    → cell_start birthday per width i j ≡ birthday + (per * width * j + per * i)
unfolding cell_start
start_lem birthday per width i j fits small =
    rw
      (
        u32_small (per * width) small,
        u32_small (per * width * j) (omega arith),
        u32_small (per * i) (omega arith),
        u32_small (birthday + per * width * j) (omega arith),
      )
      (u32_small (birthday + per * width * j + per * i) (omega arith) ∙ omega arith)

place_lem :
    (x per width : ℕ) → per * width * (x / per / width) + per * (x / per % width) ≡ per * (x / per)
place_lem x per width =
    ap (λ a. a + per * (x / per % width)) (mul_assoc per width (x / per / width))
    ∙ sym (mul-add per (width * (x / per / width)) (x / per % width))
    ∙ ap (λ a. per * a) (div-add-mod (x / per) width)

factor_pos : (a b x : ℕ) → x < a * b → 0 < b
factor_pos a zero x h = absurd (omega (arith, h))
factor_pos a (suc b) x h = omega arith

-- The cell of a block: its place in the numbering of cells by rows, and what follows for its ends.
module _ (birthday per width height x : ℕ) where
  module _ (inside : x < width * height * per)
      (fits : birthday + per * (width * height) < 2 ^ 32) where
    per_pos : 0 < per
    per_pos = factor_pos (width * height) per x inside

    number_small : x / per < width * height
    number_small = (div-lt_iff_lt-mul per_pos).1 inside

    width_pos : 0 < width
    width_pos =
        factor_pos height width (x / per)
          (subst (λ a. x / per < a) (mul_comm width height) number_small)

    row_small : x / per / width < height
    row_small =
        (div-lt_iff_lt-mul width_pos).1
          (subst (λ a. x / per < a) (mul_comm width height) number_small)

    end_small : per * (x / per) + per ≤ per * (width * height)
    end_small = omega (arith, mul-suc per (x / per), mul-le-mul_left per number_small)

    row_fits : per * width < 2 ^ 32
    row_fits = omega (
      arith,
      mul-le-mul_left per (le-mul_of_pos_right {m = height} width (omega (arith, row_small))),
    )

    start_at :
        cell_start birthday per width (x / per % width) (x / per / width)
        ≡ birthday + per * (x / per)
    start_at =
        start_lem birthday per width (x / per % width) (x / per / width)
          (omega (arith, place_lem x per width, end_small, per_pos)) row_fits
        ∙ ap (λ a. birthday + a) (place_lem x per width)

    end_at :
        cell_end birthday per width (x / per % width) (x / per / width)
        ≡ birthday + per * (x / per) + per
    unfolding cell_end
    end_at =
        ap (λ a. u32 (a + per)) start_at
        ∙ u32_small (birthday + per * (x / per) + per) (omega (arith, end_small))

-- Every block from the wallet's birthday on, below the block count, lies in a cell of the grid, for
-- an area with at least one cell (given that no cell of the grid reaches 2 ^ 32).
pub cell_of_block :
    (birthday block_count width height x : ℕ)
    → 0 < width * height
    → birthday + div_ceil block_count (width * height) * (width * height) < 2 ^ 32
    → x < block_count
    → (i : ℕ) × (j : ℕ) × (i < width)
      × (j < height)
      × (cell_start birthday (div_ceil block_count (width * height)) width i j ≤ birthday + x)
      × (birthday + x < cell_end birthday (div_ceil block_count (width * height)) width i j)
cell_of_block birthday block_count width height x area fits h =
    let per = div_ceil block_count (width * height) in
    let inside : x < width * height * per =
      omega (arith, div_ceil_lem block_count (width * height) area) in
    (
      x / per % width,
      x / per / width,
      mod-lt (x / per) (width_pos birthday per width height x inside fits),
      row_small birthday per width height x inside fits,
      omega (arith, start_at birthday per width height x inside fits, div-add-mod x per),
      omega (
        arith,
        end_at birthday per width height x inside fits,
        div-add-mod x per,
        mod-lt x (per_pos birthday per width height x inside fits),
      ),
    )
