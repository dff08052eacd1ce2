-- ===== src/Sync/Range.antt =====
-- Scan ranges, which are a type of the `zcash_client_backend` crate: an interface with the
-- behaviour that its documentation states.
use zcash_devtool_sqlx.Base.{ℕ, ◌+◌, ◌^◌, ◌≤◌, ◌<◌, ◌≡◌, ◌↔◌, ◌⊎◌, Bool, true, Option, none, some}
use zcash_devtool_sqlx.Protocol.{ScanPriority}

pub record Ranges : Type 1 where
  pub ScanRange : Type 0
  pub start : ScanRange → ℕ
  pub stop : ScanRange → ℕ
  pub priority : ScanRange → ScanPriority
  pub from_parts : ℕ → ℕ → ScanPriority → ScanRange
  pub is_empty : ScanRange → Bool
  -- Both halves, if the height lies strictly inside the range.
  pub split_at : ScanRange → ℕ → Option (ScanRange × ScanRange)
  -- A block height and an offset, which may not fit in 32 bits.
  pub add_height : ℕ → ℕ → ℕ
  -- A block height less an offset, which may be larger.
  pub sub_height : ℕ → ℕ → ℕ
  -- The number of blocks that a scan is asked for.
  pub len : ScanRange → ℕ
  -- The order of priorities.
  pub rank : ScanPriority → ℕ
  pub start-from_parts : (a b : ℕ) (p : ScanPriority) → a ≤ b → start (from_parts a b p) ≡ a
  pub stop-from_parts : (a b : ℕ) (p : ScanPriority) → a ≤ b → stop (from_parts a b p) ≡ b
  pub is_empty_iff : (r : ScanRange) → (is_empty r ≡ true) ↔ (stop r ≤ start r)
  pub split_at_none : (r : ScanRange) (h : ℕ) → split_at r h ≡ none → (h ≤ start r) ⊎ (stop r ≤ h)
  pub split_at_some :
      (r : ScanRange) (h : ℕ) {cur next : ScanRange}
      → split_at r h ≡ some (cur, next)
      → (start r < h)
        × (h < stop r)
        × (start cur ≡ start r)
        × (stop cur ≡ h)
        × (priority cur ≡ priority r)
        × (start next ≡ h)
        × (stop next ≡ stop r)
        × (priority next ≡ priority r)
  pub add_height_exact : (a b : ℕ) → a + b < 2 ^ 32 → add_height a b ≡ a + b
