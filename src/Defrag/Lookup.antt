-- ===== src/Defrag/Lookup.antt =====
-- What the view of src/commands/wallet/sync/defrag.rs knows of the chain's ends after an update.
use zcash_devtool_sqlx.Base.{ℕ, ◌+◌, ◌≡◌, ◌≢◌, ◌∙◌, some, List, []}
use zcash_devtool_sqlx.Protocol.{ignored, scanned}
use zcash_devtool_sqlx.Base.Maps.{lookup, or_some, or_insert, lookup-insert, lookup-insert_other}
use zcash_devtool_sqlx.Defrag.{Range, sort, collect, update_scan_ranges}

-- After an update the height of the mempool is to be ignored, and the wallet's birthday, if it is
-- another height, has the priority that the ranges gave it, or else counts as scanned.
lookup-update_scan_ranges :
    (wallet_birthday : ℕ) (scan_ranges : List Range) (chain_tip : ℕ)
    → wallet_birthday ≢ chain_tip + 1
    → (lookup (chain_tip + 1) (update_scan_ranges wallet_birthday scan_ranges chain_tip)
        ≡ some ignored)
      × (lookup wallet_birthday (update_scan_ranges wallet_birthday scan_ranges chain_tip)
          ≡ some (
              or_some
                (lookup wallet_birthday (collect (chain_tip + 1) (sort scan_ranges) []))
                scanned))
unfolding update_scan_ranges or_insert
lookup-update_scan_ranges wallet_birthday scan_ranges chain_tip h = (
  lookup-insert (chain_tip + 1) ignored _,
  lookup-insert_other wallet_birthday (chain_tip + 1) ignored _ h
      ∙ lookup-insert wallet_birthday _ _,
)
