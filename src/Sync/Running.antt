-- ===== src/Sync/Running.antt =====
-- `running` of src/commands/wallet/sync.rs: one pass of the synchronisation.
use zcash_devtool_sqlx.Base.{
  ℕ, zero, suc, ◌-◌, Bool, true, false, not, Option, none, some, List, [], ◌∷◌, ◌++◌, if◌then◌else◌,
}
use zcash_devtool_sqlx.Base.Effects.{◌>>=◌, ◌>>◌, pure, ask}
use zcash_devtool_sqlx.Protocol.{ScanPriority, verify}
use zcash_devtool_sqlx.Sync.Batch.{batches}
use zcash_devtool_sqlx.Sync.World.{World, Step, BlockMeta, scan_ranges}
use zcash_devtool_sqlx.Sync.Steps.{
  requested, send, send_summary, suggest_scan_ranges, update_chain_tip, refresh_accounts,
  download_blocks, download_chain_state, delete_cached_blocks, await_deletions, scan_blocks,
}

-- How a loop ends: `running` returns, or goes on with the deletions that were spawned.
pub data LoopEnd (A : Type 0) : Type 0 where
  returns : Bool → LoopEnd A
  goes_on : A → LoopEnd A
  out_of_fuel : LoopEnd A

abbrev pub is_verify : ScanPriority → Bool
is_verify verify = true
is_verify _ = false

module _ (w : World) where
  open w use {ranges, has_tui}
  open ranges use {ScanRange, start, stop, priority, sub_height}

  unfoldable pub scan_range :
      ScanRange → List BlockMeta → ℕ → Step w (Option (Bool × List BlockMeta))
  scan_range r block_meta chain_tip = do
    chain_state ← download_chain_state w (sub_height (start r) 1)
    scan_ranges_updated ← scan_blocks w chain_state r chain_tip
    deletion ← delete_cached_blocks w block_meta
    pure (some (scan_ranges_updated, deletion))

  -- The download and the scan of one range: `none` if a shutdown was requested.
  unfoldable pub process_range : ScanRange → ℕ → Step w (Option (Bool × List BlockMeta))
  process_range r chain_tip = do
    block_meta ← download_blocks w r
    quit ← requested w
    if quit then pure none else scan_range r block_meta chain_tip

  -- Telling the interface of the ranges, and the request to shut down: whether to return.
  unfoldable pub interrupted : List ScanRange → ℕ → Step w Bool
  interrupted found chain_tip = do
    gone ← send w (scan_ranges found chain_tip)
    if gone then pure true else requested w

  -- What follows the scan of a range to verify: `again` goes round the loop.
  unfoldable pub after_verify :
      (List ScanRange → List (List BlockMeta) → Step w (LoopEnd (List (List BlockMeta))))
      → List (List BlockMeta)
      → ℕ
      → Option (Bool × List BlockMeta)
      → Step w (LoopEnd (List (List BlockMeta)))
  after_verify again deletions chain_tip none = pure (returns false)
  after_verify again deletions chain_tip (some (false, deletion)) =
      pure (goes_on (deletions ++ deletion ∷ []))
  after_verify again deletions chain_tip (some (true, deletion)) = do
    found ← suggest_scan_ranges w
    quit ← interrupted found chain_tip
    if quit then pure (returns false) else again found (deletions ++ deletion ∷ [])

  -- Step 6, while the first suggested range is to be verified.
  unfoldable pub verify_loop :
      ℕ → ℕ → List ScanRange → List (List BlockMeta) → Step w (LoopEnd (List (List BlockMeta)))
  verify_loop zero chain_tip found deletions = pure out_of_fuel
  verify_loop (suc fuel) chain_tip [] deletions = pure (goes_on deletions)
  verify_loop (suc fuel) chain_tip (r ∷ rest) deletions =
      if is_verify (priority r)
      then (do
        done ← process_range r chain_tip
        after_verify (verify_loop fuel chain_tip) deletions chain_tip done)
      else pure (goes_on deletions)

  -- The batches of all ranges, each on fuel of one more than its number of blocks.
  unfoldable pub all_batches : List ScanRange → Option (List ScanRange)
  all_batches [] = some []
  all_batches (r ∷ rest) = elim (batches ranges (suc (stop r - start r)) r) [
    | none ↦ none
    | some now ↦ elim (all_batches rest) [ none ↦ none | some later ↦ some (now ++ later) ]
  ]

  -- What follows the scan of a batch: `again` goes on with the next one.
  unfoldable pub after_batch :
      (List (List BlockMeta) → Step w (LoopEnd (List (List BlockMeta))))
      → List (List BlockMeta)
      → Option (Bool × List BlockMeta)
      → Step w (LoopEnd (List (List BlockMeta)))
  after_batch again deletions none = pure (returns false)
  after_batch again deletions (some (updated, deletion)) = do
    quit ← (if updated then pure true else requested w)
    if quit
        then (do
          await_deletions w (deletions ++ deletion ∷ [])
          asked ← requested w
          pure (returns (not asked)))
        else again (deletions ++ deletion ∷ [])

  -- Step 7, over the batches.
  unfoldable pub batch_loop :
      ℕ → List ScanRange → List (List BlockMeta) → Step w (LoopEnd (List (List BlockMeta)))
  batch_loop chain_tip [] deletions = pure (goes_on deletions)
  batch_loop chain_tip (r ∷ rest) deletions = do
    done ← process_range r chain_tip
    after_batch (batch_loop chain_tip rest) deletions done

  -- After the last batch the spawned deletions are awaited.
  unfoldable pub after_batches : LoopEnd (List (List BlockMeta)) → Step w (Option Bool)
  after_batches (returns b) = pure (some b)
  after_batches out_of_fuel = pure none
  after_batches (goes_on spawned) = do await_deletions w spawned; pure (some false)

  unfoldable pub scan_queue :
      List (List BlockMeta) → ℕ → Option (List ScanRange) → Step w (Option Bool)
  scan_queue deletions chain_tip none = pure none
  scan_queue deletions chain_tip (some queue) = do
    ended ← batch_loop chain_tip queue deletions
    after_batches ended

  -- What follows the verification: the rest of the suggested ranges, then the deletions.
  unfoldable pub scan_rest : List (List BlockMeta) → ℕ → Step w (Option Bool)
  scan_rest deletions chain_tip = do
    found ← suggest_scan_ranges w
    quit ← interrupted found chain_tip
    if quit then pure (some false) else scan_queue deletions chain_tip (all_batches found)

  unfoldable pub after_verification : ℕ → LoopEnd (List (List BlockMeta)) → Step w (Option Bool)
  after_verification chain_tip (returns b) = pure (some b)
  after_verification chain_tip out_of_fuel = pure none
  after_verification chain_tip (goes_on deletions) = scan_rest deletions chain_tip

  -- The result tells whether to run again; `none` means that the verification used up its fuel.
  unfoldable pub running : ℕ → Step w (Option Bool)
  running fuel = do
    chain_tip ← update_chain_tip w
    send_summary w
    accounts ← ask w.get_account_ids
    refresh_accounts w accounts
    found ← suggest_scan_ranges w
    quit ← interrupted found chain_tip
    if quit
        then pure (some false)
        else (do ended ← verify_loop fuel chain_tip found []; after_verification chain_tip ended)
