-- ===== src/Sync/Order.antt =====
-- The order in which one pass downloads, fetches the chain state, and scans.
pub mod Passes
use zcash_devtool_sqlx.Base.{
  ℕ, zero, suc, ◌≡◌, refl, Bool, true, false, Option, none, some, List, [], ◌∷◌, Result,
}
use zcash_devtool_sqlx.Base.Effects.{Run, ◌>>=◌, ◌>>◌, pure, call}
use zcash_devtool_sqlx.Base.Effects.Ends.{
  Ends, Ends-pure, Ends-bind, Ends-see, Ends-emit, Ends-call, Ends-if,
}
use zcash_devtool_sqlx.Base.Effects.Keeps.{
  Keeps, keeps_rules, Keeps-bind, Keeps-lift, Keeps-pure, Keeps-if, Keeps-ask, Keeps-call,
}
use zcash_devtool_sqlx.Sync.World.{
  World, Step, History, Message, CompactBlock, BlockMeta, ScanOutcome, scan_ok, continuity_error,
  scan_failed, utxo_put, polled, sent, metadata_written, state_fetched, scanned,
}
use zcash_devtool_sqlx.Sync.Quiet.{IsQuiet, send-Keeps, requested-Keeps}
use zcash_devtool_sqlx.Sync.Steps.{
  requested, send, send_summary, suggest_scan_ranges, update_chain_tip, put_utxos, request_utxos,
  refresh_utxos, refresh_accounts, fetch_one, fetch_blocks, download_blocks, download_chain_state,
  delete_cached_blocks, await_deletions, remove_blocks, rewind, after_scan, scan_blocks,
}

module _ (w : World) where
  open w use {ranges, shutdown_requested}
  open ranges use {ScanRange, start, sub_height}

  -- Messages to the interface aside, the last effect was the write of downloaded metadata.
  abbrev pub AfterWrite : History w → Type 0
  AfterWrite (metadata_written m ∷ t) = Unit
  AfterWrite (sent m ∷ t) = AfterWrite t
  AfterWrite _ = ⊥

  -- Before that, a poll that found no request to shut down.
  abbrev pub AfterPoll : History w → Type 0
  AfterPoll (polled ∷ t) = (shutdown_requested t ≡ false) × AfterWrite t
  AfterPoll (sent m ∷ t) = AfterPoll t
  AfterPoll _ = ⊥

  -- Before that, the chain state at a height.
  abbrev pub AfterState : ℕ → History w → Type 0
  AfterState h (state_fetched h' ∷ t) = (h' ≡ h) × AfterPoll t
  AfterState h (sent m ∷ t) = AfterState h t
  AfterState h _ = ⊥

  -- Each scan of a range stands behind the chain state of the block before the range, a poll that
  -- found no request to shut down, and the write of downloaded metadata, with nothing but messages
  -- to the interface between them.
  abbrev pub IsOrdered : History w → Type 0
  IsOrdered [] = Unit
  IsOrdered (scanned r ∷ t) = AfterState (sub_height (start r) 1) t × IsOrdered t
  IsOrdered (_ ∷ t) = IsOrdered t

  pub IsOrdered-IsQuiet : IsQuiet w IsOrdered
  IsOrdered-IsQuiet = record {
    tip = λ _ _ h. h;
    utxo = λ _ _ h. h;
    suggested = λ _ _ h. h;
    poll = λ _ h. h;
    message = λ _ _ h. h;
    wallet_cut = λ _ _ h. h;
    removed = λ _ _ _ h. h;
    cache_cut = λ _ _ h. h;
    spawned = λ _ _ h. h;
  }

  fetch_one-IsOrdered :
      (block : CompactBlock) (rest : Step w (List BlockMeta))
      → Keeps IsOrdered rest
      → Keeps IsOrdered (fetch_one w block rest)
  unfolding fetch_one
  fetch_one-IsOrdered block rest h = Keeps-bind _ _ (Keeps-call _ _ (λ _ p. p)) (λ _.
      Keeps-bind _ _ (Keeps-ask _) (λ _. Keeps-bind _ _ (send-Keeps w IsOrdered-IsQuiet _) (λ _.
        Keeps-bind _ _ (requested-Keeps w IsOrdered-IsQuiet)
          (λ quit. Keeps-if quit _ _ (Keeps-pure _) (Keeps-bind _ _ h (λ _. Keeps-pure _))))))

  pub fetch_blocks-IsOrdered :
      (stream : List (Result w.Error CompactBlock)) → Keeps IsOrdered (fetch_blocks w stream)
  unfolding fetch_blocks
  fetch_blocks-IsOrdered [] = Keeps-pure _
  fetch_blocks-IsOrdered (answer ∷ rest) =
      Keeps-bind _ _ (Keeps-lift answer)
        (λ block. fetch_one-IsOrdered block _ (fetch_blocks-IsOrdered rest))

  pub await-IsOrdered : (l : List (List BlockMeta)) → Keeps IsOrdered (await_deletions w l)
  unfolding await_deletions
  await-IsOrdered [] = Keeps-pure _
  await-IsOrdered (x ∷ xs) = Keeps-bind _ _ (search keeps_rules) (λ _. await-IsOrdered xs)
