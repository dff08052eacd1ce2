-- ===== src/Sync/Steps.antt =====
-- The calls that `running` is made of, in src/commands/wallet/sync.rs.
use zcash_devtool_sqlx.Base.{
  ℕ, ◌+◌, ◌-◌, ◌%◌, ◌^◌, Bool, true, false, none, some, List, [], ◌∷◌, Result, ltb, if◌then◌else◌,
}
use zcash_devtool_sqlx.Base.Effects.{◌>>=◌, ◌>>◌, pure, raise, lift, ask, see, emit, call}
use zcash_devtool_sqlx.Sync.World.{
  World, Step, Message, BlockMeta, CompactBlock, ScanOutcome, scan_ok, continuity_error,
  scan_failed, scan_ranges, fetching, fetched, scanning, wallet_summary, tip_updated, utxo_put,
  ranges_suggested, polled, sent, file_created, metadata_written, state_fetched, scanned,
  wallet_truncated, file_removed, cache_truncated, deletion_spawned, deletion_awaited,
}

-- `outputs.len() as u32`, summed over the transactions of a block.
unfoldable pub count_outputs : ℕ → List (ℕ × ℕ) → ℕ
count_outputs acc [] = acc
count_outputs acc ((sapling, orchard) ∷ txs) = count_outputs ((acc + sapling % 2 ^ 32) % 2 ^ 32) txs

unfoldable pub count_actions : ℕ → List (ℕ × ℕ) → ℕ
count_actions acc [] = acc
count_actions acc ((sapling, orchard) ∷ txs) = count_actions ((acc + orchard % 2 ^ 32) % 2 ^ 32) txs

unfoldable pub meta_of : CompactBlock → BlockMeta
meta_of block = record {
  height = block.height;
  block_hash = block.hash;
  block_time = block.time;
  sapling_outputs_count = count_outputs 0 block.vtx;
  orchard_actions_count = count_actions 0 block.vtx;
}

-- The metadata by which a cached block's file is found; its counts do not matter for deletion.
unfoldable pub path_meta : CompactBlock → BlockMeta
path_meta block = record {
  height = block.height;
  block_hash = block.hash;
  block_time = block.time;
  sapling_outputs_count = 0;
  orchard_actions_count = 0;
}

module _ (w : World) where
  open w use {ranges, Error, Account, Reply, Output, ChainState}
  open ranges use {ScanRange, start, stop, priority, len, rank, add_height, sub_height}

  -- `shutdown.requested()`
  unfoldable pub requested : Step w Bool
  requested = do answer ← see w.shutdown_requested; emit polled; pure answer

  -- A message to the terminal interface, if there is one; whether that has gone.
  unfoldable pub send : Message ScanRange → Step w Bool
  send m = if w.has_tui then (do gone ← see w.tui_gone; emit (sent m); pure gone) else pure false

  unfoldable pub send_summary : Step w Bool
  send_summary =
      if w.has_tui then (do ask w.get_wallet_summary; send wallet_summary) else pure false

  unfoldable pub suggest_scan_ranges : Step w (List ScanRange)
  suggest_scan_ranges = do found ← ask w.suggest; emit (ranges_suggested found); pure found

  -- A height that does not fit in 32 bits is refused.
  unfoldable pub update_chain_tip : Step w ℕ
  update_chain_tip = do
    height ← ask w.get_latest_block
    if ltb height (2 ^ 32)
        then (do call (λ t. w.put_chain_tip t height) (tip_updated height); pure height)
        else raise w.invalid_amount

  -- The replies are handled one by one, up to the first failure.
  unfoldable pub put_utxos : List (Result Error Reply) → Step w (Unit {0})
  put_utxos [] = pure tt
  put_utxos (answer ∷ rest) = do
    reply ← lift answer
    output ← lift (w.to_output reply)
    call (λ t. w.put_utxo t output) (utxo_put output)
    put_utxos rest

  -- No addresses, no request.
  unfoldable pub request_utxos : List w.Address → Step w (Unit {0})
  request_utxos [] = pure tt
  request_utxos (x ∷ xs) = do replies ← ask (λ t. w.get_utxos t (x ∷ xs)); put_utxos replies

  unfoldable pub refresh_utxos : Account → Step w (Unit {0})
  refresh_utxos account = do
    addresses ← ask (λ t. w.get_receivers t account)
    request_utxos addresses

  unfoldable pub refresh_accounts : List Account → Step w (Unit {0})
  refresh_accounts [] = pure tt
  refresh_accounts (account ∷ rest) = do refresh_utxos account; refresh_accounts rest

  -- One block of the stream, and the `rest` unless a shutdown is requested.
  unfoldable pub fetch_one : CompactBlock → Step w (List BlockMeta) → Step w (List BlockMeta)
  fetch_one block rest = do
    call (λ t. w.create_file t (meta_of block)) (file_created (meta_of block))
    ask (λ t. w.write_file t block)
    send (fetched block.height)
    quit ← requested
    if quit then pure (meta_of block ∷ []) else (do more ← rest; pure (meta_of block ∷ more))

  -- The stream of blocks, up to its end, a failure, or a request to shut down.
  unfoldable pub fetch_blocks : List (Result Error CompactBlock) → Step w (List BlockMeta)
  fetch_blocks [] = pure []
  fetch_blocks (answer ∷ rest) = do block ← lift answer; fetch_one block (fetch_blocks rest)

  unfoldable pub download_blocks : ScanRange → Step w (List BlockMeta)
  download_blocks r = do
    send (fetching (some (start r, stop r)))
    stream ← ask (λ t. w.get_block_range t (start r) (sub_height (stop r) 1))
    block_meta ← fetch_blocks stream
    call (λ t. w.write_metadata t block_meta) (metadata_written block_meta)
    send (fetching none)
    pure block_meta

  unfoldable pub download_chain_state : ℕ → Step w ChainState
  download_chain_state height = call (λ t. w.get_tree_state t height) (state_fetched height)

  -- The task that is spawned; waiting for it comes later.
  unfoldable pub delete_cached_blocks : List BlockMeta → Step w (List BlockMeta)
  delete_cached_blocks block_meta = do emit (deletion_spawned block_meta); pure block_meta

  unfoldable pub await_deletions : List (List BlockMeta) → Step w (Unit {0})
  await_deletions [] = pure tt
  await_deletions (deletion ∷ rest) = do
    call (λ t. w.join t deletion) (deletion_awaited deletion)
    await_deletions rest

  unfoldable pub remove_blocks : List CompactBlock → Step w (Unit {0})
  remove_blocks [] = pure tt
  remove_blocks (block ∷ rest) = do
    call (λ t. w.remove_file t (path_meta block)) (file_removed block.height block.hash)
    remove_blocks rest

  -- The wallet is rewound to ten blocks before the error, and the cache loses what lies above.
  unfoldable pub rewind : ℕ → Step w Bool
  rewind at_height = do
    let rewind_height = at_height - 10
    call (λ t. w.truncate_wallet t rewind_height) (wallet_truncated rewind_height)
    blocks ← ask (λ t. w.cached_from t (add_height rewind_height 1))
    remove_blocks blocks
    call (λ t. w.truncate_cache t rewind_height) (cache_truncated rewind_height)
    pure true

  -- Whether the first of the latest ranges has a higher priority than the one scanned.
  unfoldable pub outranks : List ScanRange → ScanRange → Bool
  outranks [] r = false
  outranks (first ∷ _) r = ltb (rank (priority r)) (rank (priority first))

  unfoldable pub after_scan : ScanOutcome Error → ScanRange → ℕ → Step w Bool
  after_scan (continuity_error at_height) r chain_tip = rewind at_height
  after_scan scan_ok r chain_tip = do
    latest_ranges ← suggest_scan_ranges
    gone ← send (scan_ranges latest_ranges chain_tip)
    if gone then pure false else pure (outranks latest_ranges r)
  after_scan (scan_failed e) r chain_tip = raise e

  unfoldable pub scan_blocks : ChainState → ScanRange → ℕ → Step w Bool
  scan_blocks initial_chain_state r chain_tip = do
    send (scanning (some (start r, stop r)))
    outcome ← see (λ t. w.scan_cached t (start r) initial_chain_state (len r))
    emit (scanned r)
    send (scanning none)
    send_summary
    after_scan outcome r chain_tip
