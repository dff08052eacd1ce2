-- ===== src/Sync/Quiet.antt =====
-- The steps of a synchronisation that neither scan, nor create a block's file, nor wait for a
-- deletion: they keep each property of the history that their effects keep.
use zcash_devtool_sqlx.Base.{ℕ, List, [], ◌∷◌, Result}
use zcash_devtool_sqlx.Base.Effects.{◌>>◌, call}
use zcash_devtool_sqlx.Base.Effects.Keeps.{
  Keeps, keeps_rules, Keeps-bind, Keeps-lift, Keeps-pure, Keeps-if,
}
use zcash_devtool_sqlx.Sync.World.{
  World, Step, History, Message, CompactBlock, BlockMeta, ScanOutcome, scan_ok, continuity_error,
  scan_failed, tip_updated, utxo_put, ranges_suggested, polled, sent, wallet_truncated,
  file_removed, cache_truncated, deletion_spawned,
}
use zcash_devtool_sqlx.Sync.Steps.{
  requested, send, send_summary, suggest_scan_ranges, update_chain_tip, put_utxos, request_utxos,
  refresh_utxos, refresh_accounts, delete_cached_blocks, remove_blocks, rewind, after_scan,
}
use zcash_devtool_sqlx.Sync.Running.{interrupted}

-- A property that these effects keep.
pub record IsQuiet (w : World) (P : History w → Type 0) : Type 0 where
  pub tip : (h : ℕ) (t : History w) → P t → P (tip_updated h ∷ t)
  pub utxo : (o : w.Output) (t : History w) → P t → P (utxo_put o ∷ t)
  pub suggested : (l : List w.ranges.ScanRange) (t : History w) → P t → P (ranges_suggested l ∷ t)
  pub poll : (t : History w) → P t → P (polled ∷ t)
  pub message : (m : Message w.ranges.ScanRange) (t : History w) → P t → P (sent m ∷ t)
  pub wallet_cut : (h : ℕ) (t : History w) → P t → P (wallet_truncated h ∷ t)
  pub removed : (h : ℕ) (b : List ℕ) (t : History w) → P t → P (file_removed h b ∷ t)
  pub cache_cut : (h : ℕ) (t : History w) → P t → P (cache_truncated h ∷ t)
  pub spawned : (m : List BlockMeta) (t : History w) → P t → P (deletion_spawned m ∷ t)

module _ (w : World) {P : History w → Type 0} (quiet : IsQuiet w P) where
  open w use {ranges}
  open ranges use {ScanRange}

  pub requested-Keeps : Keeps P (requested w)
  unfolding requested
  requested-Keeps = search (keeps_rules, quiet.poll) depth 8

  pub send-Keeps : (m : Message ScanRange) → Keeps P (send w m)
  unfolding send
  send-Keeps m = search (keeps_rules, quiet.message) depth 8

  pub send_summary-Keeps : Keeps P (send_summary w)
  unfolding send_summary
  send_summary-Keeps = search (keeps_rules, send-Keeps) depth 8

  pub suggest-Keeps : Keeps P (suggest_scan_ranges w)
  unfolding suggest_scan_ranges
  suggest-Keeps = search (keeps_rules, quiet.suggested) depth 8

  pub tip-Keeps : Keeps P (update_chain_tip w)
  unfolding update_chain_tip
  tip-Keeps = search (keeps_rules, quiet.tip) depth 8

  pub put_one-Keeps :
      (output : w.Output) (rest : Step w (Unit {0}))
      → Keeps P rest
      → Keeps P (call (λ t. w.put_utxo t output) (utxo_put output) >> rest)
  put_one-Keeps output rest h = search (keeps_rules, quiet.utxo) depth 8

  pub put_utxos-Keeps : (replies : List (Result w.Error w.Reply)) → Keeps P (put_utxos w replies)
  unfolding put_utxos
  put_utxos-Keeps [] = search keeps_rules
  put_utxos-Keeps (answer ∷ rest) = Keeps-bind _ _ (Keeps-lift answer) (λ reply.
      Keeps-bind _ _ (Keeps-lift (w.to_output reply))
        (λ output. put_one-Keeps output _ (put_utxos-Keeps rest)))

  pub request_utxos-Keeps : (addresses : List w.Address) → Keeps P (request_utxos w addresses)
  unfolding request_utxos
  request_utxos-Keeps [] = search keeps_rules
  request_utxos-Keeps (x ∷ xs) =
      search (keeps_rules, requested-Keeps, send-Keeps, send_summary-Keeps, put_utxos-Keeps) depth 8

  pub refresh_accounts-Keeps : (accounts : List w.Account) → Keeps P (refresh_accounts w accounts)
  unfolding refresh_accounts refresh_utxos
  refresh_accounts-Keeps [] = search keeps_rules
  refresh_accounts-Keeps (x ∷ xs) =
      Keeps-bind _ _
        (search (keeps_rules, requested-Keeps, send-Keeps, send_summary-Keeps, request_utxos-Keeps)
          depth 8)
        (λ _. refresh_accounts-Keeps xs)

  pub delete-Keeps : (m : List BlockMeta) → Keeps P (delete_cached_blocks w m)
  unfolding delete_cached_blocks
  delete-Keeps m = search (keeps_rules, quiet.spawned) depth 8

  pub remove-Keeps : (l : List CompactBlock) → Keeps P (remove_blocks w l)
  unfolding remove_blocks
  remove-Keeps [] = search (keeps_rules, quiet.removed)
  remove-Keeps (x ∷ xs) =
      Keeps-bind _ _ (search (keeps_rules, quiet.removed)) (λ _. remove-Keeps xs)

  pub rewind-Keeps : (h : ℕ) → Keeps P (rewind w h)
  unfolding rewind
  rewind-Keeps h =
      search
        (
          keeps_rules, requested-Keeps, send-Keeps, send_summary-Keeps, quiet.wallet_cut,
          quiet.cache_cut, remove-Keeps,
        )
        depth 12

  pub after_scan-Keeps :
      (o : ScanOutcome w.Error) (r : ScanRange) (tip : ℕ) → Keeps P (after_scan w o r tip)
  unfolding after_scan
  after_scan-Keeps scan_ok r tip =
      search (keeps_rules, requested-Keeps, send-Keeps, send_summary-Keeps, suggest-Keeps) depth 8
  after_scan-Keeps (continuity_error h) r tip = rewind-Keeps h
  after_scan-Keeps (scan_failed e) r tip = search keeps_rules

  pub interrupted-Keeps : (found : List ScanRange) (tip : ℕ) → Keeps P (interrupted w found tip)
  unfolding interrupted
  interrupted-Keeps found tip =
      Keeps-bind _ _ (send-Keeps _) (λ gone. Keeps-if gone _ _ (Keeps-pure _) requested-Keeps)
