-- ===== src/Sync/World.antt =====
-- What src/commands/wallet/sync.rs talks to: the light wallet server, the wallet database, the
-- block cache, the file system, the terminal interface and the shutdown signal.
-- Every answer is a function of the history of effects, so it may change from one call to the next.
use zcash_devtool_sqlx.Base.{ℕ, Bool, Option, List, Result}
use zcash_devtool_sqlx.Base.Effects.{Run}
use zcash_devtool_sqlx.Sync.Range.{Ranges}

-- The block metadata that the cache stores.
pub record BlockMeta : Type 0 where
  pub height : ℕ
  pub block_hash : List ℕ
  pub block_time : ℕ
  pub sapling_outputs_count : ℕ
  pub orchard_actions_count : ℕ

-- A compact block; of each transaction, how many Sapling outputs and Orchard actions it has.
pub record CompactBlock : Type 0 where
  pub height : ℕ
  pub hash : List ℕ
  pub time : ℕ
  pub vtx : List (ℕ × ℕ)

-- What is sent to the terminal interface.
pub data Message (R : Type 0) : Type 0 where
  scan_ranges : List R → ℕ → Message R
  fetching : Option (ℕ × ℕ) → Message R
  fetched : ℕ → Message R
  scanning : Option (ℕ × ℕ) → Message R
  wallet_summary : Message R

-- An effect of a run.
pub data Event (R U : Type 0) : Type 0 where
  tip_updated : ℕ → Event R U
  utxo_put : U → Event R U
  ranges_suggested : List R → Event R U
  polled : Event R U
  sent : Message R → Event R U
  file_created : BlockMeta → Event R U
  metadata_written : List BlockMeta → Event R U
  state_fetched : ℕ → Event R U
  scanned : R → Event R U
  wallet_truncated : ℕ → Event R U
  file_removed : ℕ → List ℕ → Event R U
  cache_truncated : ℕ → Event R U
  deletion_spawned : List BlockMeta → Event R U
  deletion_awaited : List BlockMeta → Event R U

-- How a scan of cached blocks ends: a continuity error has the height at which it occurred.
pub data ScanOutcome (E : Type 0) : Type 0 where
  scan_ok : ScanOutcome E
  continuity_error : ℕ → ScanOutcome E
  scan_failed : E → ScanOutcome E

pub record World : Type 1 where
  pub ranges : Ranges
  pub Error : Type 0
  pub Account : Type 0
  pub Address : Type 0
  pub Reply : Type 0
  pub Output : Type 0
  pub ChainState : Type 0
  -- `Error::InvalidAmount`
  pub invalid_amount : Error
  -- Whether the terminal interface was asked for, and whether it has gone.
  pub has_tui : Bool
  pub tui_gone : List (Event ranges.ScanRange Output) → Bool
  pub shutdown_requested : List (Event ranges.ScanRange Output) → Bool
  pub get_latest_block : List (Event ranges.ScanRange Output) → Result Error ℕ
  pub put_chain_tip : List (Event ranges.ScanRange Output) → ℕ → Result Error (Unit {0})
  pub get_wallet_summary : List (Event ranges.ScanRange Output) → Result Error (Unit {0})
  pub get_account_ids : List (Event ranges.ScanRange Output) → Result Error (List Account)
  pub get_receivers : List (Event ranges.ScanRange Output) → Account → Result Error (List Address)
  pub get_utxos :
      List (Event ranges.ScanRange Output) → List Address → Result Error (List (Result Error Reply))
  pub to_output : Reply → Result Error Output
  pub put_utxo : List (Event ranges.ScanRange Output) → Output → Result Error (Unit {0})
  pub suggest : List (Event ranges.ScanRange Output) → Result Error (List ranges.ScanRange)
  pub get_block_range :
      List (Event ranges.ScanRange Output) → ℕ → ℕ → Result Error (List (Result Error CompactBlock))
  pub create_file : List (Event ranges.ScanRange Output) → BlockMeta → Result Error (Unit {0})
  pub write_file : List (Event ranges.ScanRange Output) → CompactBlock → Result Error (Unit {0})
  pub write_metadata :
      List (Event ranges.ScanRange Output) → List BlockMeta → Result Error (Unit {0})
  pub get_tree_state : List (Event ranges.ScanRange Output) → ℕ → Result Error ChainState
  pub scan_cached : List (Event ranges.ScanRange Output) → ℕ → ChainState → ℕ → ScanOutcome Error
  pub truncate_wallet : List (Event ranges.ScanRange Output) → ℕ → Result Error (Unit {0})
  pub cached_from : List (Event ranges.ScanRange Output) → ℕ → Result Error (List CompactBlock)
  pub remove_file : List (Event ranges.ScanRange Output) → BlockMeta → Result Error (Unit {0})
  pub truncate_cache : List (Event ranges.ScanRange Output) → ℕ → Result Error (Unit {0})
  pub join : List (Event ranges.ScanRange Output) → List BlockMeta → Result Error (Unit {0})

-- The effects so far, the latest first.
abbrev pub History : World → Type 0
History w = List (Event w.ranges.ScanRange w.Output)

-- A step of the synchronisation.
abbrev pub Step : World → Type 0 → Type 0
Step w A = Run w.Error (Event w.ranges.ScanRange w.Output) A
