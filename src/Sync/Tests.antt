-- ===== src/Sync/Tests.antt =====
-- A small wallet, server and range type for src/commands/wallet/sync.rs, and runs on them.
use zcash_devtool_sqlx.Base.{
  ℕ, zero, suc, ◌+◌, ◌-◌, ◌≤◌, ◌<◌, ◌≡◌, ◌↔◌, ◌⊎◌, true, false, Option, none, some, List, [], ◌∷◌,
  ok, refl, arith, ltb, leb, inl, inr, subst, if◌then◌else◌,
}
use zcash_devtool_sqlx.Protocol.{
  ScanPriority, ignored, scanned, historic, open_adjacent, found_note, chain_tip, verify,
}
use zcash_devtool_sqlx.Sync.Range.{Ranges}
use zcash_devtool_sqlx.Sync.Batch.{batches, Tiles, batches_tile}
use zcash_devtool_sqlx.Sync.World.{World, Event, CompactBlock, scan_ok}
use zcash_devtool_sqlx.Sync.Running.{running}
use zcash_devtool_sqlx.Sync.Steps.{rewind}
use zcash_devtool_sqlx.Base.Effects.Ends.{EndsAt}
use zcash_devtool_sqlx.Sync.Cache.{Listed, AllFrom, Cache, IsRewound, OnlyRemoves, IsCut}
use zcash_devtool_sqlx.Sync.Rewind.{rewind-IsRewound}
use zcash_devtool_sqlx.Sync.Order.{IsOrdered}
use zcash_devtool_sqlx.Sync.Order.Passes.{running-IsOrdered}

pub record Span : Type 0 where
  pub from : ℕ
  pub to : ℕ
  pub priority : ScanPriority

abbrev cut : Span → ℕ → Option (Span × Span)
cut r h = elim (ltb r.from h) [
  | true ↦ elim (ltb h r.to) [
    | true ↦ some (
      record { from = r.from; to = h; priority = r.priority },
      record { from = h; to = r.to; priority = r.priority },
    )
    | false ↦ none
  ]
  | false ↦ none
]

cut-none : (r : Span) (h : ℕ) → cut r h ≡ none → (h ≤ r.from) ⊎ (r.to ≤ h)
cut-none r h e = ground arith

cut-some :
    (r : Span) (h : ℕ) {cur next : Span}
    → cut r h ≡ some (cur, next)
    → (r.from < h)
      × (h < r.to)
      × (cur.from ≡ r.from)
      × (cur.to ≡ h)
      × (cur.priority ≡ r.priority)
      × (next.from ≡ h)
      × (next.to ≡ r.to)
      × (next.priority ≡ r.priority)
cut-some r h e = ground arith

leb_iff : (r : Span) → (leb r.to r.from ≡ true) ↔ (r.to ≤ r.from)
leb_iff r = ground arith

abbrev place : ScanPriority → ℕ
place ignored = 0
place scanned = 1
place historic = 2
place open_adjacent = 3
place found_note = 4
place chain_tip = 5
place verify = 6

abbrev spans : Ranges
spans = record {
  ScanRange = Span;
  start = Span.from;
  stop = Span.to;
  priority = Span.priority;
  from_parts = λ a b p. record { from = a; to = b; priority = p };
  is_empty = λ r. leb r.to r.from;
  split_at = cut;
  add_height = ◌+◌;
  sub_height = ◌-◌;
  len = λ r. r.to - r.from;
  rank = place;
  start-from_parts = λ a b p h. refl;
  stop-from_parts = λ a b p h. refl;
  is_empty_iff = leb_iff;
  split_at_none = cut-none;
  split_at_some = cut-some;
  add_height_exact = λ a b h. refl;
}

abbrev Effect : Type 0
Effect = Event Span ℕ

-- How many scans there were.
abbrev scans : List Effect → ℕ
scans [] = 0
scans (Event.scanned r ∷ t) = 1 + scans t
scans (_ ∷ t) = scans t

abbrev span : ℕ → ℕ → ScanPriority → Span
span a b p = record { from = a; to = b; priority = p }

-- First a range to verify, then two to scan.
abbrev suggested_after : ℕ → List Span
suggested_after zero = span 100 102 verify ∷ span 0 25_000 historic ∷ []
suggested_after (suc n) = span 0 25_000 historic ∷ []

abbrev block_at : ℕ → CompactBlock
block_at h = record { height = h; hash = h ∷ []; time = 7; vtx = (1, 2) ∷ (3, 4) ∷ [] }

-- A wallet that verifies a range, then scans; the server has one block of each range.
abbrev wallet : World
wallet = record {
  ranges = spans;
  Error = ℕ;
  Account = ℕ;
  Address = ℕ;
  Reply = ℕ;
  Output = ℕ;
  ChainState = ℕ;
  invalid_amount = 1;
  has_tui = true;
  tui_gone = λ _. false;
  shutdown_requested = λ _. false;
  get_latest_block = λ _. ok 110;
  put_chain_tip = λ _ _. ok tt;
  get_wallet_summary = λ _. ok tt;
  get_account_ids = λ _. ok (0 ∷ []);
  get_receivers = λ _ _. ok (5 ∷ []);
  get_utxos = λ _ _. ok (ok 9 ∷ []);
  to_output = ok;
  put_utxo = λ _ _. ok tt;
  suggest = λ t. ok (suggested_after (scans t));
  get_block_range = λ _ a _. ok (ok (block_at a) ∷ []);
  create_file = λ _ _. ok tt;
  write_file = λ _ _. ok tt;
  write_metadata = λ _ _. ok tt;
  get_tree_state = λ _ h. ok h;
  scan_cached = λ _ _ _ _. scan_ok;
  truncate_wallet = λ _ _. ok tt;
  cached_from = λ _ _. ok [];
  remove_file = λ _ _. ok tt;
  truncate_cache = λ _ _. ok tt;
  join = λ _ _. ok tt;
}

batches_tile_example :
    (bs : List Span) × (batches spans 25_001 (span 0 25_000 historic) ≡ some bs)
    × Tiles spans historic 0 25_000 bs
batches_tile_example =
    batches_tile spans 25_001 (span 0 25_000 historic) (omega arith) (omega arith) (omega arith)

running-IsOrdered_example : IsOrdered wallet (running wallet 3 []).1
running-IsOrdered_example = running-IsOrdered wallet 3 [] tt

abbrev first_blocks : List CompactBlock
first_blocks = block_at 14 ∷ block_at 15 ∷ block_at 16 ∷ block_at 17 ∷ []

abbrev at_least : ℕ → List CompactBlock → List CompactBlock
at_least low [] = []
at_least low (block ∷ rest) =
    let more = at_least low rest in if leb low block.height then block ∷ more else more

-- The same wallet, with four blocks in the cache.
abbrev cached : World
cached = record wallet { cached_from = λ _ low. ok (at_least low first_blocks) }

at_least-AllFrom : (low : ℕ) (blocks : List CompactBlock) → AllFrom low (at_least low blocks)
at_least-AllFrom low [] = tt
at_least-AllFrom low (block ∷ rest) = ground (arith, at_least-AllFrom low rest)

at_least-Listed :
    (low : ℕ) (blocks : List CompactBlock) (h : ℕ) (hash : List ℕ)
    → Listed blocks h hash
    → low ≤ h
    → Listed (at_least low blocks) h hash
at_least-Listed low [] h hash l k = absurd l
at_least-Listed low (block ∷ rest) h hash (inl e) k =
    let yes : leb low block.height ≡ true = ground (arith, e.0, k) in rw yes (inl e)
at_least-Listed low (block ∷ rest) h hash (inr l) k =
    ground (arith, at_least-Listed low rest h hash l k)

cached_from-Listed :
    (low : ℕ) (blocks : List CompactBlock)
    → at_least low first_blocks ≡ blocks
    → AllFrom low blocks
      × ((h : ℕ) (hash : List ℕ) → Listed first_blocks h hash → low ≤ h → Listed blocks h hash)
cached_from-Listed low blocks e =
    subst
      (λ bs.
        AllFrom low bs
        × ((h : ℕ) (hash : List ℕ) → Listed first_blocks h hash → low ≤ h → Listed bs h hash))
      e (at_least-AllFrom low first_blocks, at_least-Listed low first_blocks)

abbrev NotRemoved : List Effect → ℕ → List ℕ → Type 0
NotRemoved [] h hash = Unit
NotRemoved (Event.file_removed a b ∷ t) h hash = NotRemoved t h hash × ¬ ((a ≡ h) × (b ≡ hash))
NotRemoved (_ ∷ t) h hash = NotRemoved t h hash

abbrev NotTruncated : List Effect → ℕ → Type 0
NotTruncated [] h = Unit
NotTruncated (Event.cache_truncated a ∷ t) h = NotTruncated t h × (h ≤ a)
NotTruncated (_ ∷ t) h = NotTruncated t h

abbrev four_blocks : Cache cached
four_blocks = record {
  HasFile = λ t h hash. Listed first_blocks h hash × NotRemoved t h hash;
  IsCached = λ t h hash. Listed first_blocks h hash × NotTruncated t h;
  HasFile-wallet_truncated = λ t a h hash. (λ f. f, λ f. f);
  HasFile-cache_truncated = λ t a h hash. (λ f. f, λ f. f);
  HasFile-file_removed = λ t a b h hash. (λ (l, (f, n)). ((l, f), n), λ ((l, f), n). (l, (f, n)));
  IsCached-wallet_truncated = λ t a h hash. (λ c. c, λ c. c);
  IsCached-file_removed = λ t a b h hash. (λ c. c, λ c. c);
  IsCached-cache_truncated = λ t a h hash. (λ (l, (c, n)). ((l, c), n), λ ((l, c), n). (l, (c, n)));
  cached_from-Listed = λ t low blocks e.
      let (above, listed) = cached_from-Listed low blocks (ground (arith, e)) in
      (above, λ h hash (l, _) k. listed h hash l k);
}

rewind-IsRewound_example :
    EndsAt
      (λ b t'. (b ≡ true) × IsRewound cached four_blocks 15 [] t' × IsCut cached 15 t')
      (OnlyRemoves cached four_blocks 15 [])
      (rewind cached 25 [])
rewind-IsRewound_example =
    rewind-IsRewound cached four_blocks 25 [] (omega arith) (λ h hash (l, _). (l, tt))
