-- ===== src/Sync/Cache.antt =====
-- The block cache that src/commands/wallet/sync.rs keeps, and what a rewind does to it: the metadata is
-- that of the FsBlockDb of zcash_client_sqlite, the blocks are in files.
use zcash_devtool_sqlx.Base.{ℕ, ◌≤◌, ◌≡◌, ◌⊎◌, ◌↔◌, List, [], ◌∷◌, ok}
use zcash_devtool_sqlx.Sync.World.{
  World, History, CompactBlock, wallet_truncated, file_removed, cache_truncated,
}

-- A block of a height and a hash is in a list.
abbrev pub Listed : List CompactBlock → ℕ → List ℕ → Type 0
Listed [] h hash = ⊥
Listed (block ∷ rest) h hash = ((block.height ≡ h) × (block.hash ≡ hash)) ⊎ Listed rest h hash

-- All blocks of a list have a height of at least this.
abbrev pub AllFrom : ℕ → List CompactBlock → Type 0
AllFrom low [] = Unit
AllFrom low (block ∷ rest) = (low ≤ block.height) × AllFrom low rest

-- The block cache and its folder, after each history: the files and the metadata that they hold, what
-- removing a file and truncating the cache do to them, and that the cache lists the blocks from a
-- height up by its metadata.
pub record Cache (w : World) : Type 1 where
  pub HasFile : History w → ℕ → List ℕ → Type 0
  pub IsCached : History w → ℕ → List ℕ → Type 0
  pub HasFile-wallet_truncated :
      (t : History w) (a h : ℕ) (hash : List ℕ)
      → HasFile (wallet_truncated a ∷ t) h hash ↔ HasFile t h hash
  pub HasFile-cache_truncated :
      (t : History w) (a h : ℕ) (hash : List ℕ)
      → HasFile (cache_truncated a ∷ t) h hash ↔ HasFile t h hash
  pub HasFile-file_removed :
      (t : History w) (a : ℕ) (b : List ℕ) (h : ℕ) (hash : List ℕ)
      → HasFile (file_removed a b ∷ t) h hash ↔ HasFile t h hash × ¬ ((a ≡ h) × (b ≡ hash))
  pub IsCached-wallet_truncated :
      (t : History w) (a h : ℕ) (hash : List ℕ)
      → IsCached (wallet_truncated a ∷ t) h hash ↔ IsCached t h hash
  pub IsCached-file_removed :
      (t : History w) (a : ℕ) (b : List ℕ) (h : ℕ) (hash : List ℕ)
      → IsCached (file_removed a b ∷ t) h hash ↔ IsCached t h hash
  pub IsCached-cache_truncated :
      (t : History w) (a h : ℕ) (hash : List ℕ)
      → IsCached (cache_truncated a ∷ t) h hash ↔ IsCached t h hash × (h ≤ a)
  pub cached_from-Listed :
      (t : History w) (low : ℕ) (blocks : List CompactBlock)
      → w.cached_from t low ≡ ok blocks
      → AllFrom low blocks
        × ((h : ℕ) (hash : List ℕ) → IsCached t h hash → low ≤ h → Listed blocks h hash)

module _ (w : World) where
  -- Files removed and the cache truncated aside, the last effect was that the wallet was truncated to
  -- a height.
  abbrev pub IsCut : ℕ → History w → Type 0
  IsCut a (wallet_truncated a' ∷ t) = a' ≡ a
  IsCut a (file_removed _ _ ∷ t) = IsCut a t
  IsCut a (cache_truncated _ ∷ t) = IsCut a t
  IsCut a _ = ⊥

module _ (w : World) (cache : Cache w) where
  open cache use {HasFile, IsCached}

  -- Each file of a block is recorded in the metadata.
  abbrev pub IsTracked : History w → Type 0
  IsTracked t = (h : ℕ) (hash : List ℕ) → HasFile t h hash → IsCached t h hash

  -- Between two histories some files above a height are removed, and nothing else of the cache is
  -- changed.
  pub record OnlyRemoves (a : ℕ) (t t' : History w) : Type 0 where
    pub kept : (h : ℕ) (hash : List ℕ) → h ≤ a → HasFile t h hash → HasFile t' h hash
    pub fewer : (h : ℕ) (hash : List ℕ) → HasFile t' h hash → HasFile t h hash
    pub metadata : (h : ℕ) (hash : List ℕ) → IsCached t' h hash ↔ IsCached t h hash

  -- Between two histories the cache and its folder lose just the blocks above a height.
  pub record IsRewound (a : ℕ) (t t' : History w) : Type 0 where
    pub files : (h : ℕ) (hash : List ℕ) → HasFile t' h hash ↔ HasFile t h hash × (h ≤ a)
    pub metadata : (h : ℕ) (hash : List ℕ) → IsCached t' h hash ↔ IsCached t h hash × (h ≤ a)
