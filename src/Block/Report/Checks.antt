-- ===== src/Block/Report/Checks.antt =====
-- The parts of the report, each with the rule that it checks.
use zcash_devtool_sqlx.Base.{
  ℕ, suc, ◌==◌, ==_iff, ◌≡◌, ◌↔◌, refl, Bool, true, false, Option, none, some, List, [], ◌∷◌, ltb,
  if◌then◌else◌, Gives, length, All, arith,
}
use zcash_devtool_sqlx.Base.Int.{ℤ, pos, negsuc}
use zcash_devtool_sqlx.Protocol.{Network}
use zcash_devtool_sqlx.Inspect.Transaction.{Kinds, Scripts, Transaction, is_coinbase}
use zcash_devtool_sqlx.Block.Report.{
  Chain, BlockHeader, Block, block_hash, block_version, version_too_low, invalid_solution,
  high_hash, transaction_count, first_not_coinbase, extra_coinbase, malleable, expiry_mismatch,
  is_low_version, network_checks, inspect_header_inner, height_lines, extract_height,
  coinbase_lines, extra_coinbases, merkle_lines, expiry_lines,
}
use zcash_devtool_sqlx.Block.Report.Clean.{
  is_warning, HasNoWarning, both_iff, trans_iff, append_clean, note_clean, unless_clean, when_clean,
  error_clean,
}
use zcash_devtool_sqlx.Block.Report.Rules.{
  IsCurrent, IsMined, StartsWithCoinbase, ExpiresAt, HasRoot,
}

module _ {k : Kinds} (s : Scripts k) (c : Chain k) where
  abbrev Hash : Type 0
  Hash = c.sha.Hash

  version_clean :
      (v : ℤ)
      → HasNoWarning {Hash = Hash} (if is_low_version v then version_too_low ∷ [] else [])
        ↔ IsCurrent s c v
  unfolding is_low_version HasNoWarning is_warning
  version_clean (pos v) = trans_iff (when_clean (ltb v 4) version_too_low refl) (ground arith)
  version_clean (negsuc v) = (λ (h, _). absurd (ground (arith, h)), λ h. absurd h)

  network_clean :
      (header : BlockHeader Hash) (params : Option Network)
      → HasNoWarning (network_checks s c header params) ↔ IsMined s c header params
  unfolding network_checks HasNoWarning is_warning
  network_clean header none = (λ _. tt, λ _. (refl, tt))
  network_clean header (some params) =
      trans_iff (append_clean _ _) (
        both_iff (error_clean invalid_solution _ (λ e. refl)) (error_clean high_hash _ (λ e. refl)))

  pub header_clean :
      (header : BlockHeader Hash) (params : Option Network)
      → HasNoWarning (inspect_header_inner s c header params)
        ↔ (IsCurrent s c header.version × IsMined s c header params)
  unfolding inspect_header_inner is_warning
  header_clean header params = trans_iff (note_clean (block_hash header.hash) _ refl) (
      trans_iff (note_clean (block_version header.version) _ refl) (
        trans_iff (append_clean _ _)
          (both_iff (version_clean header.version) (network_clean header params))))

  height_clean : (h : Option ℕ) → HasNoWarning (height_lines s c h) ↔ Gives h
  unfolding height_lines HasNoWarning is_warning
  height_clean none = (λ (h, _). absurd (ground (arith, h)), λ (a, e). absurd (ground (arith, e)))
  height_clean (some h) = (λ _. (h, refl), λ _. (refl, tt))

  first_clean :
      (b : Bool) (h : Option ℕ)
      → HasNoWarning (if b then height_lines s c h else first_not_coinbase ∷ [])
        ↔ ((b ≡ true) × Gives h)
  unfolding HasNoWarning is_warning
  first_clean true h = let (f, g) = height_clean h in (λ l. (refl, f l), λ (_, d). g d)
  first_clean false h = (λ (l, _). absurd (ground (arith, l)), λ (e, _). absurd (ground (arith, e)))

  pub coinbase_clean :
      (txs : List (Transaction k))
      → HasNoWarning (coinbase_lines s c txs) ↔ StartsWithCoinbase s c txs
  unfolding coinbase_lines is_warning HasNoWarning
  coinbase_clean [] = (λ (l, _). absurd (ground (arith, l)), λ h. absurd h)
  coinbase_clean (tx ∷ rest) =
      trans_iff (note_clean (transaction_count (length (tx ∷ rest))) _ refl)
        (first_clean (is_coinbase s tx) (extract_height s c (tx ∷ rest)))

  pub extra_clean :
      (i : ℕ) (txs : List (Transaction k))
      → HasNoWarning (extra_coinbases s c i txs) ↔ All (λ tx. is_coinbase s tx ≡ false) txs
  unfolding extra_coinbases HasNoWarning is_warning
  extra_clean i [] = (λ _. tt, λ _. tt)
  extra_clean i (tx ∷ rest) =
      trans_iff (append_clean _ _) (
        both_iff (when_clean (is_coinbase s tx) (extra_coinbase i) refl) (extra_clean (suc i) rest))

  pub merkle_clean :
      (block : Block c) (root : Hash) (mutated : Bool)
      → HasNoWarning (merkle_lines s c block.header.merkle_root (root, mutated))
        ↔ HasRoot s c block (some (root, mutated))
  unfolding merkle_lines is_warning
  merkle_clean block root mutated = trans_iff (append_clean _ _) (
      both_iff (unless_clean (c.sha.hash_eq root block.header.merkle_root) _ refl)
        (when_clean mutated malleable refl))

  pub expiry_clean :
      (txs : List (Transaction k)) (height : ℕ)
      → HasNoWarning (expiry_lines s c txs height) ↔ ExpiresAt s c txs height
  unfolding expiry_lines HasNoWarning is_warning
  expiry_clean [] height = (λ _. tt, λ _. tt)
  expiry_clean (tx ∷ _) height =
      trans_iff
        (unless_clean (tx.expiry_height == height) (expiry_mismatch tx.expiry_height height) refl)
        (==_iff tx.expiry_height height)
