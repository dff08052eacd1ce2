-- ===== src/Block/Report/Verdict.antt =====
-- The whole report, and the rules of the block.
use zcash_devtool_sqlx.Base.{
  ℕ, ◌^◌, ◌≤◌, ◌≡◌, ◌↔◌, refl, subst, Bool, true, false, Option, none, some, List, [], ◌∷◌, ◌++◌,
  map, if◌then◌else◌, ◌and_then◌, Gives, length, All, arith,
}
use zcash_devtool_sqlx.Protocol.{Network}
use zcash_devtool_sqlx.Block.Merkle.{build_merkle_root}
use zcash_devtool_sqlx.Inspect.Transaction.{Kinds, Scripts, is_coinbase}
use zcash_devtool_sqlx.Block.Report.{
  Chain, Block, Line, bad_commitments, not_null_at_heartwood, bad_history_root, heartwood, nu5,
  inspect_header_inner, network_of, block_height_of, coinbase_lines, extra_coinbases, skip_one,
  merkle_lines, auth_hasher, is_at, derive_block_commitments_hash, commitment_lines,
  nu5_commitments, expiry_lines, history_lines, upgrade_lines, contextual_lines, inspect,
}
use zcash_devtool_sqlx.Block.Merkle.Refine.{build_merkle_root_none, build_merkle_root-IsMerkle}
use zcash_devtool_sqlx.Block.AuthRoot.Refine.{build_auth_data_root_lem}
use zcash_devtool_sqlx.Block.Report.Clean.{
  is_warning, HasNoWarning, length-map, both_iff, trans_iff, append_clean, unless_clean, five_clean,
}
use zcash_devtool_sqlx.Block.Report.Rules.{
  IsCurrent, IsMined, StartsWithCoinbase, Commits, IsHistory, UpgradeRules, ContextRules, HasRoot,
  KeepsRules,
}
use zcash_devtool_sqlx.Block.Report.Checks.{
  header_clean, coinbase_clean, extra_clean, merkle_clean, expiry_clean,
}

module _ {k : Kinds} (s : Scripts k) (c : Chain k) where
  abbrev Hash : Type 0
  Hash = c.sha.Hash

  -- Lines that are without a warning exactly when a rule holds.
  abbrev Reports : Option (List (Line Hash)) → Type 0 → Type 0
  Reports o Rule = (lines : List (Line Hash)) × (o ≡ some lines) × (HasNoWarning lines ↔ Rule)

  commit_report :
      (block : Block c) (history : Hash) (o : Option Hash)
      → Gives o
      → Reports
          (o and_then λ auth.
            some (commitment_lines s c block.header.final_sapling_root history auth))
          ((auth : Hash) × (o ≡ some auth)
            × (c.sha.hash_eq
                  (derive_block_commitments_hash s c history auth)
                  block.header.final_sapling_root
                ≡ true))
  unfolding commitment_lines is_warning
  commit_report block history none (_, e) = absurd (ground (arith, e))
  commit_report block history (some a) g =
      let root = block.header.final_sapling_root in
      let (f, b) =
        unless_clean (c.sha.hash_eq (derive_block_commitments_hash s c history a) root)
          (bad_commitments history a (derive_block_commitments_hash s c history a) root) refl in
      (
        _,
        refl,
        (
          λ l. (a, refl, f l),
          λ (auth, e, h). b (
              subst (λ t. c.sha.hash_eq (derive_block_commitments_hash s c history t) root ≡ true)
                (ground (arith, e)) h),
        ),
      )

  commitments_report :
      (block : Block c) (history : Option Hash)
      → length block.txs ≤ 2 ^ 62
      → Reports (nu5_commitments s c block history) (Commits s c block history)
  unfolding nu5_commitments commitment_lines is_warning HasNoWarning
  commitments_report block none h = (_, refl, (λ _. tt, λ _. (refl, tt)))
  commitments_report block (some history) h =
      let commitments = map c.auth_commitment block.txs in
      let (n, _, _, e) =
        build_auth_data_root_lem (auth_hasher s c) commitments
          (omega (arith, h, length-map c.auth_commitment block.txs)) in
      commit_report block history _ (_, e)

  IsHistory-clean :
      (block : Block c) (history : Option Hash)
      → HasNoWarning (history_lines s c block.header.final_sapling_root history)
        ↔ IsHistory s c block history
  unfolding history_lines HasNoWarning is_warning
  IsHistory-clean block none = (λ _. tt, λ _. (refl, tt))
  IsHistory-clean block (some history) =
      unless_clean (c.sha.hash_eq history block.header.final_sapling_root)
        (bad_history_root history block.header.final_sapling_root) refl

  then_report :
      (l : List (Line Hash)) (o : Option (List (Line Hash))) {R S : Type 0}
      → HasNoWarning l ↔ R
      → Reports o S
      → Reports (o and_then λ lines. some (l ++ lines)) (R × S)
  then_report l none r (_, e, _) = absurd (ground (arith, e))
  then_report l (some m) {S = S} r (lines, e, i) = (
    l ++ m,
    refl,
    trans_iff (append_clean l m)
        (both_iff r (subst (λ t. HasNoWarning t ↔ S) (ground (arith, e)) i)),
  )

  -- The lines by whether NU5 is active, Heartwood activates here, and Heartwood is active.
  abbrev lines_by : Block c → Option Hash → ℕ → Bool → Bool → Bool → Option (List (Line Hash))
  lines_by block history height b at active =
      if b
      then (nu5_commitments s c block history and_then λ lines.
          some (expiry_lines s c block.txs height ++ lines))
      else if at
      then some (
          if c.sha.hash_eq block.header.final_sapling_root c.sha.zero_hash
          then []
          else not_null_at_heartwood ∷ [])
      else if active
      then some (history_lines s c block.header.final_sapling_root history)
      else some []

  upgrade_report :
      (block : Block c) (history : Option Hash) (height : ℕ) (b at active : Bool)
      → length block.txs ≤ 2 ^ 62
      → Reports
          (lines_by block history height b at active)
          (UpgradeRules s c block history height b at active)
  upgrade_report block history height true at active h =
      then_report (expiry_lines s c block.txs height) (nu5_commitments s c block history)
        (expiry_clean s c block.txs height) (commitments_report block history h)
  upgrade_report block history height false true active h =
      (_, refl, unfold is_warning in unless_clean _ not_null_at_heartwood refl)
  upgrade_report block history height false false true h = (_, refl, IsHistory-clean block history)
  upgrade_report block history height false false false h =
      (_, refl, unfold HasNoWarning in (λ _. tt, λ _. tt))

  context_report :
      (block : Block c) (history : Option Hash) (params : Option Network) (height : Option ℕ)
      → length block.txs ≤ 2 ^ 62
      → Reports
          (contextual_lines s c block history params height)
          (ContextRules s c block history params height)
  unfolding contextual_lines HasNoWarning upgrade_lines
  context_report block history none height h = (_, refl, (λ _. tt, λ _. tt))
  context_report block history (some params) none h = (_, refl, (λ _. tt, λ _. tt))
  context_report block history (some params) (some height) h =
      upgrade_report block history height (c.is_nu_active params nu5 height)
        (is_at s c height (c.activation_height params heartwood))
        (c.is_nu_active params heartwood height) h

  root_given : (l : List Hash) → Gives (build_merkle_root c.sha l)
  root_given [] = (_, build_merkle_root_none c.sha)
  root_given (a ∷ r) = let (h, m, e, _) = build_merkle_root-IsMerkle c.sha a r in ((h, m), e)

  -- The parts of the report, in their order.
  parts_report :
      (block : Block c) (params : Option Network) (o : Option (Hash × Bool))
      (rest : Option (List (Line Hash))) {R : Type 0}
      → Gives o
      → Reports rest R
      → Reports
          (o and_then λ root. rest and_then λ l. some (
            inspect_header_inner s c block.header params
            ++ coinbase_lines s c block.txs
            ++ extra_coinbases s c 1 (skip_one s c block.txs)
            ++ merkle_lines s c block.header.merkle_root root
            ++ l))
          (IsCurrent s c block.header.version
            × IsMined s c block.header params
            × StartsWithCoinbase s c block.txs
            × All (λ tx. is_coinbase s tx ≡ false) (skip_one s c block.txs)
            × HasRoot s c block o
            × R)
  parts_report block params none rest (_, e) r = absurd (ground (arith, e))
  parts_report block params (some root) none g (_, e, _) = absurd (ground (arith, e))
  parts_report block params (some (root, mutated)) (some l) {R = R} g (lines, e, i) = (
    _,
    refl,
    five_clean (inspect_header_inner s c block.header params) (coinbase_lines s c block.txs)
        (extra_coinbases s c 1 (skip_one s c block.txs))
        (merkle_lines s c block.header.merkle_root (root, mutated)) l
        (header_clean s c block.header params) (coinbase_clean s c block.txs)
        (extra_clean s c 1 (skip_one s c block.txs)) (merkle_clean s c block root mutated)
        (subst (λ t. HasNoWarning t ↔ R) (ground (arith, e)) i),
  )

  -- For a block of at most 2 ^ 62 transactions the inspection finishes, and what it prints has no
  -- warning exactly when the block keeps the rules: its version, the solution and the proof of
  -- work for the network, its first transaction and no other a coinbase transaction with a
  -- height, the Merkle root with no mutation, and the rules of the upgrade that is active (as far
  -- as a network, a height and a chain history root are known).
  pub inspect-KeepsRules :
      (block : Block c) (context : Option Network) (history : Option Hash)
      → length block.txs ≤ 2 ^ 62
      → (lines : List (Line Hash)) × (inspect s c block context history ≡ some lines)
        × (HasNoWarning lines ↔ KeepsRules s c block context history)
  unfolding inspect
  inspect-KeepsRules block context history h =
      let params = network_of s c block.header context in
      parts_report block params (build_merkle_root c.sha (map c.txid_of block.txs))
        (contextual_lines s c block history params (block_height_of s c block.txs))
        (root_given (map c.txid_of block.txs))
        (context_report block history params (block_height_of s c block.txs) h)
