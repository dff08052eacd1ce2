-- ===== src/DerivePath/Shown.antt =====
-- Which paths the derive-path command takes for those of an address
-- (src/commands/wallet/derive_path.rs).
use zcash_devtool_sqlx.Base.{ℕ, ◌≡◌, ◌↔◌, Bool, true, false, some, List, [], ◌∷◌, arith}
use zcash_devtool_sqlx.DerivePath.{
  show_transparent, show_shielded, bip_44_notes, zip_32_notes, chain_notes,
}

-- Behind the purpose: a coin type, an account, a chain and an index.
abbrev pub IsChainPath : ℕ → List (ℕ × Bool) → Type 0
IsChainPath coin (coin_type ∷ account ∷ kind ∷ index ∷ []) = coin_type.0 ≡ coin
IsChainPath coin _ = ⊥

-- Behind the purpose: a coin type and an account.
abbrev pub IsAccountPath : ℕ → ℕ → List (ℕ × Bool) → Type 0
IsAccountPath coin acc (coin_type ∷ account ∷ []) = (coin_type.0 ≡ coin) × (account.0 ≡ acc)
IsAccountPath coin acc _ = ⊥

-- A hardened purpose, and a path behind it.
abbrev pub Under : ℕ → (List (ℕ × Bool) → Type 0) → List (ℕ × Bool) → Type 0
Under purpose P [] = ⊥
Under purpose P ((first, hardened) ∷ rest) = (first ≡ purpose) × (hardened ≡ true) × P rest

-- The flag to show is set for just the paths of an address of the network.
pub show_transparent_iff :
    (coin : ℕ) (path : List (ℕ × Bool))
    → ((show_transparent coin path).1 ≡ true) ↔ Under 44 (IsChainPath coin) path
unfolding show_transparent bip_44_notes chain_notes
show_transparent_iff coin [] = ground arith
show_transparent_iff coin ((p, false) ∷ rest) = ground arith
show_transparent_iff coin ((p, true) ∷ []) = ground arith
show_transparent_iff coin ((p, true) ∷ c ∷ []) = ground arith
show_transparent_iff coin ((p, true) ∷ c ∷ a ∷ []) = ground arith
show_transparent_iff coin ((p, true) ∷ c ∷ a ∷ k ∷ []) = ground arith
show_transparent_iff coin ((p, true) ∷ (c, ch) ∷ a ∷ k ∷ i ∷ []) = ground arith
show_transparent_iff coin ((p, true) ∷ c ∷ a ∷ k ∷ i ∷ x ∷ xs) = ground arith

-- An account is chosen for just its own path of the network.
pub show_shielded_iff :
    (coin acc : ℕ) (path : List (ℕ × Bool))
    → ((show_shielded coin path).1 ≡ some acc) ↔ Under 32 (IsAccountPath coin acc) path
unfolding show_shielded zip_32_notes
show_shielded_iff coin acc [] = ground arith
show_shielded_iff coin acc ((p, false) ∷ rest) = ground arith
show_shielded_iff coin acc ((p, true) ∷ []) = ground arith
show_shielded_iff coin acc ((p, true) ∷ c ∷ []) = ground arith
show_shielded_iff coin acc ((p, true) ∷ c ∷ a ∷ []) = ground arith
show_shielded_iff coin acc ((p, true) ∷ c ∷ a ∷ x ∷ xs) = ground arith
