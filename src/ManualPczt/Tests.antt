-- ===== src/ManualPczt/Tests.antt =====
-- Payments to three pools, for src/helpers/pczt/create_manual.rs and src/commands/pczt/pay_manual.rs.
use zcash_devtool_sqlx.Base.{
  ℕ, ◌+◌, ◌-◌, ◌≡◌, ◌++◌, refl, true, false, Option, none, some, List, [], ◌∷◌, ok, err, codes,
  get_elem?, IfOk, ltb, leb, if◌then◌else◌, arith,
}
use zcash_devtool_sqlx.Base.Maps.{lookup, insert}
use zcash_devtool_sqlx.Protocol.{PoolType, transparent, shielded, orchard}
use zcash_devtool_sqlx.ManualPczt.{
  Crates, Recipient, transparent_address, unified_address, tex_address, orchard_receiver,
  sapling_receiver, add_recipient, Coin, spend_info, coin_of, p2pkh,
}
use zcash_devtool_sqlx.ManualPczt.Paying.{
  Sent, Updates, done, counted, track, track_all, add_outputs, set_verification_address, set_all,
  transparent_outputs, output_values,
}
use zcash_devtool_sqlx.ManualPczt.Creating.{Zatoshis, total, value_out_of, change_not_supported}
use zcash_devtool_sqlx.ManualPczt.Tracked.{FoundAt, add_outputs-FoundAt}

abbrev crates : Crates
crates = record {
  Error = ℕ;
  TransparentAddress = ℕ;
  SaplingAddress = ℕ;
  OrchardAddress = ℕ;
  PubkeyHash = ℕ;
  public_key_hash = λ hash. hash;
  Memo = Unit;
  empty_memo = tt;
  no_receivers = 0;
  missing_spend_info = 1;
  both_spend_infos = 2;
  invalid_hash = 3;
  invalid_amount = 4;
  decode_hex = λ s. ok s;
  is_hash = λ bytes. true;
  is_zatoshis = λ n. ltb n 100;
  Pubkey = ℕ;
  Script = List ℕ;
  parse_script = λ bytes. ok bytes;
  Builder = ℕ;
  add_transparent_output = λ b a v. ok (b + 1);
  add_sapling_output = λ b a v m. ok (b + 1);
  add_orchard_output = λ b a v m. ok (b + 1);
}

abbrev to : Recipient crates → ℕ → Sent crates
to address value = record { value = value; address = address; memo = none }

abbrev outputs : List (Sent crates)
outputs =
    to (transparent_address 1) 10
    ∷ to (unified_address (orchard_receiver 2 ∷ sapling_receiver 3 ∷ [])) 20
    ∷ to (tex_address 4) 30
    ∷ []

abbrev change : List (Sent crates)
change = to (unified_address (orchard_receiver 7 ∷ [])) 5 ∷ []

add_outputs_test :
    add_outputs crates 0 outputs change ≡ ok (4, (0, 0) ∷ (1, 0) ∷ (2, 1) ∷ [], (0, 1) ∷ [])
unfolding add_outputs track_all track add_recipient counted insert
add_outputs_test = refl

values_test :
    (transparent_outputs crates outputs ≡ ok ((10, 1) ∷ (30, 4) ∷ []))
    × (output_values crates false outputs ≡ ok (20 ∷ []))
unfolding transparent_outputs output_values
values_test = (refl, refl)

-- The updater lists the pools and the indexes that are set.
abbrev updates : Updates ℕ
updates = record {
  Updater = List (PoolType × ℕ);
  sapling_index = λ i. none;
  orchard_index = λ i. some (i + 5);
  set_address = λ pool updater i address. ok ((pool, i) ∷ updater);
}

set_all_test :
    set_all crates updates
      (λ _. [])
      0
      []
      (transparent_address 1 ∷ unified_address (orchard_receiver 2 ∷ []) ∷ [])
      ((0, 0) ∷ (1, 0) ∷ [])
    ≡ done ((shielded orchard, 5) ∷ (transparent, 0) ∷ [])
unfolding set_all set_verification_address lookup
set_all_test = refl

add_outputs-FoundAt_example :
    IfOk
      (λ (b, output_mapping, change_mapping).
        ((i : ℕ) (o : Sent crates)
          → get_elem? outputs i ≡ some o
          → FoundAt crates (outputs ++ change) o (lookup i output_mapping))
        × ((j : ℕ) (o : Sent crates)
            → get_elem? change j ≡ some o
            → FoundAt crates (outputs ++ change) o (lookup j change_mapping)))
      (add_outputs crates 0 outputs change)
add_outputs-FoundAt_example = add_outputs-FoundAt crates 0 outputs change

abbrev a_coin : Coin ℕ
a_coin = record {
  txid = codes "ab";
  out_index = 1;
  value = some 100;
  script_pubkey = some [];
  pubkey = some 6;
  redeem_script = none;
}

coin_test : (spend_info crates a_coin ≡ ok (p2pkh 6)) × (coin_of crates a_coin ≡ err 4)
unfolding spend_info coin_of
coin_test = (refl, refl)

pub add_sum : (a b s : ℕ) → some (a + b) ≡ some s → s ≡ a + b
add_sum a b s h = ground (arith, h)

pub sub_difference : (a b d : ℕ) → (if leb b a then some (a - b) else none) ≡ some d → d + b ≡ a
sub_difference a b d h = ground (arith, h)

abbrev checked_amounts : Zatoshis
checked_amounts = record {
  add = λ a b. some (a + b);
  sub = λ a b. if leb b a then some (a - b) else none;
  add_lem = add_sum;
  sub_lem = sub_difference;
}

abbrev given : Option ℕ
given = some 8

value_out_test :
    (value_out_of checked_amounts (5 ∷ 6 ∷ []) 3 none ≡ ok 8)
    × (value_out_of checked_amounts (5 ∷ 6 ∷ []) 3 (some 7) ≡ err (change_not_supported 8))
unfolding value_out_of total
value_out_test = (refl, refl)
