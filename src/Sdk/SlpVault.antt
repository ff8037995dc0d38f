-- ===== src/Sdk/SlpVault.antt =====
-- The calls of the SLP vault (packages/sdk/src/clients/slp-vault.ts, `SlpVaultClient`).
pub mod Fits
use Prim.Native.String.{String}
use stellax.Base.{ℕ, Option, none, some, List, [], ◌∷◌, map}
use stellax.Base.Int.{ℤ, pos}
use stellax.Sdk.Native.{
  Native, Number, undefined, null, number, text, array, ◌>>=◌, big_int, to_number, to_text, get,
  or_else, Natives, item, no_item,
}
use stellax.Sdk.Xdr.{Xdr}
use stellax.Sdk.ScVal.{
  u32, u64, i128, bytes_n, address, raw, dec_bigint, dec_number, dec_address, dec_vec,
}
use stellax.Sdk.Client.{ContractClient, InvokeOptions, Call, Read, invoke, simulate_return}

pub record SlpConfig : Type 0 where
  pub admin : String
  pub keeper : String
  pub vault_contract : String
  pub perp_engine : String
  pub usdc_token : String
  pub treasury : String
  pub cooldown_secs : ℤ
  pub skew_cap_bps : Number
  pub max_vault_cap : ℤ
  pub perp_market_ids : List Number

abbrev pub numbers : Natives → Option (List Number)
numbers no_item = some []
numbers (item n rest) = to_number n >>= λ a. numbers rest >>= λ as'. some (a ∷ as')

-- `(ids ?? []).map(Number)`, which throws unless the value is an array
abbrev pub numbers_of : Native → Option (List Number)
numbers_of undefined = some []
numbers_of null = some []
numbers_of (array ns) = numbers ns
numbers_of other = none

module _ (x : Xdr) where
  open x use {ScVal}

  unfoldable pub decode_slp_config : Option ScVal → Option SlpConfig
  unfolding raw
  decode_slp_config v = do
    let o = raw x v
    admin ← to_text (or_else (get o "admin") (text ""))
    keeper ← to_text (or_else (get o "keeper") (text ""))
    vault_contract ← to_text (or_else (get o "vault_contract") (text ""))
    perp_engine ← to_text (or_else (get o "perp_engine") (text ""))
    usdc_token ← to_text (or_else (get o "usdc_token") (text ""))
    treasury ← to_text (or_else (get o "treasury") (text ""))
    cooldown_secs ← big_int (or_else (get o "cooldown_secs") (number (pos 0)))
    skew_cap_bps ← to_number (or_else (get o "skew_cap_bps") (number (pos 0)))
    max_vault_cap ← big_int (or_else (get o "max_vault_cap") (number (pos 0)))
    perp_market_ids ← numbers_of (get o "perp_market_ids")
    some (record {
      admin = admin;
      keeper = keeper;
      vault_contract = vault_contract;
      perp_engine = perp_engine;
      usdc_token = usdc_token;
      treasury = treasury;
      cooldown_secs = cooldown_secs;
      skew_cap_bps = skew_cap_bps;
      max_vault_cap = max_vault_cap;
      perp_market_ids = perp_market_ids;
    })

module _ (c : ContractClient) where
  open c use {xdr}

  unfoldable pub total_shares : Read xdr.ScVal ℤ
  unfolding simulate_return
  total_shares = simulate_return c "total_shares" ([]) (dec_bigint xdr)

  unfoldable pub total_assets : Read xdr.ScVal ℤ
  unfolding simulate_return
  total_assets = simulate_return c "total_assets" ([]) (dec_bigint xdr)

  unfoldable pub nav_per_share : Read xdr.ScVal ℤ
  unfolding simulate_return
  nav_per_share = simulate_return c "nav_per_share" ([]) (dec_bigint xdr)

  unfoldable pub share_balance : String → Read xdr.ScVal ℤ
  unfolding simulate_return
  share_balance user = simulate_return c "balance" (address xdr user ∷ []) (dec_bigint xdr)

  unfoldable pub unlock_at : String → Read xdr.ScVal ℤ
  unfolding simulate_return
  unlock_at user = simulate_return c "unlock_at" (address xdr user ∷ []) (dec_bigint xdr)

  unfoldable pub get_config : Read xdr.ScVal SlpConfig
  unfolding simulate_return
  get_config = simulate_return c "get_config" ([]) (decode_slp_config xdr)

  unfoldable pub get_authorized_callers : Read xdr.ScVal (List String)
  unfolding simulate_return
  get_authorized_callers =
      simulate_return c "get_authorized_callers" ([])
        (λ v. dec_vec xdr v (λ i. dec_address xdr (some i)))

  unfoldable pub version : Read xdr.ScVal Number
  unfolding simulate_return
  version = simulate_return c "version" ([]) (dec_number xdr)

  unfoldable pub deposit : String → ℤ → InvokeOptions → Call xdr.ScVal
  unfolding invoke
  deposit user amount_native opts =
      invoke c "deposit" (address xdr user ∷ i128 xdr amount_native ∷ []) opts

  unfoldable pub withdraw : String → ℤ → InvokeOptions → Call xdr.ScVal
  unfolding invoke
  withdraw user shares opts = invoke c "withdraw" (address xdr user ∷ i128 xdr shares ∷ []) opts

  unfoldable pub seed : ℤ → InvokeOptions → Call xdr.ScVal
  unfolding invoke
  seed amount_native opts = invoke c "seed" (i128 xdr amount_native ∷ []) opts

  unfoldable pub sweep_fees : ℤ → InvokeOptions → Call xdr.ScVal
  unfolding invoke
  sweep_fees amount_native opts = invoke c "sweep_fees" (i128 xdr amount_native ∷ []) opts

  unfoldable pub credit_pnl : String → ℤ → InvokeOptions → Call xdr.ScVal
  unfolding invoke
  credit_pnl caller amount opts =
      invoke c "credit_pnl" (address xdr caller ∷ i128 xdr amount ∷ []) opts

  unfoldable pub draw_pnl : String → String → ℤ → InvokeOptions → Call xdr.ScVal
  unfolding invoke
  draw_pnl caller recipient amount opts =
      invoke c "draw_pnl" (address xdr caller ∷ address xdr recipient ∷ i128 xdr amount ∷ []) opts

  unfoldable pub record_loss : String → ℤ → InvokeOptions → Call xdr.ScVal
  unfolding invoke
  record_loss caller amount opts =
      invoke c "record_loss" (address xdr caller ∷ i128 xdr amount ∷ []) opts

  unfoldable pub admin_credit_assets : ℤ → InvokeOptions → Call xdr.ScVal
  unfolding invoke
  admin_credit_assets amount opts = invoke c "admin_credit_assets" (i128 xdr amount ∷ []) opts

  unfoldable pub add_authorized_caller : String → InvokeOptions → Call xdr.ScVal
  unfolding invoke
  add_authorized_caller new_caller opts =
      invoke c "add_authorized_caller" (address xdr new_caller ∷ []) opts

  unfoldable pub remove_authorized_caller : String → InvokeOptions → Call xdr.ScVal
  unfolding invoke
  remove_authorized_caller old_caller opts =
      invoke c "remove_authorized_caller" (address xdr old_caller ∷ []) opts

  unfoldable pub set_cooldown_secs : ℤ → InvokeOptions → Call xdr.ScVal
  unfolding invoke
  set_cooldown_secs secs opts = invoke c "set_cooldown_secs" (u64 xdr secs ∷ []) opts

  unfoldable pub set_skew_cap_bps : ℤ → InvokeOptions → Call xdr.ScVal
  unfolding invoke
  set_skew_cap_bps bps opts = invoke c "set_skew_cap_bps" (u32 xdr bps ∷ []) opts

  unfoldable pub set_max_vault_cap : ℤ → InvokeOptions → Call xdr.ScVal
  unfolding invoke
  set_max_vault_cap cap opts = invoke c "set_max_vault_cap" (i128 xdr cap ∷ []) opts

  unfoldable pub upgrade : List ℕ → InvokeOptions → Call xdr.ScVal
  unfolding invoke
  upgrade new_wasm_hash opts = invoke c "upgrade" (bytes_n xdr new_wasm_hash ∷ []) opts
