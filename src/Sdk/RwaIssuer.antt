-- ===== src/Sdk/RwaIssuer.antt =====
-- The calls of a token of real-world assets (packages/sdk/src/clients/rwa-issuer.ts, `RwaIssuerClient`).
pub mod Reads
pub mod Fits
use Prim.Native.String.{String}
use stellax.Base.{ℕ, Bool, Option, some, List, [], ◌∷◌, map}
use stellax.Base.Int.{ℤ}
use stellax.Sdk.Native.{◌>>=◌, Number, big_int, to_number, to_text, to_boolean, get}
use stellax.Sdk.Xdr.{Xdr}
use stellax.Sdk.ScVal.{
  u32, u64, i128, bool, bytes_n, address, vec, raw, dec_bigint, dec_number, dec_string,
}
use stellax.Sdk.Client.{ContractClient, InvokeOptions, Call, Read, invoke, simulate_return}

pub record RwaIssuerConfig : Type 0 where
  pub admin : String
  pub name : String
  pub symbol : String
  pub decimals : Number
  pub apy_bps : Number
  pub auth_required : Bool
  pub paused : Bool
  pub total_supply : ℤ

module _ (x : Xdr) where
  open x use {ScVal}

  unfoldable pub decode_config : Option ScVal → Option RwaIssuerConfig
  unfolding raw
  decode_config v = do
    let o = raw x v
    admin ← to_text (get o "admin")
    name ← to_text (get o "name")
    symbol ← to_text (get o "symbol")
    decimals ← to_number (get o "decimals")
    apy_bps ← to_number (get o "apy_bps")
    let auth_required = to_boolean (get o "auth_required")
    let paused = to_boolean (get o "paused")
    total_supply ← big_int (get o "total_supply")
    some (record {
      admin = admin;
      name = name;
      symbol = symbol;
      decimals = decimals;
      apy_bps = apy_bps;
      auth_required = auth_required;
      paused = paused;
      total_supply = total_supply;
    })

module _ (c : ContractClient) where
  open c use {xdr}

  unfoldable pub get_config : Read xdr.ScVal RwaIssuerConfig
  unfolding simulate_return
  get_config = simulate_return c "get_config" ([]) (decode_config xdr)

  unfoldable pub name : Read xdr.ScVal String
  unfolding simulate_return
  name = simulate_return c "name" ([]) (dec_string xdr)

  unfoldable pub symbol : Read xdr.ScVal String
  unfolding simulate_return
  symbol = simulate_return c "symbol" ([]) (dec_string xdr)

  unfoldable pub decimals : Read xdr.ScVal Number
  unfolding simulate_return
  decimals = simulate_return c "decimals" ([]) (dec_number xdr)

  unfoldable pub balance : String → Read xdr.ScVal ℤ
  unfolding simulate_return
  balance holder = simulate_return c "balance" (address xdr holder ∷ []) (dec_bigint xdr)

  unfoldable pub allowance : String → String → Read xdr.ScVal ℤ
  unfolding simulate_return
  allowance from spender =
      simulate_return c "allowance" (address xdr from ∷ address xdr spender ∷ []) (dec_bigint xdr)

  unfoldable pub cumulative_yield : String → Read xdr.ScVal ℤ
  unfolding simulate_return
  cumulative_yield holder =
      simulate_return c "cumulative_yield" (address xdr holder ∷ []) (dec_bigint xdr)

  unfoldable pub version : Read xdr.ScVal Number
  unfolding simulate_return
  version = simulate_return c "version" ([]) (dec_number xdr)

  unfoldable pub approve : String → String → ℤ → ℤ → InvokeOptions → Call xdr.ScVal
  unfolding invoke
  approve from spender amount expiration_ledger opts =
      invoke c "approve"
        (address xdr from ∷ address xdr spender ∷ i128 xdr amount ∷ u32 xdr expiration_ledger ∷ [])
        opts

  unfoldable pub transfer : String → String → ℤ → InvokeOptions → Call xdr.ScVal
  unfolding invoke
  transfer from to amount opts =
      invoke c "transfer" (address xdr from ∷ address xdr to ∷ i128 xdr amount ∷ []) opts

  unfoldable pub transfer_from : String → String → String → ℤ → InvokeOptions → Call xdr.ScVal
  unfolding invoke
  transfer_from spender from to amount opts =
      invoke c "transfer_from"
        (address xdr spender ∷ address xdr from ∷ address xdr to ∷ i128 xdr amount ∷ []) opts

  unfoldable pub burn : String → ℤ → InvokeOptions → Call xdr.ScVal
  unfolding invoke
  burn from amount opts = invoke c "burn" (address xdr from ∷ i128 xdr amount ∷ []) opts

  unfoldable pub burn_from : String → String → ℤ → InvokeOptions → Call xdr.ScVal
  unfolding invoke
  burn_from spender from amount opts =
      invoke c "burn_from" (address xdr spender ∷ address xdr from ∷ i128 xdr amount ∷ []) opts

  unfoldable pub mint : String → ℤ → InvokeOptions → Call xdr.ScVal
  unfolding invoke
  mint to amount opts = invoke c "mint" (address xdr to ∷ i128 xdr amount ∷ []) opts

  unfoldable pub credit_yield : List String → List ℤ → ℤ → InvokeOptions → Call xdr.ScVal
  unfolding invoke
  credit_yield holders deltas epoch_id opts =
      invoke c "credit_yield"
        (vec xdr (map (address xdr) holders)
          ∷ vec xdr (map (i128 xdr) deltas)
          ∷ u64 xdr epoch_id
          ∷ [])
        opts

  unfoldable pub set_apy_bps : ℤ → InvokeOptions → Call xdr.ScVal
  unfolding invoke
  set_apy_bps apy_bps opts = invoke c "set_apy_bps" (u32 xdr apy_bps ∷ []) opts

  unfoldable pub set_authorized : String → Bool → InvokeOptions → Call xdr.ScVal
  unfolding invoke
  set_authorized holder ok opts =
      invoke c "set_authorized" (address xdr holder ∷ bool xdr ok ∷ []) opts

  unfoldable pub set_auth_required : Bool → InvokeOptions → Call xdr.ScVal
  unfolding invoke
  set_auth_required required opts = invoke c "set_auth_required" (bool xdr required ∷ []) opts

  unfoldable pub pause : InvokeOptions → Call xdr.ScVal
  unfolding invoke
  pause opts = invoke c "pause" ([]) opts

  unfoldable pub unpause : InvokeOptions → Call xdr.ScVal
  unfolding invoke
  unpause opts = invoke c "unpause" ([]) opts

  unfoldable pub upgrade : List ℕ → InvokeOptions → Call xdr.ScVal
  unfolding invoke
  upgrade new_wasm_hash opts = invoke c "upgrade" (bytes_n xdr new_wasm_hash ∷ []) opts
