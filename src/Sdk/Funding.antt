-- ===== src/Sdk/Funding.antt =====
-- The calls of the funding contract (packages/sdk/src/clients/funding.ts, `FundingClient`).
pub mod Fits
use stellax.Base.{ℕ, Option, none, some, List, [], ◌∷◌}
use stellax.Base.Int.{ℤ}
use stellax.Sdk.Native.{Native, Number, array, ◌>>=◌, big_int, item}
use stellax.Sdk.ScVal.{u32, u64, bytes_n, raw, native, dec_bigint, dec_number}
use stellax.Sdk.Client.{ContractClient, InvokeOptions, Call, Read, invoke, simulate_return}

-- `[BigInt(native[0]), BigInt(native[1])]`, which throws unless the value is an array of two
abbrev pub funding_pair : Native → Option (ℤ × ℤ)
funding_pair (array (item a (item b rest))) = big_int a >>= λ m. big_int b >>= λ n. some (m, n)
funding_pair other = none

module _ (c : ContractClient) where
  open c use {xdr}

  unfoldable pub get_current_funding_rate : ℤ → Read xdr.ScVal ℤ
  unfolding simulate_return
  get_current_funding_rate market_id =
      simulate_return c "get_current_funding_rate" (u32 xdr market_id ∷ []) (dec_bigint xdr)

  unfoldable pub get_accumulated_funding : ℤ → Read xdr.ScVal ((ℤ × ℤ))
  unfolding simulate_return
  get_accumulated_funding market_id =
      simulate_return c "get_accumulated_funding" (u32 xdr market_id ∷ [])
        (λ v. funding_pair (raw xdr v))

  unfoldable pub estimate_funding_payment : ℤ → Read xdr.ScVal ℤ
  unfolding simulate_return
  estimate_funding_payment position_id =
      simulate_return c "estimate_funding_payment" (u64 xdr position_id ∷ []) (dec_bigint xdr)

  unfoldable pub get_funding_velocity : ℤ → Read xdr.ScVal ℤ
  unfolding simulate_return
  get_funding_velocity market_id =
      simulate_return c "get_funding_velocity" (u32 xdr market_id ∷ []) (dec_bigint xdr)

  unfoldable pub version : Read xdr.ScVal Number
  unfolding simulate_return
  version = simulate_return c "version" ([]) (dec_number xdr)

  unfoldable pub update_funding : ℤ → InvokeOptions → Call xdr.ScVal
  unfolding invoke
  update_funding market_id opts = invoke c "update_funding" (u32 xdr market_id ∷ []) opts

  unfoldable pub settle_funding_for_position : ℤ → InvokeOptions → Call xdr.ScVal
  unfolding invoke
  settle_funding_for_position position_id opts =
      invoke c "settle_funding_for_position" (u64 xdr position_id ∷ []) opts

  unfoldable pub upgrade : List ℕ → InvokeOptions → Call xdr.ScVal
  unfolding invoke
  upgrade new_wasm_hash opts = invoke c "upgrade" (bytes_n xdr new_wasm_hash ∷ []) opts
