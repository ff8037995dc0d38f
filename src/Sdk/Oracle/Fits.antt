-- ===== src/Sdk/Oracle/Fits.antt =====
-- The calls of the calls of the oracle against the interface of the contract (contracts/stellax-oracle/src/lib.rs).
use Prim.Native.String.{String}
use stellax.Base.{ℕ, ◌≡◌, List, [], ◌∷◌, length}
use stellax.Base.Int.{ℤ}
use stellax.Sdk.Xdr.{Ty, ty, no_ty}
use stellax.Sdk.ScVal.{symbol as enc_symbol, bytes_val}
use stellax.Sdk.ScVal.Typed.{
  u32-Typed, u64-Typed, i128-Typed, symbol-Typed, bytes-Typed, bytes_n-Typed, address-Typed,
  vec-Typed,
}
use stellax.Sdk.Client.{ContractClient, InvokeOptions, invoke, simulate_return}
use stellax.Sdk.Client.Conforms.{Abi, Conforms}
use stellax.Sdk.Oracle.{
  get_price, get_prices, version, write_prices, admin_push_price, update_config, upgrade,
  set_symbol_staleness, clear_symbol_staleness, get_symbol_staleness, set_pyth_config,
  remove_pyth_feed_id, submit_pyth_update,
}

abbrev pub abi : Abi
abi =
    (
      "__constructor",
      ty Ty.address (ty (Ty.vec Ty.bytes) (ty Ty.u32 (ty Ty.u64 (ty (Ty.vec Ty.symbol) no_ty)))),
    )
    ∷ ("version", no_ty)
    ∷ ("config", no_ty)
    ∷ ("last_update", no_ty)
    ∷ ("write_prices", ty Ty.bytes no_ty)
    ∷ ("get_price", ty Ty.symbol no_ty)
    ∷ ("get_prices", ty (Ty.vec Ty.symbol) no_ty)
    ∷ ("verify_price_payload", ty Ty.bytes (ty Ty.symbol no_ty))
    ∷ ("update_config", ty (Ty.vec Ty.bytes) (ty Ty.u32 (ty Ty.u64 (ty (Ty.vec Ty.symbol) no_ty))))
    ∷ ("update_admin", ty Ty.address no_ty)
    ∷ ("set_fallback", ty Ty.symbol (ty Ty.address no_ty))
    ∷ ("remove_fallback", ty Ty.symbol no_ty)
    ∷ ("set_pyth_config", ty Ty.address (ty Ty.u64 no_ty))
    ∷ ("get_pyth_config", no_ty)
    ∷ ("set_pyth_feed_id", ty Ty.symbol (ty (Ty.bytes_n 32) no_ty))
    ∷ ("remove_pyth_feed_id", ty Ty.symbol no_ty)
    ∷ ("get_pyth_feed_id", ty Ty.symbol no_ty)
    ∷ ("submit_pyth_update", ty Ty.bytes (ty (Ty.vec Ty.symbol) no_ty))
    ∷ ("set_symbol_staleness", ty Ty.symbol (ty Ty.u64 no_ty))
    ∷ ("clear_symbol_staleness", ty Ty.symbol no_ty)
    ∷ ("get_symbol_staleness", ty Ty.symbol no_ty)
    ∷ ("pause", no_ty)
    ∷ ("unpause", no_ty)
    ∷ ("admin_push_price", ty Ty.symbol (ty Ty.i128 (ty Ty.u64 no_ty)))
    ∷ ("upgrade", ty (Ty.bytes_n 32) no_ty)
    ∷ []

-- Every call of the client, whatever its arguments, fits the interface of the contract: the method is one of the contract, there are as many arguments as parameters, and each argument that is encoded has the type of its parameter, for all calls but `setAdmin` and `setPythFeedId`.
-- The hash of `upgrade` has 32 bytes.
pub oracle-Conforms :
    (c : ContractClient) (feed_id : String) (feed_ids : List String) (payload : List ℕ)
    (opts : InvokeOptions) (price18 : ℤ) (package_timestamp_ms : ℤ) (signers : List (List ℕ))
    (threshold : ℤ) (staleness_ms : ℤ) (new_wasm_hash : List ℕ) (max_age_ms : ℤ)
    (pyth_contract : String) (update_data : List ℕ) (is_hash : length new_wasm_hash ≡ 32)
    → Conforms c.xdr abi (get_price c feed_id).call
      × Conforms c.xdr abi (get_prices c feed_ids).call
      × Conforms c.xdr abi (version c).call
      × Conforms c.xdr abi (write_prices c payload opts)
      × Conforms c.xdr abi (admin_push_price c feed_id price18 package_timestamp_ms opts)
      × Conforms c.xdr abi (update_config c signers threshold staleness_ms feed_ids opts)
      × Conforms c.xdr abi (upgrade c new_wasm_hash opts)
      × Conforms c.xdr abi (set_symbol_staleness c feed_id max_age_ms opts)
      × Conforms c.xdr abi (clear_symbol_staleness c feed_id opts)
      × Conforms c.xdr abi (get_symbol_staleness c feed_id).call
      × Conforms c.xdr abi (set_pyth_config c pyth_contract max_age_ms opts)
      × Conforms c.xdr abi (remove_pyth_feed_id c feed_id opts)
      × Conforms c.xdr abi (submit_pyth_update c update_data feed_ids opts)
unfolding invoke simulate_return get_price get_prices version write_prices admin_push_price
    update_config upgrade set_symbol_staleness clear_symbol_staleness get_symbol_staleness
    set_pyth_config remove_pyth_feed_id submit_pyth_update
oracle-Conforms c feed_id feed_ids payload opts price18 package_timestamp_ms signers threshold
      staleness_ms new_wasm_hash max_age_ms pyth_contract update_data is_hash =
    (
      (symbol-Typed c.xdr feed_id, tt),
      (vec-Typed c.xdr (enc_symbol c.xdr) Ty.symbol (symbol-Typed c.xdr) feed_ids, tt),
      tt,
      (bytes-Typed c.xdr payload, tt),
      (
        symbol-Typed c.xdr feed_id,
        (i128-Typed c.xdr price18, (u64-Typed c.xdr package_timestamp_ms, tt)),
      ),
      (
        vec-Typed c.xdr (bytes_val c.xdr) Ty.bytes (bytes-Typed c.xdr) signers,
        (
          u32-Typed c.xdr threshold,
          (
            u64-Typed c.xdr staleness_ms,
            (vec-Typed c.xdr (enc_symbol c.xdr) Ty.symbol (symbol-Typed c.xdr) feed_ids, tt),
          ),
        ),
      ),
      (bytes_n-Typed c.xdr 32 new_wasm_hash is_hash, tt),
      (symbol-Typed c.xdr feed_id, (u64-Typed c.xdr max_age_ms, tt)),
      (symbol-Typed c.xdr feed_id, tt),
      (symbol-Typed c.xdr feed_id, tt),
      (address-Typed c.xdr pyth_contract, (u64-Typed c.xdr max_age_ms, tt)),
      (symbol-Typed c.xdr feed_id, tt),
      (
        bytes-Typed c.xdr update_data,
        (vec-Typed c.xdr (enc_symbol c.xdr) Ty.symbol (symbol-Typed c.xdr) feed_ids, tt),
      ),
    )
