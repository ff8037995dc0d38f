-- ===== src/Sdk/RwaIssuer/Fits.antt =====
-- The calls of the calls of a token of real-world assets against the interface of the contract (contracts/stellax-rwa-issuer/src/lib.rs).
use Prim.Native.String.{String}
use stellax.Base.{ℕ, ◌≡◌, Bool, List, [], ◌∷◌, length}
use stellax.Base.Int.{ℤ}
use stellax.Sdk.Xdr.{Ty, ty, no_ty}
use stellax.Sdk.ScVal.{address, i128}
use stellax.Sdk.ScVal.Typed.{
  u32-Typed, u64-Typed, i128-Typed, bytes_n-Typed, bool-Typed, address-Typed, vec-Typed,
}
use stellax.Sdk.Client.{ContractClient, InvokeOptions, invoke, simulate_return}
use stellax.Sdk.Client.Conforms.{Abi, Conforms}
use stellax.Sdk.RwaIssuer.{
  get_config, name, symbol, decimals, balance, allowance, cumulative_yield, version, approve,
  transfer, transfer_from, burn, burn_from, mint, credit_yield, set_apy_bps, set_authorized,
  set_auth_required, pause, unpause, upgrade,
}

abbrev pub abi : Abi
abi =
    (
      "__constructor",
      ty Ty.address (ty Ty.string (ty Ty.string (ty Ty.u32 (ty Ty.u32 (ty Ty.bool no_ty))))),
    )
    ∷ ("version", no_ty)
    ∷ ("get_config", no_ty)
    ∷ ("name", no_ty)
    ∷ ("symbol", no_ty)
    ∷ ("decimals", no_ty)
    ∷ ("balance", ty Ty.address no_ty)
    ∷ ("allowance", ty Ty.address (ty Ty.address no_ty))
    ∷ ("approve", ty Ty.address (ty Ty.address (ty Ty.i128 (ty Ty.u32 no_ty))))
    ∷ ("transfer", ty Ty.address (ty Ty.address (ty Ty.i128 no_ty)))
    ∷ ("transfer_from", ty Ty.address (ty Ty.address (ty Ty.address (ty Ty.i128 no_ty))))
    ∷ ("burn", ty Ty.address (ty Ty.i128 no_ty))
    ∷ ("burn_from", ty Ty.address (ty Ty.address (ty Ty.i128 no_ty)))
    ∷ ("mint", ty Ty.address (ty Ty.i128 no_ty))
    ∷ ("credit_yield", ty (Ty.vec Ty.address) (ty (Ty.vec Ty.i128) (ty Ty.u64 no_ty)))
    ∷ ("cumulative_yield", ty Ty.address no_ty)
    ∷ ("set_apy_bps", ty Ty.u32 no_ty)
    ∷ ("set_admin", ty Ty.address no_ty)
    ∷ ("set_authorized", ty Ty.address (ty Ty.bool no_ty))
    ∷ ("set_auth_required", ty Ty.bool no_ty)
    ∷ ("pause", no_ty)
    ∷ ("unpause", no_ty)
    ∷ ("upgrade", ty (Ty.bytes_n 32) no_ty)
    ∷ []

-- Every call of the client, whatever its arguments, fits the interface of the contract: the method is one of the contract, there are as many arguments as parameters, and each argument that is encoded has the type of its parameter.
-- The hash of `upgrade` has 32 bytes.
pub rwa_issuer-Conforms :
    (c : ContractClient) (holder : String) (from : String) (spender : String) (amount : ℤ)
    (expiration_ledger : ℤ) (opts : InvokeOptions) (to : String) (holders : List String)
    (deltas : List ℤ) (epoch_id : ℤ) (apy_bps : ℤ) (ok : Bool) (required : Bool)
    (new_wasm_hash : List ℕ) (is_hash : length new_wasm_hash ≡ 32)
    → Conforms c.xdr abi (get_config c).call
      × Conforms c.xdr abi (name c).call
      × Conforms c.xdr abi (symbol c).call
      × Conforms c.xdr abi (decimals c).call
      × Conforms c.xdr abi (balance c holder).call
      × Conforms c.xdr abi (allowance c from spender).call
      × Conforms c.xdr abi (cumulative_yield c holder).call
      × Conforms c.xdr abi (version c).call
      × Conforms c.xdr abi (approve c from spender amount expiration_ledger opts)
      × Conforms c.xdr abi (transfer c from to amount opts)
      × Conforms c.xdr abi (transfer_from c spender from to amount opts)
      × Conforms c.xdr abi (burn c from amount opts)
      × Conforms c.xdr abi (burn_from c spender from amount opts)
      × Conforms c.xdr abi (mint c to amount opts)
      × Conforms c.xdr abi (credit_yield c holders deltas epoch_id opts)
      × Conforms c.xdr abi (set_apy_bps c apy_bps opts)
      × Conforms c.xdr abi (set_authorized c holder ok opts)
      × Conforms c.xdr abi (set_auth_required c required opts)
      × Conforms c.xdr abi (pause c opts)
      × Conforms c.xdr abi (unpause c opts)
      × Conforms c.xdr abi (upgrade c new_wasm_hash opts)
unfolding invoke simulate_return get_config name symbol decimals balance allowance cumulative_yield
    version approve transfer transfer_from burn burn_from mint credit_yield set_apy_bps
    set_authorized set_auth_required pause unpause upgrade
rwa_issuer-Conforms c holder from spender amount expiration_ledger opts to holders deltas epoch_id
      apy_bps ok required new_wasm_hash is_hash =
    (
      tt,
      tt,
      tt,
      tt,
      (address-Typed c.xdr holder, tt),
      (address-Typed c.xdr from, (address-Typed c.xdr spender, tt)),
      (address-Typed c.xdr holder, tt),
      tt,
      (
        address-Typed c.xdr from,
        (
          address-Typed c.xdr spender,
          (i128-Typed c.xdr amount, (u32-Typed c.xdr expiration_ledger, tt)),
        ),
      ),
      (address-Typed c.xdr from, (address-Typed c.xdr to, (i128-Typed c.xdr amount, tt))),
      (
        address-Typed c.xdr spender,
        (address-Typed c.xdr from, (address-Typed c.xdr to, (i128-Typed c.xdr amount, tt))),
      ),
      (address-Typed c.xdr from, (i128-Typed c.xdr amount, tt)),
      (address-Typed c.xdr spender, (address-Typed c.xdr from, (i128-Typed c.xdr amount, tt))),
      (address-Typed c.xdr to, (i128-Typed c.xdr amount, tt)),
      (
        vec-Typed c.xdr (address c.xdr) Ty.address (address-Typed c.xdr) holders,
        (
          vec-Typed c.xdr (i128 c.xdr) Ty.i128 (i128-Typed c.xdr) deltas,
          (u64-Typed c.xdr epoch_id, tt),
        ),
      ),
      (u32-Typed c.xdr apy_bps, tt),
      (address-Typed c.xdr holder, (bool-Typed c.xdr ok, tt)),
      (bool-Typed c.xdr required, tt),
      tt,
      tt,
      (bytes_n-Typed c.xdr 32 new_wasm_hash is_hash, tt),
    )
