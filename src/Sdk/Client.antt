-- ===== src/Sdk/Client.antt =====
-- The base class of the contract clients (packages/sdk/src/core/client.ts). A method that writes is the
-- call it makes; one that reads has a decoder too. The executor that they pass it to is a parameter.
pub mod Conforms
use Prim.Native.String.{String}
use stellax.Base.{ℕ, Option, none, some, List}
use stellax.Sdk.Native.{◌>>=◌}
use stellax.Sdk.Xdr.{Xdr}
use stellax.Sdk.ScVal.{all_of, bytes_val}

pub record ContractClient : Type 1 where
  pub xdr : Xdr
  pub contract_id : String

pub record InvokeOptions : Type 0 where
  pub source_account : String
  pub timeout_seconds : Option ℕ
  pub max_retries : Option ℕ

-- what the executor is given
pub record Request (V : Type 0) : Type 0 where
  pub contract_id : String
  pub method : String
  pub args : List V
  pub opts : Option InvokeOptions

-- a call before its arguments are encoded
pub record Call (V : Type 0) : Type 0 where
  pub contract_id : String
  pub method : String
  pub args : List (Option V)
  pub opts : Option InvokeOptions

-- an encoder that throws leaves the executor uncalled
unfoldable pub request : {V : Type 0} → Call V → Option (Request V)
request c = all_of c.args >>= λ args.
    some (record { contract_id = c.contract_id; method = c.method; args = args; opts = c.opts })

pub record Read (V A : Type 0) : Type 0 where
  pub call : Call V
  pub decode : Option V → Option A

module _ (c : ContractClient) where
  open c use {xdr, contract_id}

  unfoldable pub invoke : String → List (Option xdr.ScVal) → InvokeOptions → Call xdr.ScVal
  invoke method args opts = record {
    contract_id = contract_id;
    method = method;
    args = args;
    opts = some opts;
  }

  unfoldable pub simulate_return :
      {A : Type 0}
      → String
      → List (Option xdr.ScVal)
      → (Option xdr.ScVal → Option A)
      → Read xdr.ScVal A
  simulate_return method args decode = record {
    call = record { contract_id = contract_id; method = method; args = args; opts = none };
    decode = decode;
  }

-- Reading through an executor, which throws or gives `returnValue`.
unfoldable pub perform : {V A : Type 0} → (Request V → Option (Option V)) → Read V A → Option A
unfolding request
perform simulate r = request r.call >>= λ q. simulate q >>= r.decode

module _ (c : ContractClient) where
  open c use {xdr}

  -- `pricePayload !== undefined ? enc.bytes(pricePayload) : xdr.ScVal.scvVoid()`
  unfoldable pub price_bytes : Option (List ℕ) → Option xdr.ScVal
  price_bytes none = some xdr.scv_void
  price_bytes (some payload) = bytes_val xdr payload
