-- ===== src/Keeper/Wire/Tests.antt =====
-- The calls of the workers at concrete arguments, over the model of the Stellar SDK.
use Prim.Native.String.{String}
use stellax.Base.{ℕ, refl, none, List, [], ◌∷◌}
use stellax.Base.Int.{pos}
use stellax.Keeper.Chain.{Call as ContractCall, credit_yield}
use stellax.Keeper.Wire.{send}
use stellax.Keeper.Wire.Fits.{abi_of, send-Conforms, liquidate-Rejected}
use stellax.Sdk.Native.{big}
use stellax.Sdk.Xdr.{Scalar}
use stellax.Sdk.Xdr.Model.{Val, model, made}
use stellax.Sdk.ScVal.{u64}
use stellax.Sdk.Client.{ContractClient, Request, request}
use stellax.Sdk.Client.Conforms.{Conforms, Accepts}
use stellax.Sdk.Risk.Fits.{abi as risk_abi}

abbrev client : ContractClient
client = record { xdr = model; contract_id = "CXYZ" }

abbrev a_string : List ℕ → String
a_string units = "GUSER"

abbrev credit : ContractCall
credit = credit_yield ("GA" ∷ "GB" ∷ []) (pos 5 ∷ pos 7 ∷ []) 12

abbrev liquidation : Request Val
liquidation = record {
  contract_id = "CXYZ";
  method = "liquidate";
  args = made (big (pos 7)) Scalar.u64 ∷ [];
  opts = none;
}

send-Conforms_example : Conforms model (abi_of credit) (send client "GKEEPER" a_string credit)
send-Conforms_example = send-Conforms client "GKEEPER" a_string credit refl

liquidate-Rejected_example : ¬ Accepts model risk_abi liquidation
unfolding send request u64
liquidate-Rejected_example = liquidate-Rejected client "GKEEPER" a_string 7 liquidation refl
