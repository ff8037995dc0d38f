-- ===== src/Sdk/Oracle/Admin.antt =====
-- `setAdmin` of the oracle's client against the contract.
use Prim.Native.String.{String}
use stellax.Base.{◌≡◌, some}
use stellax.Sdk.Client.{ContractClient, InvokeOptions, Request, request, invoke}
use stellax.Sdk.Client.Conforms.{Accepts, Accepts-Given}
use stellax.Sdk.Oracle.{set_admin}
use stellax.Sdk.Oracle.Fits.{abi}

-- No request of `setAdmin` is accepted: the contract has no method of that name, it is `update_admin`.
pub set_admin-Rejected :
    (c : ContractClient) (new_admin : String) (opts : InvokeOptions) (q : Request c.xdr.ScVal)
    → request (set_admin c new_admin opts) ≡ some q
    → ¬ Accepts c.xdr abi q
unfolding set_admin invoke
set_admin-Rejected c new_admin opts q e h =
    Accepts-Given c.xdr abi (set_admin c new_admin opts) q e h
