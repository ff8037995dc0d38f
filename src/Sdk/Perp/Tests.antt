-- ===== src/Sdk/Perp/Tests.antt =====
-- Every call of the perp client at concrete arguments.
use Prim.Native.String.{String}
use stellax.Base.{ℕ, zero, suc, refl, true, Option, none, some, List, [], ◌∷◌}
use stellax.Base.Int.{ℤ, pos}
use stellax.Sdk.Xdr.Model.{model}
use stellax.Sdk.Client.{ContractClient, InvokeOptions}
use stellax.Sdk.Client.Conforms.{Conforms}
use stellax.Sdk.Perp.{
  get_position, get_unrealized_pnl, get_mark_price, version, open_position, close_position, upgrade,
  get_skew_state, set_clob, get_clob, create_order, execute_order, cancel_pending_order,
  get_pending_order, update_trailing_anchor, bracket_link, cancel_bracket_sibling, create_twap_plan,
  release_twap_slice, create_iceberg_plan, release_iceberg_slice, get_bracket, get_twap_plan,
  get_iceberg_plan, is_paused, pause, unpause, set_slp_vault, get_slp_vault,
}
use stellax.Sdk.Perp.Abi.{abi}
use stellax.Sdk.Perp.Fits.{perp-Conforms}
use stellax.Sdk.Perp.Orders.{OrderTypeVariant, trailing}

abbrev copies : ℕ → List ℕ
copies zero = []
copies (suc n) = 1 ∷ copies n

abbrev who : String
who = "GABC"

abbrev seven : ℤ
seven = pos 7

abbrev hash : List ℕ
hash = copies 32

abbrev no_payload : Option (List ℕ)
no_payload = none

abbrev options : InvokeOptions
options = record { source_account = "GABC"; timeout_seconds = none; max_retries = some 3 }

abbrev order_type_ex : OrderTypeVariant
order_type_ex = trailing seven seven

abbrev client : ContractClient
client = record { xdr = model; contract_id = "CXYZ" }

perp-Conforms_example :
    Conforms client.xdr abi (get_position client who seven).call
    × Conforms client.xdr abi (get_unrealized_pnl client seven).call
    × Conforms client.xdr abi (get_mark_price client seven).call
    × Conforms client.xdr abi (version client).call
    × Conforms client.xdr abi
        (open_position client who seven seven true seven seven options no_payload)
    × Conforms client.xdr abi (close_position client who seven options no_payload)
    × Conforms client.xdr abi (upgrade client hash options)
    × Conforms client.xdr abi (get_skew_state client seven).call
    × Conforms client.xdr abi (set_clob client who options)
    × Conforms client.xdr abi (get_clob client).call
    × Conforms client.xdr abi
        (create_order client who seven seven true seven seven order_type_ex seven options)
    × Conforms client.xdr abi (execute_order client who seven options no_payload)
    × Conforms client.xdr abi (cancel_pending_order client who seven options)
    × Conforms client.xdr abi (get_pending_order client seven).call
    × Conforms client.xdr abi (update_trailing_anchor client who seven seven options)
    × Conforms client.xdr abi (bracket_link client who seven seven seven options)
    × Conforms client.xdr abi (cancel_bracket_sibling client who seven seven options)
    × Conforms client.xdr abi
        (create_twap_plan client who seven seven true seven seven seven seven seven options)
    × Conforms client.xdr abi (release_twap_slice client who seven options)
    × Conforms client.xdr abi
        (create_iceberg_plan client who seven seven seven true seven seven seven seven options)
    × Conforms client.xdr abi (release_iceberg_slice client who seven seven options)
    × Conforms client.xdr abi (get_bracket client seven).call
    × Conforms client.xdr abi (get_twap_plan client seven).call
    × Conforms client.xdr abi (get_iceberg_plan client seven).call
    × Conforms client.xdr abi (is_paused client).call
    × Conforms client.xdr abi (pause client options)
    × Conforms client.xdr abi (unpause client options)
    × Conforms client.xdr abi (set_slp_vault client who options)
    × Conforms client.xdr abi (get_slp_vault client).call
perp-Conforms_example =
    perp-Conforms client who seven seven seven true seven seven options no_payload hash who
      order_type_ex seven who seven seven seven seven seven seven seven seven seven seven seven
      seven seven who refl
