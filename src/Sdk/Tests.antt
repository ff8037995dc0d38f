-- ===== src/Sdk/Tests.antt =====
-- The theorems on the SDK's clients at concrete values, over the model of the Stellar SDK.
use Prim.Native.String.{String}
use package.text.Mathlib.Text.{◌==◌ as str_eq}
use stellax.Base.{
  ℕ, zero, suc, ◌≡◌, refl, true, false, Option, none, some, List, [], ◌∷◌, if◌then◌else◌, ◌⊎◌,
}
use stellax.Base.Int.{ℤ, pos, ◌+ℤ◌, ◌≤ℤ◌, ◌<ℤ◌}
use stellax.Sdk.Native.{int, number, big, text, bytes, struct_of}
use stellax.Sdk.Native.{bool}
use stellax.Sdk.Xdr.{Scalar}
use stellax.Sdk.Xdr.Model.{Val, model, made, is_address, is_bool}
use stellax.Sdk.ScVal.{
  u32, u64, i128, bool as enc_bool, bytes_val, bytes_n, enum_unit, address, vec, dec_bigint, native,
}
use stellax.Sdk.Js.{parse_int_16, codes}
use stellax.Sdk.Client.{
  ContractClient, InvokeOptions, Request, request, invoke, simulate_return, perform, price_bytes,
}
use stellax.Sdk.Client.Conforms.{Accepts}
use stellax.Sdk.Perp.Orders.{
  trailing, encode_order_type, decode_order_type, feed_id_to_bytes, hex_bytes, without_0x,
}
use stellax.Sdk.Perp.Plans.{decode_twap_plan}
use stellax.Sdk.Perp.OrderType.{decode_order_type-encode}
use stellax.Sdk.Perp.Broken.{open_position_with_update-Rejected, decode_twap_plan-throws}
use stellax.Sdk.Clob.Orders.{LimitOrderParams, encode_limit_order, decode_limit_order}
use stellax.Sdk.Clob.Reads.{decode_limit_order-encode}
use stellax.Sdk.Perp.Abi.{abi as perp_abi}
use stellax.Sdk.Perp.{open_position_with_update}
use stellax.Sdk.Vault.{get_total_collateral_value, get_free_collateral_value, get_vault_balance}
use stellax.Sdk.Vault.Balance.{get_vault_balance-adds_up}

abbrev copies : ℕ → ℕ → List ℕ
copies zero b = []
copies (suc n) b = b ∷ copies n b

abbrev who : String
who = "GABC"

abbrev seven : ℤ
seven = pos 7

abbrev hash : List ℕ
hash = copies 32 1

abbrev update : List ℕ
update = 1 ∷ 2 ∷ []

abbrev no_names : List String
no_names = []

abbrev no_payload : Option (List ℕ)
no_payload = none

abbrev options : InvokeOptions
options = record { source_account = "GABC"; timeout_seconds = none; max_retries = some 3 }

abbrev client : ContractClient
client = record { xdr = model; contract_id = "CXYZ" }

abbrev an_order : LimitOrderParams
an_order = record {
  trader = who;
  market_id = seven;
  size = seven;
  price = seven;
  is_long = true;
  leverage = seven;
  expiry = seven;
  nonce = seven;
  signature = copies 64 9;
}

abbrev address_value : Val
address_value = record { native = text who; is_void = false; has = is_address }

abbrev bool_value : Val
bool_value = record { native = bool true; is_void = false; has = is_bool }

abbrev order_entries : List (String × Val)
order_entries =
    ("expiry", made (big seven) Scalar.u64)
    ∷ ("filled_size", made (big (pos 0)) Scalar.i128)
    ∷ ("is_long", bool_value)
    ∷ ("leverage", made (number seven) Scalar.u32)
    ∷ ("market_id", made (number seven) Scalar.u32)
    ∷ ("nonce", made (big seven) Scalar.u64)
    ∷ ("order_id", made (big (pos 0)) Scalar.u64)
    ∷ ("price", made (big seven) Scalar.i128)
    ∷ ("signature", made (bytes (copies 64 9)) Scalar.bytes)
    ∷ ("size", made (big seven) Scalar.i128)
    ∷ ("status", model.scv_vec (model.scv_symbol "Open" ∷ []))
    ∷ ("trader", address_value)
    ∷ []

abbrev order_val : Val
order_val = model.scv_map order_entries

abbrev open_request : Request Val
open_request = record {
  contract_id = "CXYZ";
  method = "open_position_with_update";
  args =
      address_value
      ∷ made (number seven) Scalar.u32
      ∷ made (big seven) Scalar.i128
      ∷ bool_value
      ∷ made (number seven) Scalar.u32
      ∷ made (number seven) Scalar.u32
      ∷ model.scv_void
      ∷ made (bytes update) Scalar.bytes
      ∷ model.scv_vec (made (bytes (hex_bytes (without_0x (codes who)))) Scalar.bytes ∷ [])
      ∷ [];
  opts = some options;
}

abbrev trailing_val : Val
trailing_val =
    model.scv_vec (
      model.scv_symbol "Trailing"
      ∷ made (big seven) Scalar.i128
      ∷ made (big seven) Scalar.i128
      ∷ [])

-- answers 7 for the whole collateral and 5 for the free part
abbrev a_simulate : Request Val → Option (Option Val)
a_simulate q = some (
    some (
      made (big (if str_eq q.method "get_free_collateral_value" then pos 5 else seven))
        Scalar.i128))

abbrev plan_val : Val
plan_val = record {
  native = struct_of (
      ("active", bool true)
      ∷ ("expiry_ledger", number seven)
      ∷ ("interval_ledgers", number seven)
      ∷ ("is_long", bool true)
      ∷ ("leverage", number seven)
      ∷ ("market_id", number seven)
      ∷ ("max_slippage", number seven)
      ∷ ("plan_id", big seven)
      ∷ ("slices", number seven)
      ∷ ("slices_released", number seven)
      ∷ ("start_ledger", number seven)
      ∷ ("total_size", big seven)
      ∷ ("user", text who)
      ∷ []);
  is_void = false;
  has = λ t. false;
}

decode_limit_order-encode_example :
    decode_limit_order model (some order_val)
    ≡ some (record {
      order_id = pos 0;
      trader = an_order.trader;
      market_id = int an_order.market_id;
      size = an_order.size;
      price = an_order.price;
      is_long = an_order.is_long;
      leverage = int an_order.leverage;
      expiry = an_order.expiry;
      nonce = an_order.nonce;
      signature = an_order.signature;
      status = "Open";
      filled_size = pos 0;
    })
unfolding encode_limit_order u32 u64 i128 enc_bool bytes_n enum_unit address
decode_limit_order-encode_example = decode_limit_order-encode client an_order order_val refl

open_position_with_update-Rejected_example : ¬ Accepts model perp_abi open_request
unfolding open_position_with_update request invoke address u32 i128 enc_bool bytes_val vec
    feed_id_to_bytes bytes_n price_bytes hex_bytes parse_int_16
open_position_with_update-Rejected_example =
    open_position_with_update-Rejected client who seven seven true seven seven update who no_names
      options no_payload open_request refl

decode_twap_plan-throws_example : decode_twap_plan model (some plan_val) ≡ none
decode_twap_plan-throws_example =
    decode_twap_plan-throws model plan_val seven seven who true true seven seven seven seven seven
      seven seven seven refl

decode_order_type-encode_example :
    decode_order_type trailing_val.native ≡ some (trailing seven seven)
unfolding encode_order_type i128
decode_order_type-encode_example =
    decode_order_type-encode client (trailing seven seven) trailing_val refl

get_vault_balance-adds_up_example :
    (locked : ℤ) × (get_vault_balance client a_simulate who
      ≡ some (record { free = (pos 5); locked = locked }))
    × ((((pos 5) ≤ℤ seven) × ((pos 5) +ℤ locked ≡ seven)) ⊎ ((seven <ℤ (pos 5)) × (locked ≡ pos 0)))
unfolding perform request get_total_collateral_value get_free_collateral_value simulate_return
    address dec_bigint native
get_vault_balance-adds_up_example =
    get_vault_balance-adds_up client a_simulate who seven (pos 5) refl refl
