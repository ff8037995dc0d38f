-- ===== src/Sdk/Perp/Reads.antt =====
-- What the decoders of the perp client make of the structs that the contract returns.
use Prim.Native.String.{String}
use stellax.Base.{◌≡◌, refl, Bool, some, [], ◌∷◌}
use stellax.Base.Int.{ℤ}
use stellax.Sdk.Native.{Native, int, bool, number, big, text, struct_of}
use stellax.Sdk.Xdr.{Xdr}
use stellax.Sdk.Perp.Orders.{decode_order_type, OrderTypeVariant}
use stellax.Sdk.Perp.Plans.{decode_skew_state, decode_pending_order}

-- Of the skew of a market and a pending order as the contract returns them every field is read, the order
-- type as its decoder reads it.
pub perp_structs-read :
    (x : Xdr) (skew_state_v : x.ScVal)
    (skew_state_skew skew_state_skew_scale skew_state_maker_rebate_bps : ℤ)
    (pending_order_v : x.ScVal)
    (pending_order_order_id pending_order_market_id pending_order_size pending_order_leverage
      pending_order_max_slippage pending_order_created_ledger pending_order_expiry_ledger : ℤ)
    (pending_order_user : String) (pending_order_is_long : Bool) (pending_order_order_type : Native)
    (pending_order_type : OrderTypeVariant)
    → x.sc_val_to_native skew_state_v
      ≡ struct_of (
          ("maker_rebate_bps", number skew_state_maker_rebate_bps)
          ∷ ("skew", big skew_state_skew)
          ∷ ("skew_scale", big skew_state_skew_scale)
          ∷ [])
    → x.sc_val_to_native pending_order_v
      ≡ struct_of (
          ("created_ledger", number pending_order_created_ledger)
          ∷ ("expiry_ledger", number pending_order_expiry_ledger)
          ∷ ("is_long", bool pending_order_is_long)
          ∷ ("leverage", number pending_order_leverage)
          ∷ ("market_id", number pending_order_market_id)
          ∷ ("max_slippage", number pending_order_max_slippage)
          ∷ ("order_id", big pending_order_order_id)
          ∷ ("order_type", pending_order_order_type)
          ∷ ("size", big pending_order_size)
          ∷ ("user", text pending_order_user)
          ∷ [])
    → decode_order_type pending_order_order_type ≡ some pending_order_type
    → (decode_skew_state x (some skew_state_v)
        ≡ some (record {
          skew = skew_state_skew;
          skew_scale = skew_state_skew_scale;
          maker_rebate_bps = int skew_state_maker_rebate_bps;
        }))
      × (decode_pending_order x (some pending_order_v)
          ≡ some (record {
            order_id = pending_order_order_id;
            user = pending_order_user;
            market_id = int pending_order_market_id;
            size = pending_order_size;
            is_long = pending_order_is_long;
            leverage = int pending_order_leverage;
            max_slippage = int pending_order_max_slippage;
            created_ledger = int pending_order_created_ledger;
            expiry_ledger = int pending_order_expiry_ledger;
            order_type = pending_order_type;
          }))
unfolding decode_skew_state decode_pending_order
perp_structs-read x skew_state_v skew_state_skew skew_state_skew_scale skew_state_maker_rebate_bps
      pending_order_v pending_order_order_id pending_order_market_id pending_order_size
      pending_order_leverage pending_order_max_slippage pending_order_created_ledger
      pending_order_expiry_ledger pending_order_user pending_order_is_long pending_order_order_type
      pending_order_type h0 h1 h2 =
    (rw h0 refl, rw h1 (rw (h2, decode_order_type) refl))
