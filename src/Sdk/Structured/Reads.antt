-- ===== src/Sdk/Structured/Reads.antt =====
-- What the decoder of the structured vault makes of the epoch that the contract returns.
use stellax.Base.{◌≡◌, refl, Bool, some, [], ◌∷◌}
use stellax.Base.Int.{ℤ}
use stellax.Sdk.Native.{int, bool, number, big, struct_of}
use stellax.Sdk.Xdr.{Xdr}
use stellax.Sdk.Structured.{decode_epoch_state}

-- Of an epoch as the contract returns it every field is read.
pub decode_epoch_state-reads :
    (x : Xdr) (v : x.ScVal) (epoch_id start_time end_time strike option_id total_assets premium : ℤ)
    (settled : Bool)
    → x.sc_val_to_native v
      ≡ struct_of (
          ("end_time", big end_time)
          ∷ ("epoch_id", number epoch_id)
          ∷ ("option_id", big option_id)
          ∷ ("premium", big premium)
          ∷ ("settled", bool settled)
          ∷ ("start_time", big start_time)
          ∷ ("strike", big strike)
          ∷ ("total_assets", big total_assets)
          ∷ [])
    → decode_epoch_state x (some v)
      ≡ some (record {
        epoch_id = int epoch_id;
        start_time = start_time;
        end_time = end_time;
        strike = strike;
        option_id = option_id;
        total_assets = total_assets;
        premium = premium;
        settled = settled;
      })
unfolding decode_epoch_state
decode_epoch_state-reads x v epoch_id start_time end_time strike option_id total_assets premium
      settled h0 =
    rw h0 refl
