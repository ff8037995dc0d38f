-- ===== src/Sdk/RwaIssuer/Reads.antt =====
-- What the decoder of the token client makes of the configuration that the contract returns.
use Prim.Native.String.{String}
use stellax.Base.{◌≡◌, refl, Bool, some, [], ◌∷◌}
use stellax.Base.Int.{ℤ}
use stellax.Sdk.Native.{int, bool, number, big, text, struct_of}
use stellax.Sdk.Xdr.{Xdr}
use stellax.Sdk.RwaIssuer.{decode_config}

-- Of a configuration as the contract returns it every field is read.
pub decode_config-reads :
    (x : Xdr) (v : x.ScVal) (admin name symbol : String) (decimals apy_bps total_supply : ℤ)
    (auth_required paused : Bool)
    → x.sc_val_to_native v
      ≡ struct_of (
          ("admin", text admin)
          ∷ ("apy_bps", number apy_bps)
          ∷ ("auth_required", bool auth_required)
          ∷ ("decimals", number decimals)
          ∷ ("name", text name)
          ∷ ("paused", bool paused)
          ∷ ("symbol", text symbol)
          ∷ ("total_supply", big total_supply)
          ∷ [])
    → decode_config x (some v)
      ≡ some (record {
        admin = admin;
        name = name;
        symbol = symbol;
        decimals = int decimals;
        apy_bps = int apy_bps;
        auth_required = auth_required;
        paused = paused;
        total_supply = total_supply;
      })
unfolding decode_config
decode_config-reads x v admin name symbol decimals apy_bps total_supply auth_required paused h0 =
    rw h0 refl
