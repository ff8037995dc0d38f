-- ===== src/Sdk/ScVal/Reads.antt =====
-- What the struct decoders make of the structs that the contracts return.
use Prim.Native.String.{String}
use stellax.Base.{◌≡◌, refl, Bool, some, [], ◌∷◌}
use stellax.Base.Int.{ℤ}
use stellax.Sdk.Native.{int, bool, number, big, text, struct_of}
use stellax.Sdk.Xdr.{Xdr}
use stellax.Sdk.ScVal.Structs.{price_data, position, market}

-- Of a price, a position and a market as the contracts return them, every field is read.
pub structs-read :
    (x : Xdr) (price_data_v : x.ScVal)
    (price_data_price price_data_package_timestamp price_data_write_timestamp : ℤ)
    (position_v : x.ScVal) (position_owner : String)
    (position_market_id position_size position_entry_price position_margin position_leverage
      position_last_funding_idx position_open_timestamp : ℤ)
    (position_is_long : Bool) (market_v : x.ScVal)
    (market_market_id market_max_leverage market_maker_fee_bps market_taker_fee_bps
      market_max_oi_long market_max_oi_short : ℤ)
    (market_base_asset market_quote_asset : String) (market_is_active : Bool)
    → x.sc_val_to_native price_data_v
      ≡ struct_of (
          ("package_timestamp", big price_data_package_timestamp)
          ∷ ("price", big price_data_price)
          ∷ ("write_timestamp", big price_data_write_timestamp)
          ∷ [])
    → x.sc_val_to_native position_v
      ≡ struct_of (
          ("entry_price", big position_entry_price)
          ∷ ("is_long", bool position_is_long)
          ∷ ("last_funding_idx", big position_last_funding_idx)
          ∷ ("leverage", number position_leverage)
          ∷ ("margin", big position_margin)
          ∷ ("market_id", number position_market_id)
          ∷ ("open_timestamp", big position_open_timestamp)
          ∷ ("owner", text position_owner)
          ∷ ("size", big position_size)
          ∷ [])
    → x.sc_val_to_native market_v
      ≡ struct_of (
          ("base_asset", text market_base_asset)
          ∷ ("is_active", bool market_is_active)
          ∷ ("maker_fee_bps", number market_maker_fee_bps)
          ∷ ("market_id", number market_market_id)
          ∷ ("max_leverage", number market_max_leverage)
          ∷ ("max_oi_long", big market_max_oi_long)
          ∷ ("max_oi_short", big market_max_oi_short)
          ∷ ("quote_asset", text market_quote_asset)
          ∷ ("taker_fee_bps", number market_taker_fee_bps)
          ∷ [])
    → (price_data x (some price_data_v)
        ≡ some (record {
          price = price_data_price;
          package_timestamp = price_data_package_timestamp;
          write_timestamp = price_data_write_timestamp;
        }))
      × (position x (some position_v)
          ≡ some (record {
            owner = position_owner;
            market_id = int position_market_id;
            size = position_size;
            entry_price = position_entry_price;
            margin = position_margin;
            leverage = int position_leverage;
            is_long = position_is_long;
            last_funding_idx = position_last_funding_idx;
            open_timestamp = position_open_timestamp;
          }))
      × (market x (some market_v)
          ≡ some (record {
            market_id = int market_market_id;
            base_asset = market_base_asset;
            quote_asset = market_quote_asset;
            max_leverage = int market_max_leverage;
            maker_fee_bps = int market_maker_fee_bps;
            taker_fee_bps = int market_taker_fee_bps;
            max_oi_long = market_max_oi_long;
            max_oi_short = market_max_oi_short;
            is_active = market_is_active;
          }))
unfolding price_data position market
structs-read x price_data_v price_data_price price_data_package_timestamp price_data_write_timestamp
      position_v position_owner position_market_id position_size position_entry_price
      position_margin position_leverage position_last_funding_idx position_open_timestamp
      position_is_long market_v market_market_id market_max_leverage market_maker_fee_bps
      market_taker_fee_bps market_max_oi_long market_max_oi_short market_base_asset
      market_quote_asset market_is_active h0 h1 h2 =
    (rw h0 refl, rw h1 refl, rw h2 refl)
