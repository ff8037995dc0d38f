-- ===== src/Sdk/Perp/Markets.antt =====
-- The list of markets that the client knows itself (`STATIC_MARKETS` of packages/sdk/src/clients/perp-engine.ts).
use stellax.Base.{true, List, [], ◌∷◌, ℕ}
use Prim.Native.String.{String}
use stellax.Base.Int.{ℤ, pos}
use stellax.Sdk.Native.{int}
use stellax.Sdk.ScVal.Types.{Market, OpenInterest, Position}

abbrev pub of_market : ℕ → String → ℕ → ℕ → ℕ → ℕ → Market
of_market id base leverage maker taker cap = record {
  market_id = int (pos id);
  base_asset = base;
  quote_asset = "USD";
  max_leverage = int (pos leverage);
  maker_fee_bps = int (pos maker);
  taker_fee_bps = int (pos taker);
  max_oi_long = pos cap;
  max_oi_short = pos cap;
  is_active = true;
}

unfoldable pub static_markets : List Market
static_markets =
    of_market 0 "XLM" 20 5 10 10000000000000000000000
    ∷ of_market 1 "BTC" 50 5 10 10000000000000000000000
    ∷ of_market 2 "ETH" 20 5 10 10000000000000000000000
    ∷ of_market 3 "SOL" 20 5 10 10000000000000000000000
    ∷ of_market 100 "BENJI" 3 5 15 100000000000000000000
    ∷ of_market 101 "USDY" 3 5 15 100000000000000000000
    ∷ of_market 102 "OUSG" 3 5 15 100000000000000000000
    ∷ []

unfoldable pub list_markets : List Market
unfolding static_markets
list_markets = static_markets

-- Neither asks the chain: no open interest on any market, no position of any user.
unfoldable pub get_open_interest : ℤ → OpenInterest
get_open_interest market_id = record { long = pos 0; short = pos 0 }

unfoldable pub get_user_positions : String → List Position
get_user_positions user = []
