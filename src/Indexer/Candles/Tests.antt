-- ===== src/Indexer/Candles/Tests.antt =====
-- Candles of three prices, with a gap of one bucket.
use stellax.Base.{ℕ, ◌≡◌, ◌+◌, ◌*◌, arith, refl, true, false, List, [], ◌∷◌, sort, insert, reverse}
use stellax.Base.Int.{ℤ, pos}
use stellax.Indexer.Rows.{OraclePriceRow, PriceSource, redstone, admin}
use stellax.Indexer.Params.{decimal, clamp_limit, clamp_interval_secs}
use stellax.Indexer.Candles.{
  PriceCandle, only, mixed, add_row, group, fill, earlier, to_candles, all_candles,
}
use stellax.Indexer.Candles.Continuous.{candles_at, all_candles-continuous}

abbrev price : ℤ → ℕ → PriceSource → OraclePriceRow
price p ts source = record {
  feed = b'X' ∷ [];
  price = p;
  package_timestamp = ts;
  write_timestamp = ts;
  source = source;
  tx_hash = [];
}

abbrev rows : List OraclePriceRow
rows = price (pos 7) 200 admin ∷ price (pos 4) 70 admin ∷ price (pos 9) 65 redstone ∷ []

abbrev candle : ℕ → ℤ → ℤ → ℤ → ℤ → PriceCandle
candle t o h l c = record { time = t; open_price = o; high = h; low = l; close = c; source = mixed }

gap_filled :
    to_candles rows 60 50
    ≡ candle 60 (pos 9) (pos 9) (pos 4) (pos 4)
      ∷ candle 120 (pos 4) (pos 4) (pos 4) (pos 4)
      ∷ record (candle 180 (pos 7) (pos 7) (pos 7) (pos 7)) { source = only admin }
      ∷ []
unfolding to_candles all_candles group add_row fill sort insert
gap_filled = refl

abbrev limit : ℕ
limit = 2

abbrev first : PriceCandle
first = candle 60 (pos 9) (pos 9) (pos 4) (pos 4)

abbrev last : PriceCandle
last = record (candle 180 (pos 7) (pos 7) (pos 7) (pos 7)) { source = only admin }

two_buckets : sort earlier (group 60 (reverse rows) []) ≡ first ∷ last ∷ []
unfolding group add_row sort insert
two_buckets = refl

all_candles-continuous_example : candles_at (60 + 1 * 60) (all_candles rows 60) ≡ 1
all_candles-continuous_example =
    all_candles-continuous 1 60 rows first last [] (omega arith) two_buckets (omega arith)

-- a limit of 0.5 becomes 0
no_limit : clamp_limit (decimal 0 true) 500 ≡ 0
unfolding clamp_limit
no_limit = refl

minute : clamp_interval_secs (decimal 90 false) ≡ 90
unfolding clamp_interval_secs
minute = refl
