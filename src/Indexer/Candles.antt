-- ===== src/Indexer/Candles.antt =====
-- The candles of a feed's prices (`toCandles` of packages/indexer/src/api.ts). The interval is positive
-- (`clampIntervalSecs`), so the fill has the number of its steps as fuel.
pub mod Buckets
pub mod Shape
pub mod Continuous
mod Tests
use stellax.Base.{
  ℕ, zero, suc, ◌+◌, ◌-◌, ◌*◌, ◌/◌, Bool, true, false, Option, none, some, List, [], ◌∷◌, ◌++◌, ltb,
  leb, ◌==◌, if◌then◌else◌, length, drop, sort, reverse, find,
}
use stellax.Base.Int.{ℤ, ltb_ℤ}
use stellax.Indexer.Rows.{PriceSource, redstone, admin, OraclePriceRow}

pub data CandleSource : Type 0 where
  only : PriceSource → CandleSource
  mixed : CandleSource

pub record PriceCandle : Type 0 where
  pub time : ℕ
  pub open_price : ℤ
  pub high : ℤ
  pub low : ℤ
  pub close : ℤ
  pub source : CandleSource

abbrev pub merge_source : CandleSource → PriceSource → CandleSource
merge_source mixed p = mixed
merge_source (only redstone) redstone = only redstone
merge_source (only redstone) admin = mixed
merge_source (only admin) redstone = mixed
merge_source (only admin) admin = only admin

abbrev pub first_candle : ℕ → OraclePriceRow → PriceCandle
first_candle time row = record {
  time = time;
  open_price = row.price;
  high = row.price;
  low = row.price;
  close = row.price;
  source = only row.source;
}

abbrev pub extend : OraclePriceRow → PriceCandle → PriceCandle
extend row c = record c {
  high = if ltb_ℤ c.high row.price then row.price else c.high;
  low = if ltb_ℤ row.price c.low then row.price else c.low;
  close = row.price;
  source = merge_source c.source row.source;
}

-- `buckets`, in the order of insertion
unfoldable pub add_row : ℕ → OraclePriceRow → List PriceCandle → List PriceCandle
add_row time row [] = first_candle time row ∷ []
add_row time row (c ∷ cs) = if c.time == time then extend row c ∷ cs else c ∷ add_row time row cs

abbrev pub time_of : ℕ → OraclePriceRow → ℕ
time_of interval row = row.write_timestamp / interval * interval

-- the loop over the rows
unfoldable pub group : ℕ → List OraclePriceRow → List PriceCandle → List PriceCandle
unfolding add_row
group interval [] cs = cs
group interval (row ∷ rows) cs = group interval rows (add_row (time_of interval row) row cs)

abbrev pub at_time : ℕ → PriceCandle → Bool
at_time t c = c.time == t

-- a candle for a gap
abbrev pub filler : ℕ → PriceCandle → PriceCandle
filler t last = record {
  time = t;
  open_price = last.close;
  high = last.close;
  low = last.close;
  close = last.close;
  source = last.source;
}

-- the loop of the fill: `t` and `lastCandle`
unfoldable pub fill :
    ℕ → (interval last_time t : ℕ) → PriceCandle → List PriceCandle → List PriceCandle
fill zero interval last_time t last cs = cs
fill (suc fuel) interval last_time t last cs = elim (leb t last_time) [
  | false ↦ cs
  | true ↦ elim (find (at_time t) cs) [
    | none ↦ fill fuel interval last_time (t + interval) last (cs ++ (filler t last ∷ []))
    | some c ↦ fill fuel interval last_time (t + interval) c cs
  ]
]

abbrev pub earlier : PriceCandle → PriceCandle → Bool
earlier a b = leb a.time b.time

abbrev pub last_time_of : List PriceCandle → ℕ
last_time_of [] = 0
last_time_of (c ∷ []) = c.time
last_time_of (c ∷ d ∷ cs) = last_time_of (d ∷ cs)

-- the fill from the first candle to the last, where there are two
abbrev pub fill_gaps : ℕ → List PriceCandle → List PriceCandle → List PriceCandle
fill_gaps interval [] cs = cs
fill_gaps interval (c ∷ []) cs = cs
fill_gaps interval (c ∷ d ∷ rest) cs =
    let last_time = last_time_of (d ∷ rest) in
    fill ((last_time - c.time) / interval) interval last_time (c.time + interval) c cs

-- `xs.slice(-limit)`; `slice(-0)` is the whole list
abbrev pub slice_last : ℕ → List PriceCandle → List PriceCandle
slice_last limit cs = if limit == 0 then cs else drop (length cs - limit) cs

-- the candles of all rows, the earliest first
unfoldable pub all_candles : List OraclePriceRow → ℕ → List PriceCandle
unfolding group fill
all_candles rows_desc interval =
    let buckets = group interval (reverse rows_desc) [] in
    sort earlier (fill_gaps interval (sort earlier buckets) buckets)

unfoldable pub to_candles : List OraclePriceRow → (interval limit : ℕ) → List PriceCandle
unfolding all_candles
to_candles rows_desc interval limit = slice_last limit (all_candles rows_desc interval)
