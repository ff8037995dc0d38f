-- ===== src/Keeper/Nav.antt =====
-- The choice of a price among the quotes of several sources (packages/keeper/src/rwa-nav.ts). All quotes
-- are of one symbol, and the clock is read once. A price is a multiple of a fixed unit and the arithmetic
-- is exact, where the source computes with doubles (the rounding of `toFixed18` is left out); a mean of
-- two prices is kept as their sum, so a median here is twice the source's.
pub mod Median
pub mod Robust
mod Tests
use stellax.Base.{
  ℕ, zero, suc, ◌+◌, ◌-◌, ◌*◌, ◌/◌, ◌%◌, Bool, true, false, ◌&&◌, Option, none, some, List, [], ◌∷◌,
  map, ltb, leb, ◌==◌, if◌then◌else◌, length, filter, sort, max,
}
use stellax.Indexer.Rows.{Text}

-- A quote; its price is `none` where the number is not finite, 0 where it is not positive.
pub record RwaQuote : Type 0 where
  pub source : Text
  pub price_usd : Option ℕ
  pub ts : ℕ

abbrev pub price_of : RwaQuote → ℕ
price_of q = elim q.price_usd [ none ↦ 0 | some p ↦ p ]

-- `q.ts >= Date.now() - maxAgeMs`, with a finite and positive price
abbrev pub is_fresh : (now max_age : ℕ) → RwaQuote → Bool
is_fresh now max_age q = leb now (q.ts + max_age) && ltb 0 (price_of q)

abbrev pub nth : List ℕ → ℕ → ℕ
nth [] i = 0
nth (x ∷ xs) zero = x
nth (x ∷ xs) (suc i) = nth xs i

-- twice the median of a sorted list
abbrev pub middle : List ℕ → ℕ
middle sorted =
    let m = length sorted / 2 in
    if length sorted % 2 == 0 then nth sorted (m - 1) + nth sorted m else 2 * nth sorted m

unfoldable pub median : List ℕ → ℕ
median xs = middle (sort leb xs)

-- `Math.abs(a - b)`
abbrev pub distance : ℕ → ℕ → ℕ
distance a b = (a - b) + (b - a)

-- `Math.abs(q.priceUsd - candidate) <= candidate * maxDeviationBps / 10_000`, for twice the candidate
abbrev pub survives : (bps candidate : ℕ) → RwaQuote → Bool
survives bps candidate q = leb (distance (2 * price_of q) candidate * 10_000) (candidate * bps)

pub record Selected : Type 0 where
  -- twice `priceUsd`
  pub price : ℕ
  pub sources : List RwaQuote

abbrev pub chosen : List RwaQuote → Option Selected
chosen [] = none
chosen (q ∷ qs) = some (record { price = median (map price_of (q ∷ qs)); sources = q ∷ qs })

-- the cases of `selectBestPrice` after the stale quotes are dropped
unfoldable pub select_fresh : ℕ → List RwaQuote → Option Selected
select_fresh bps [] = none
select_fresh bps (q ∷ []) = some (record { price = 2 * price_of q; sources = q ∷ [] })
select_fresh bps (q ∷ r ∷ qs) =
    let candidate = median (map price_of (q ∷ r ∷ qs)) in
    chosen (filter (survives bps candidate) (q ∷ r ∷ qs))

unfoldable pub select_best_price : (now max_age bps : ℕ) → List RwaQuote → Option Selected
unfolding select_fresh
select_best_price now max_age bps quotes = select_fresh bps (filter (is_fresh now max_age) quotes)

-- the label of a sample: the source, the sources of a median, or the static table
pub data Label : Type 0 where
  single : Text → Label
  median_of : List Text → Label
  static : Label

pub record RwaNavSample : Type 0 where
  -- twice the price
  pub price : ℕ
  pub timestamp_ms : ℕ
  pub source : Label

abbrev pub latest : List RwaQuote → ℕ
latest [] = 0
latest (q ∷ qs) = max q.ts (latest qs)

abbrev pub label_of : List RwaQuote → Label
label_of [] = median_of []
label_of (q ∷ []) = single q.source
label_of (q ∷ r ∷ qs) = median_of (map (λ (x : RwaQuote). x.source) (q ∷ r ∷ qs))

abbrev pub static_sample : ℕ → Option ℕ → Option RwaNavSample
static_sample now none = none
static_sample now (some p) = some (record { price = 2 * p; timestamp_ms = now; source = static })

-- the sample that `fetch` returns for a selection; `none` where it throws
abbrev pub from_selection : ℕ → Option ℕ → Option Selected → Option RwaNavSample
from_selection now fallback none = static_sample now fallback
from_selection now fallback (some s) =
    some (record { price = s.price; timestamp_ms = latest s.sources; source = label_of s.sources })

-- `fetch` on the quotes that the sources answer; `fallback` is the symbol's entry in the table of static
-- prices
unfoldable pub fetch : (now max_age bps : ℕ) → Option ℕ → List RwaQuote → Option RwaNavSample
unfolding select_best_price
fetch now max_age bps fallback live =
    from_selection now fallback (select_best_price now max_age bps live)

-- `oracleTimestampMs` of `pushRwaNavToOracle`
unfoldable pub oracle_timestamp : ℕ → RwaNavSample → ℕ
oracle_timestamp now sample = max sample.timestamp_ms now
