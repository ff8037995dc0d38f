-- ===== src/Keeper/Nav/Tests.antt =====
-- The choice of a price among a few quotes.
use stellax.Base.{ℕ, ◌≡◌, refl, true, some, List, [], ◌∷◌, arith, sort, insert, map, filter, Elem}
use stellax.Keeper.Nav.{
  RwaQuote, price_of, is_fresh, median, select_fresh, select_best_price, Selected, static_sample,
  fetch,
}
use stellax.Keeper.Nav.Median.{Majority}
use stellax.Keeper.Nav.Robust.{Within, FromSome, select_best_price-robust, fetch-diverging}

abbrev quote : ℕ → ℕ → RwaQuote
quote p t = record { source = b'a' ∷ []; price_usd = some p; ts = t }

-- one of three sources is far away
abbrev quotes : List RwaQuote
quotes = quote 1000 95 ∷ quote 5000 96 ∷ quote 1004 97 ∷ quote 1002 3 ∷ []

abbrev best : Selected
best = record { price = 2008; sources = quote 1004 97 ∷ [] }

chosen_best : select_best_price 100 20 30 quotes ≡ some best
unfolding select_best_price select_fresh median sort insert
chosen_best = refl

honest : Majority 1000 1004 (map price_of (filter (is_fresh 100 20) quotes))
honest = (omega arith, omega arith)

select_best_price-robust_example :
    Within 1000 1004 30 best.price
    × FromSome (λ q. Elem q quotes × (is_fresh 100 20 q ≡ true)) best.sources
select_best_price-robust_example =
    select_best_price-robust 1000 1004 100 20 30 quotes honest chosen_best

fetch-diverging_example :
    fetch 100 20 100 (some 1000) (quote 1000 95 ∷ quote 1030 96 ∷ [])
    ≡ static_sample 100 (some 1000)
fetch-diverging_example =
    fetch-diverging 100 20 100 1000 (quote 1000 95) (quote 1030 96) refl refl (omega arith)
