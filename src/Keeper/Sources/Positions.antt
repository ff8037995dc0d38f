-- ===== src/Keeper/Sources/Positions.antt =====
-- The positions that the workers get from the indexer's own answers.
use stellax.Base.{
  ◌≡◌, refl, sym, ap, ◌∙◌, Bool, true, ◌&&◌, none, some, List, [], ◌∷◌, map, filter, leb, count,
  count-sort, arith,
}
use stellax.Base.Int.{pos}
use stellax.Indexer.Rows.{PositionRow}
use stellax.Indexer.Store.{Store}
use stellax.Indexer.Queries.{list_open_positions}
use stellax.Keeper.Liquidation.{PositionLike, Simulate, candidates}
use stellax.Keeper.Liquidation.Order.{due, candidates-due}
use stellax.Keeper.Sources.{
  number, numeral, map_rows, rows_or_none, IndexerPositionRow, parse_position, get_open_positions,
}
use stellax.Keeper.Sources.Served.{camel}

abbrev pub sent_position : PositionRow → IndexerPositionRow
sent_position r = record {
  position_id = camel (numeral (pos r.position_id));
  user = r.user;
  market_id = camel (number (pos r.market_id));
}

abbrev pub position_of_row : PositionRow → PositionLike
position_of_row r = record { position_id = r.position_id; user = r.user; market_id = r.market_id }

map_rows-sent_position :
    (rows : List PositionRow)
    → map_rows parse_position (map sent_position rows) ≡ some (map position_of_row rows)
unfolding map_rows parse_position
map_rows-sent_position [] = refl
map_rows-sent_position (r ∷ rows) = rw (map_rows-sent_position rows) refl

-- The bots get every position of the indexer's table, in the order of the query.
pub get_open_positions-sent :
    (rows : List PositionRow)
    → get_open_positions (some (map sent_position rows)) ≡ map position_of_row rows
unfolding get_open_positions
get_open_positions-sent rows = ap rows_or_none (map_rows-sent_position rows)

count-filter-map :
    (p d : PositionLike → Bool) (rows : List PositionRow)
    → count p (filter d (map position_of_row rows))
      ≡ count (λ r. d (position_of_row r) && p (position_of_row r)) rows
count-filter-map p d [] = refl
count-filter-map p d (r ∷ rows) = ground (arith, count-filter-map p d rows)

filter_all : (rows : List PositionRow) → filter (λ p. true) rows ≡ rows
filter_all [] = refl
filter_all (r ∷ rows) = ap (r ∷◌) (filter_all rows)

-- The candidates of the liquidation bot, which reads the indexer's answer, are exactly the rows of the
-- table of positions whose user is liquidatable, each as often as the table holds it.
pub candidates-of_store :
    (simulate : Simulate) (s : Store) (p : PositionLike → Bool)
    → count p (
        candidates simulate
          (get_open_positions (some (map sent_position (list_open_positions none s)))))
      ≡ count p (filter (due simulate) (map position_of_row s.positions))
unfolding list_open_positions
candidates-of_store simulate s p =
    let before : PositionRow → PositionRow → Bool = λ a b. leb b.opened_at a.opened_at in
    let rows = list_open_positions none s in
    let asked : PositionRow → Bool =
      λ r. due simulate (position_of_row r) && p (position_of_row r) in
    ap (λ ps. count p (candidates simulate ps)) (get_open_positions-sent rows)
    ∙ (candidates-due simulate (map position_of_row rows)).0 p
    ∙ count-filter-map p (due simulate) rows
    ∙ count-sort before asked (filter (λ (r : PositionRow). true) s.positions)
    ∙ ap (count asked) (filter_all s.positions)
    ∙ sym (count-filter-map p (due simulate) s.positions)
