-- ===== src/Indexer/Store/Tests.antt =====
-- The tables with an order of size 10 and two holders.
use stellax.Base.{ℕ, zero, suc, true, List, [], ◌∷◌}
use stellax.Base.Int.{pos}
use stellax.Indexer.Rows.{Text, OrderRow, status_open}
use stellax.Indexer.Store.{Store, empty}

abbrev order : OrderRow
order = record {
  order_id = 4;
  trader = b'A' ∷ [];
  market_id = 1;
  is_long = true;
  price = pos 100;
  size = pos 10;
  filled_size = pos 0;
  status = status_open;
  placed_at = 50;
  updated_at = 50;
  place_tx_hash = [];
}

abbrev with_order : Store
with_order = record empty { orders = order ∷ [] }

abbrev copies : ℕ → ℕ → List ℕ
copies zero b = []
copies (suc n) b = b ∷ copies n b

abbrev alice : Text
alice = b'G' ∷ copies 55 b'A'

abbrev bob : Text
bob = b'G' ∷ copies 55 b'B'

abbrev feed : Text
feed = b'b' ∷ []

abbrev with_holders : Store
with_holders = record empty {
  rwa_holders =
      record {
        feed = b'B' ∷ [];
        address = alice;
        balance_native = pos 30;
        cumulative_yield = pos 0;
        first_seen_ts = 1;
        updated_at = 1;
      }
      ∷ [];
}
