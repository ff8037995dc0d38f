-- ===== src/Frontend/Events/Tests.antt =====
-- The readers on small lists of events.
use stellax.Base.{◌-◌, ◌^◌, ◌≡◌, refl, some, filter, List, [], ◌∷◌, arith}
use stellax.Base.Int.{pos, negsuc, neg, ◌+ℤ◌, ◌-ℤ◌}
use stellax.Indexer.Rows.{Text, same_text}
use stellax.Frontend.Events.{
  sc_symbol, sc_u64, sc_i128, sc_address, vector, single, movebal, Server, ChainEvent, decode_i128,
  liq, read_liq, collect_liq, parse_liq_events_for_user,
}
use stellax.Frontend.Events.Read.{i128_value, i128, close_event, wanted, decode_i128-value}

-- the contract's -1
minus_one : decode_i128 (sc_i128 (negsuc 0) (2 ^ 64 - 1)) ≡ some (negsuc (2 ^ 64))
unfolding decode_i128 neg
minus_one = refl

decode_i128-value_example :
    (decode_i128 (sc_i128 (pos 3) 5) ≡ some (i128_value (pos 3) 5))
    × (decode_i128 (sc_i128 (negsuc 3) 0) ≡ some (i128_value (negsuc 3) 0 +ℤ pos (2 ^ 64)))
    × (decode_i128 (sc_i128 (negsuc 3) 6) ≡ some (i128_value (negsuc 3) 6 -ℤ pos (2 ^ 64)))
decode_i128-value_example = decode_i128-value 3 5 6 (omega arith) (omega arith) (omega arith)

abbrev engine : Text
engine = b'P' ∷ []

abbrev other_close : ChainEvent
other_close = close_event engine (b'u' ∷ []) (sc_address (b'H' ∷ [])) 8 60 9

abbrev closing : ChainEvent
closing = close_event engine (b't' ∷ []) (sc_address (b'G' ∷ [])) 7 50 4

-- the vault's transfer of the fee, in the transaction of the close
abbrev fee : ChainEvent
fee = record {
  contract_id = b'V' ∷ [];
  topic = sc_symbol movebal ∷ [];
  value = single (i128 3);
  tx_hash = b't' ∷ [];
}

-- the server has a close of another position, the fee and the close, and filters them
abbrev server : Server
server fs = some (filter (wanted fs) (other_close ∷ fee ∷ closing ∷ []))

abbrev liquidations : List ChainEvent
liquidations =
    record {
      contract_id = b'R' ∷ [];
      topic = sc_symbol liq ∷ sc_address (b'G' ∷ []) ∷ sc_u64 5 ∷ [];
      value = vector (some (i128 1 ∷ i128 2 ∷ i128 3 ∷ []));
      tx_hash = b't' ∷ [];
    }
    ∷ record {
      contract_id = b'R' ∷ [];
      topic = sc_symbol liq ∷ sc_address (b'H' ∷ []) ∷ sc_u64 6 ∷ [];
      value = vector (some (i128 1 ∷ i128 2 ∷ i128 3 ∷ []));
      tx_hash = b't' ∷ [];
    }
    ∷ []

one_liquidation :
    parse_liq_events_for_user (b'G' ∷ []) (some liquidations)
    ≡ record {
      position_id = 5;
      oracle_price = pos 1;
      remaining_margin = pos 2;
      keeper_reward = pos 3;
      tx_hash = b't' ∷ [];
    }
      ∷ []
unfolding collect_liq read_liq decode_i128 same_text
one_liquidation = refl
