-- ===== src/Indexer/Decode/Tests.antt =====
-- The decoding of some events of the contracts.
use stellax.Base.{◌≡◌, refl, true, false, none, some, List, [], ◌∷◌, ◌/◌}
use stellax.Base.Int.{pos}
use stellax.Indexer.Rows.{Text, same_text, inbound, modified}
use stellax.Indexer.Watcher.{rwa_mint, rwa_holder, deposit, position_modify}
use stellax.Indexer.Decode.Values.{codes, int, text, tuple, RawEvent, to_string, digits}
use stellax.Indexer.Decode.Decoders.{decode_rwa_holder_event}
use stellax.Indexer.Decode.{decode, decode_tag, contract_filters}
use stellax.Indexer.Decode.Published.{
  ContractEvent, posopen, deposit_published, modify_published, decode-misread,
}

abbrev issuers : List (Text × Text)
issuers = (codes "CI", codes "BENJI") ∷ []

abbrev opening : ContractEvent
opening = posopen (codes "GA") 7 1 (pos 50) (pos 90) 3 true

decode-misread_example :
    (decode issuers (deposit_published (pos 120) (pos 3) [] (codes "CB") (codes "tx") 40 5000)
      ≡ some (
          deposit (record {
            direction = inbound;
            user = codes "120";
            amount = pos 3;
            dest_chain = none;
            ts = 5000 / 1000;
            tx_hash = codes "tx";
          })))
    × (decode issuers (modify_published (codes "GA") 7 (pos 9) (codes "CB") (codes "tx") 40 5000)
        ≡ some (
            position_modify (record {
              user = codes "GA";
              position_id = 7;
              market_id = 0;
              kind = modified;
              size = pos 0;
              price = pos 0;
              pnl = none;
              is_long = false;
              ts = 5000 / 1000;
              tx_hash = codes "tx";
            })))
unfolding same_text to_string digits
decode-misread_example =
    decode-misread issuers (codes "CB") (codes "tx") (codes "GA") 40 5000 7 (pos 120) (pos 3)
      (pos 9) [] refl

-- a mint by an issuer is credited to the first topic's address
abbrev minting : RawEvent
minting = record {
  contract_id = codes "CI";
  ledger = 40;
  topics = text (codes "mint") ∷ text (codes "GA") ∷ [];
  value = tuple (int (pos 8) ∷ []);
  closed_at = 5000;
  tx_hash = codes "tx";
}

minted :
    decode issuers minting ≡ some (rwa_holder (rwa_mint (codes "BENJI") (codes "GA") (pos 8) 5))
unfolding decode decode_tag decode_rwa_holder_event same_text
minted = refl

one_filter : contract_filters (codes "CP" ∷ [] ∷ []) issuers ≡ (codes "CP" ∷ codes "CI" ∷ []) ∷ []
unfolding contract_filters
one_filter = refl
