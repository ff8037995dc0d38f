-- ===== src/Indexer/Api/Tests.antt =====
-- An event for one user and three clients.
use stellax.Base.{ℕ, ◌≡◌, refl, Bool, true, false, Option, none, some, List, [], ◌∷◌}
use stellax.Base.Int.{pos}
use stellax.Indexer.Rows.{Text, same_text, inbound}
use stellax.Indexer.Watcher.{DecodedEvent, deposit}
use stellax.Indexer.Api.{user_of, Client, broadcast}

abbrev event : DecodedEvent
event = deposit (record {
  direction = inbound;
  user = b'A' ∷ [];
  amount = pos 5;
  dest_chain = none;
  ts = 1;
  tx_hash = [];
})

abbrev client : ℕ → Bool → Option Text → Client
client id ready sub = record { id = id; is_ready = ready; subscription = sub }

abbrev clients : List Client
clients =
    client 1 true none
    ∷ client 2 true (some (b'B' ∷ []))
    ∷ client 3 true (some (b'A' ∷ []))
    ∷ client 4 false none
    ∷ []

delivers : broadcast event clients ≡ client 1 true none ∷ client 3 true (some (b'A' ∷ [])) ∷ []
unfolding broadcast user_of same_text
delivers = refl
