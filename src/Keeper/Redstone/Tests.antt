-- ===== src/Keeper/Redstone/Tests.antt =====
-- A payload of two packages.
use stellax.Base.{ℕ, ◌≡◌, refl, some, none, Option, List, [], ◌∷◌}
use stellax.Indexer.Rows.{Text, same_text}
use stellax.Sdk.Js.{trim, skip_spaces, is_space}
use stellax.Keeper.Liquidation.{distinct}
use stellax.Keeper.Redstone.{unique_feeds, collect, fetch}

abbrev request : List Text → Option (Text → List ℕ)
request feeds = some (λ f. 1 ∷ 2 ∷ [])

abbrev serialize : List ℕ → Text
serialize ps = ps

doubled :
    unique_feeds ((b' ' ∷ b'A' ∷ []) ∷ (b'A' ∷ b' ' ∷ []) ∷ (b' ' ∷ []) ∷ []) ≡ (b'A' ∷ []) ∷ []
unfolding unique_feeds trim skip_spaces is_space distinct same_text
doubled = refl

fetched :
    fetch serialize 2 request 50 ((b'A' ∷ []) ∷ [])
    ≡ some (record { bytes = 1 ∷ 2 ∷ []; feeds = (b'A' ∷ []) ∷ []; timestamp_ms = 50 })
unfolding fetch collect unique_feeds trim skip_spaces is_space distinct same_text
fetched = refl

too_few : fetch serialize 3 request 50 ((b'A' ∷ []) ∷ []) ≡ none
unfolding fetch collect unique_feeds trim skip_spaces is_space distinct same_text
too_few = refl
