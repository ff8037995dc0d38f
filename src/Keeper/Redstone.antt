-- ===== src/Keeper/Redstone.antt =====
-- The fetcher of signed price packages (`fetch` of packages/keeper/src/redstone.ts). The RedStone SDK is a
-- parameter: the packages that it answers, and the serialisation of a payload. A feed is a text.
pub mod Complete
mod Tests
use stellax.Base.{
  ℕ, Bool, true, false, Option, none, some, List, [], ◌∷◌, ◌++◌, map, filter, ltb, leb, length,
  if◌then◌else◌,
}
use stellax.Indexer.Rows.{Text}
use stellax.Sdk.Js.{trim}
use stellax.Keeper.Liquidation.{distinct}

-- `[...new Set(feeds.map((f) => f.trim()).filter(Boolean))]`
unfoldable pub unique_feeds : List Text → List Text
unfolding trim distinct
unique_feeds feeds = distinct [] (filter (λ (f : Text). ltb 0 (length f)) (map trim feeds))

pub record RedStonePayload : Type 0 where
  pub bytes : Text
  pub feeds : List Text
  pub timestamp_ms : ℕ

module _ {P : Type 0} (serialize : List P → Text) (unique_signers : ℕ) where
  -- the loop over the feeds: `none` where one has too few packages; a missing feed has none
  unfoldable pub collect : (Text → List P) → List Text → List P → Option (List P)
  collect packages [] signed = some signed
  collect packages (feed ∷ feeds) signed =
      let rest = collect packages feeds (signed ++ packages feed) in
      if ltb (length (packages feed)) unique_signers then none else rest

  -- the payload of the packages, if it is not empty
  abbrev pub payload_of : ℕ → List Text → Option (List P) → Option RedStonePayload
  payload_of now feeds none = none
  payload_of now feeds (some signed) =
      if ltb 0 (length (serialize signed))
      then some (record { bytes = serialize signed; feeds = feeds; timestamp_ms = now })
      else none

  -- `fetch`: `request` answers the packages of the feeds, or throws or times out; `none` where it throws
  unfoldable pub fetch :
      (List Text → Option (Text → List P)) → ℕ → List Text → Option RedStonePayload
  unfolding collect unique_feeds
  fetch request now [] = none
  fetch request now (f ∷ fs) =
      let feeds = unique_feeds (f ∷ fs) in
      elim (request feeds) [
        | none ↦ none
        | some packages ↦ payload_of now feeds (collect packages feeds [])
      ]
