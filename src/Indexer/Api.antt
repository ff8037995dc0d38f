-- ===== src/Indexer/Api.antt =====
-- The push to the subscribers (`broadcast` of packages/indexer/src/api.ts).
pub mod Delivered
mod Tests
use stellax.Base.{
  ◌≡◌, ℕ, Bool, true, false, not, ◌&&◌, ◌||◌, Option, none, some, List, [], ◌∷◌, if◌then◌else◌,
}
use stellax.Indexer.Rows.{Text, same_text}
use stellax.Indexer.Watcher.{
  RwaHolderEvent, rwa_transfer, rwa_mint, rwa_burn, rwa_yield, DecodedEvent, position_open,
  position_close, position_modify, liquidation, deposit, order_place, order_cancel, order_fill,
  oracle_price, rwa_holder,
}

-- the user that an event concerns, or `null`
unfoldable pub user_of : DecodedEvent → Option Text
user_of (position_open row) = some row.user
user_of (position_close row) = some row.user
user_of (position_modify row) = some row.user
user_of (liquidation row) = some row.user
user_of (deposit row) = some row.user
user_of (order_place row) = some row.trader
user_of (order_cancel order_id ts) = none
user_of (order_fill buy_id sell_id fill_size ts) = none
user_of (oracle_price row) = none
user_of (rwa_holder (rwa_transfer feed source to amount ts)) = none
user_of (rwa_holder (rwa_mint feed address amount ts)) = some address
user_of (rwa_holder (rwa_burn feed address amount ts)) = some address
user_of (rwa_holder (rwa_yield feed address amount ts)) = some address

-- A client: whether its socket is open, and the user it subscribed to (`null` for all).
pub record Client : Type 0 where
  pub id : ℕ
  pub is_ready : Bool
  pub subscription : Option Text

-- `sub === user` for a subscription to one user
abbrev pub same_user : Text → Option Text → Bool
same_user u none = false
same_user u (some v) = same_text u v

abbrev pub wants : Option Text → Option Text → Bool
wants none user = true
wants (some u) user = same_user u user

-- The clients that `broadcast` sends the event to; a `send` that throws is caught.
unfoldable pub broadcast : DecodedEvent → List Client → List Client
unfolding user_of
broadcast ev [] = []
broadcast ev (c ∷ cs) =
    let rest = broadcast ev cs in
    if c.is_ready then (if wants c.subscription (user_of ev) then c ∷ rest else rest) else rest
