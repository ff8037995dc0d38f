-- ===== src/Indexer/Watcher/Frames.antt =====
-- What each statement leaves alone.
use stellax.Base.{ℕ, ◌≡◌, refl, ◌∙◌, find, Option-cases, Bool-cases, inl, inr}
use stellax.Base.Int.{ℤ, pos, neg}
use stellax.Indexer.Rows.{Text, OrderRow, OraclePriceRow, to_upper_case}
use stellax.Indexer.Store.{
  Store, insert_oracle_price, insert_order, fill_order, find_order, is_address, same_price_key,
  adjust_rwa_holder, apply_rwa_mint, apply_rwa_burn, apply_rwa_transfer, apply_rwa_yield,
}
use stellax.Indexer.Watcher.{
  RwaHolderEvent, rwa_transfer, rwa_mint, rwa_burn, rwa_yield, order_fill, rwa_holder, persist,
}

-- What the statements on the other tables leave alone.
pub record SameFrame (s s' : Store) : Type 0 where
  pub positions : s'.positions ≡ s.positions
  pub trades : s'.trades ≡ s.trades
  pub cursor : s'.cursor ≡ s.cursor

pub frame_trans : (a b c : Store) → SameFrame a b → SameFrame b c → SameFrame a c
frame_trans a b c h k = record {
  positions = k.positions ∙ h.positions;
  trades = k.trades ∙ h.trades;
  cursor = k.cursor ∙ h.cursor;
}

pub frame_fill :
    (id : ℕ) (q : ℤ) (ts : ℕ) (s : Store)
    → SameFrame s (fill_order id q ts s) × ((fill_order id q ts s).rwa_holders ≡ s.rwa_holders)
unfolding fill_order
frame_fill id q ts s = elim (Option-cases (find_order id s.orders)) [
  | inl e ↦ rw (e, fill_order) (record { positions = refl; trades = refl; cursor = refl }, refl)
  | inr (row, e) ↦
      rw (e, fill_order) (record { positions = refl; trades = refl; cursor = refl }, refl)
]

pub frame_order :
    (row : OrderRow) (s : Store)
    → SameFrame s (insert_order row s) × ((insert_order row s).rwa_holders ≡ s.rwa_holders)
unfolding insert_order
frame_order row s = elim (Option-cases (find_order row.order_id s.orders)) [
  | inl e ↦ rw (e, insert_order) (record { positions = refl; trades = refl; cursor = refl }, refl)
  | inr (old, e) ↦
      rw (e, insert_order) (record { positions = refl; trades = refl; cursor = refl }, refl)
]

pub frame_price :
    (row : OraclePriceRow) (s : Store)
    → SameFrame s (insert_oracle_price row s)
      × ((insert_oracle_price row s).rwa_holders ≡ s.rwa_holders)
      × ((insert_oracle_price row s).orders ≡ s.orders)
unfolding insert_oracle_price
frame_price row s =
    let upper : OraclePriceRow = record row { feed = to_upper_case row.feed } in
    elim (Option-cases (find (same_price_key upper) s.oracle_prices)) [
      | inl e ↦
          rw (e, insert_oracle_price)
            (record { positions = refl; trades = refl; cursor = refl }, refl, refl)
      | inr (old, e) ↦
          rw (e, insert_oracle_price)
            (record { positions = refl; trades = refl; cursor = refl }, refl, refl)
    ]

pub frame_adjust :
    (feed address : Text) (bd yd : ℤ) (ts : ℕ) (s : Store)
    → SameFrame s (adjust_rwa_holder feed address bd yd ts s)
      × ((adjust_rwa_holder feed address bd yd ts s).orders ≡ s.orders)
unfolding adjust_rwa_holder
frame_adjust feed address bd yd ts s = elim (Bool-cases (is_address address)) [
  | inl e ↦
      rw (e, adjust_rwa_holder) (record { positions = refl; trades = refl; cursor = refl }, refl)
  | inr e ↦
      rw (e, adjust_rwa_holder) (record { positions = refl; trades = refl; cursor = refl }, refl)
]

pub frame_holder :
    (ev : RwaHolderEvent) (s : Store)
    → SameFrame s (persist (rwa_holder ev) s) × ((persist (rwa_holder ev) s).orders ≡ s.orders)
unfolding persist apply_rwa_mint apply_rwa_burn apply_rwa_transfer apply_rwa_yield
frame_holder (rwa_mint feed address amount ts) s = frame_adjust feed address amount (pos 0) ts s
frame_holder (rwa_burn feed address amount ts) s =
    frame_adjust feed address (neg amount) (pos 0) ts s
frame_holder (rwa_yield feed address amount ts) s = frame_adjust feed address amount amount ts s
frame_holder (rwa_transfer feed source to amount ts) s =
    let mid = adjust_rwa_holder feed source (neg amount) (pos 0) ts s in
    let first = frame_adjust feed source (neg amount) (pos 0) ts s in
    let second = frame_adjust feed to amount (pos 0) ts mid in
    (
      frame_trans s mid (adjust_rwa_holder feed to amount (pos 0) ts mid) first.0 second.0,
      second.1 ∙ first.1,
    )

pub frame_fills :
    (buy sell : ℕ) (q : ℤ) (ts : ℕ) (s : Store) → SameFrame s (persist (order_fill buy sell q ts) s)
unfolding persist
frame_fills buy sell q ts s =
    let mid = fill_order buy q ts s in
    frame_trans s mid (fill_order sell q ts mid) (frame_fill buy q ts s).0
      (frame_fill sell q ts mid).0
