-- ===== src/Keeper/Bridge.antt =====
-- The bridge keeper (packages/keeper/src/workers/bridge-keeper.ts).
pub mod Calls
pub mod Credits
pub mod Window
mod Tests
use Prim.Native.String.{String}
use stellax.Base.{
  ℕ, zero, suc, ◌+◌, ◌-◌, ◌*◌, ◌/◌, ◌≡◌, Bool, true, false, not, ◌&&◌, Option, none, some, List, [],
  ◌∷◌, ltb, leb, ◌==◌, if◌then◌else◌, length, filter,
}
use stellax.Sdk.Gmp.{DecodedBridgeDeposit, decode_deposit_payload}
use stellax.Sdk.Js.{Text}
use stellax.Keeper.Chain.{Chain, Invocation, bridge_collateral_in}

-- A deposit that the GMP API reports; its payload is `none` where it is missing or empty.
pub record GmpEvent : Type 0 where
  pub id : ℕ
  pub payload : Option Text

-- `processed`, and `fromTimestamp` in milliseconds
pub record BridgeKeeper : Type 0 where
  pub processed : List ℕ
  pub from_timestamp : ℕ

abbrev pub initial_lookback_seconds : ℕ
initial_lookback_seconds = 86_400

abbrev pub new : ℕ → BridgeKeeper
new now = record { processed = []; from_timestamp = now - initial_lookback_seconds * 1000 }

-- `processed.has(id)`
abbrev pub has : ℕ → List ℕ → Bool
has id [] = false
has id (x ∷ xs) = if x == id then true else has id xs

-- the credit of a deposit; `none` where `processDeposit` skips it
abbrev starts_with_g : Text → Bool
starts_with_g [] = false
starts_with_g (c ∷ s) = c == b'G'

abbrev pub is_recipient : Text → Bool
is_recipient s = starts_with_g s && (length s == 56)

unfoldable pub credit_of : GmpEvent → Option (Text × ℕ)
credit_of ev = elim ev.payload [
  | none ↦ none
  | some payload ↦ elim (decode_deposit_payload payload) [
    | none ↦ none
    | some decoded ↦
        if is_recipient decoded.stellar_recipient
        then if ltb 0 decoded.amount
          then some (decoded.stellar_recipient, decoded.amount * 10)
          else none
        else none
  ]
]

-- `fetchPendingDeposits`: the API's answer for a start time in seconds, `none` where it throws
abbrev pub Api : Type 0
Api = ℕ → Option (List GmpEvent)

unfoldable pub fetch_pending_deposits : Api → BridgeKeeper → List GmpEvent
fetch_pending_deposits api s = elim (api (s.from_timestamp / 1000)) [
  | none ↦ []
  | some events ↦ filter (λ (ev : GmpEvent). not (has ev.id s.processed)) events
]

module _ {W : Type 0} (chain : Chain W) (bridge : String) where
  unfoldable pub process_deposit : GmpEvent → BridgeKeeper → W → BridgeKeeper × W
  process_deposit ev s w = elim (credit_of ev) [
    | none ↦ (record s { processed = ev.id ∷ s.processed }, w)
    | some credit ↦
        let (done, w') =
          chain
            (record {
              contract = bridge;
              call = bridge_collateral_in credit.0 credit.1;
              max_retries = 3;
            })
            w in
        (if done then record s { processed = ev.id ∷ s.processed } else s, w')
  ]

  unfoldable pub process_all : List GmpEvent → BridgeKeeper → W → BridgeKeeper × W
  unfolding process_deposit
  process_all [] s w = (s, w)
  process_all (ev ∷ evs) s w = let (s', w') = process_deposit ev s w in process_all evs s' w'

  -- `now` is the time at the end of the tick.
  unfoldable pub tick : Api → (now : ℕ) → BridgeKeeper → W → BridgeKeeper × W
  unfolding process_all fetch_pending_deposits
  tick api now s w = elim (fetch_pending_deposits api s) [
    | [] ↦ (s, w)
    | ev ∷ evs ↦
        let (s', w') = process_all (ev ∷ evs) s w in
        (record s' { from_timestamp = now - 60_000 }, w')
  ]
