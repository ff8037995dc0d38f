-- ===== src/Keeper/Sweeps.antt =====
-- The sweeps over markets, positions and vaults (packages/keeper/src/workers: funding-updater.ts,
-- funding-settler.ts, vault-roller.ts) and the schedule of the vaults (packages/keeper/src/
-- indexer-sources.ts). Times are in seconds; an epoch's end is below 2 ^ 53.
pub mod Outcome
mod Tests
use Prim.Native.String.{String}
use stellax.Base.{
  ℕ, ◌-◌, ◌^◌, Bool, true, false, not, ◌&&◌, Option, none, some, List, [], ◌∷◌, map, ltb, ◌==◌,
}
use stellax.Base.Int.{ℤ, pos, negsuc}
use stellax.Keeper.Chain.{
  Chain, Invocation, update_funding, settle_funding_for_position, roll_epoch, Tally, no_tally,
  try_each,
}

abbrev pub funding_call : String → ℕ → Invocation
funding_call contract market_id = record {
  contract = contract;
  call = update_funding market_id;
  max_retries = 3;
}

-- `failed > 0 && ok === 0`
abbrev pub all_failed : Tally → Bool
all_failed t = ltb 0 t.failed && (t.ok == 0)

abbrev pub settle_call : String → ℕ → Invocation
settle_call contract position_id = record {
  contract = contract;
  call = settle_funding_for_position position_id;
  max_retries = 1;
}

abbrev pub roll_call : String → Invocation
roll_call vault = record { contract = vault; call = roll_epoch; max_retries = 3 }

-- The answer of `get_epoch`: the fields `end_time` and `endTime`, each missing or a bigint; `none` where
-- `simulate` throws or returns no object.
abbrev pub Epoch : Type 0
Epoch = Option (Option ℤ × Option ℤ)

abbrev pub max_safe_integer : ℕ
max_safe_integer = 2 ^ 53 - 1

-- `a ?? b`
abbrev pub or_else : Option ℤ → Option ℤ → Option ℤ
or_else none b = b
or_else (some a) b = some a

-- `asNumber`
abbrev pub as_number : Option ℤ → ℤ
as_number none = pos 0
as_number (some n) = n

-- `end > 0 ? end : Number.MAX_SAFE_INTEGER`
abbrev pub positive_or_max : ℤ → ℕ
positive_or_max (pos n) = elim (n == 0) [ true ↦ max_safe_integer | false ↦ n ]
positive_or_max (negsuc n) = max_safe_integer

unfoldable pub get_current_epoch_end : Epoch → ℕ
get_current_epoch_end none = max_safe_integer
get_current_epoch_end (some (end_time, end_time_camel)) =
    positive_or_max (as_number (or_else end_time end_time_camel))

module _ {W : Type 0} (chain : Chain W) where
  -- `FundingUpdater.tick`: `true` where it resolves.
  unfoldable pub update_all : String → List ℕ → W → Bool × W
  unfolding try_each
  update_all contract [] w = (true, w)
  update_all contract (m ∷ ms) w =
      let (t, w') = try_each chain (map (funding_call contract) (m ∷ ms)) no_tally w in
      (not (all_failed t), w')

  -- `FundingSettler.tick`: the counts are logged and nothing is thrown.
  unfoldable pub settle_all : String → List ℕ → W → Tally × W
  unfolding try_each
  settle_all contract positions w = try_each chain (map (settle_call contract) positions) no_tally w

  -- `VaultRoller.tick`; `epoch` is the simulated call, which reads the world at that moment.
  unfoldable pub roll_all : (String → W → Epoch) → ℕ → List String → W → W
  unfolding get_current_epoch_end
  roll_all epoch now [] w = w
  roll_all epoch now (v ∷ vs) w = elim (ltb now (get_current_epoch_end (epoch v w))) [
    | true ↦ roll_all epoch now vs w
    | false ↦ roll_all epoch now vs (chain (roll_call v) w).1
  ]
