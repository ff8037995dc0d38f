-- ===== src/Keeper/Ttl.antt =====
-- The extender of the contracts' time to live (packages/keeper/src/workers/ttl-extender.ts) and the
-- ledger keys it asks for (packages/keeper/src/stellar.ts). The display name of a target is left out.
pub mod Extended
mod Tests
use stellax.Base.{
  ℕ, Bool, true, false, ◌&&◌, ◌||◌, Option, none, some, List, [], ◌∷◌, leb, ltb, ◌==◌, not,
  if◌then◌else◌, length,
}
use stellax.Indexer.Rows.{Text}
use stellax.Keeper.Chain.{Tally, tally, no_tally}

pub record TtlExtenderTarget : Type 0 where
  pub contract_id : Text
  pub wasm_hash : Option Text

pub data LedgerKey : Type 0 where
  contract_instance : Text → LedgerKey
  contract_code : Text → LedgerKey

abbrev pub is_hex_digit : ℕ → Bool
is_hex_digit c =
    (leb b'0' c && leb c b'9') || (leb b'a' c && leb c b'f') || (leb b'A' c && leb c b'F')

abbrev pub is_hex : Text → Bool
is_hex [] = true
is_hex (c ∷ s) = is_hex_digit c && is_hex s

-- `Buffer.from(hash, "hex")` stops at the first pair that is no byte, so of 64 characters it makes 32
-- bytes only where all are hexadecimal.
unfoldable pub ledger_key_contract_code : Text → Option LedgerKey
ledger_key_contract_code hash =
    if length hash == 64 then if is_hex hash then some (contract_code hash) else none else none

-- `StrKey.decodeContract` is a parameter: whether it accepts the id.
module _ (decodes : Text → Bool) where
  unfoldable pub ledger_key_contract_instance : Text → Option LedgerKey
  ledger_key_contract_instance id = if decodes id then some (contract_instance id) else none

  abbrev pub with_code : Text → LedgerKey → Option (List LedgerKey)
  unfolding ledger_key_contract_code
  with_code hash key =
      if length hash == 64
      then elim (ledger_key_contract_code hash) [ none ↦ none | some code ↦ some (key ∷ code ∷ []) ]
      else some (key ∷ [])

  -- the keys of a target; `none` where building one throws
  unfoldable pub keys_of : TtlExtenderTarget → Option (List LedgerKey)
  unfolding ledger_key_contract_instance
  keys_of t = elim (ledger_key_contract_instance t.contract_id) [
    | none ↦ none
    | some key ↦ elim t.wasm_hash [ none ↦ some (key ∷ []) | some hash ↦ with_code hash key ]
  ]

  module _ {W : Type 0} (extend_ttl : List LedgerKey → ℕ → W → Bool × W) (ledgers : ℕ) where
    -- the loop of `tick`: no tally where it throws
    unfoldable pub extend_all : List TtlExtenderTarget → Tally → W → Option Tally × W
    unfolding keys_of
    extend_all [] t w = (some t, w)
    extend_all (target ∷ targets) t w = elim (length target.contract_id == 0) [
      | true ↦ extend_all targets t w
      | false ↦ elim (keys_of target) [
        | none ↦ (none, w)
        | some keys ↦
            let (done, w') = extend_ttl keys ledgers w in extend_all targets (tally done t) w'
      ]
    ]

    abbrev pub outcome : Option Tally → Bool
    outcome none = false
    outcome (some t) = not (ltb 0 t.failed)

    -- `tick`: `true` where it resolves
    unfoldable pub tick : List TtlExtenderTarget → W → Bool × W
    unfolding extend_all
    tick targets w = let (t, w') = extend_all targets no_tally w in (outcome t, w')
