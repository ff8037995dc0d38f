-- ===== src/Sdk/ScVal.antt =====
-- The conversions of packages/sdk/src/core/scval.ts: `enc` and `dec`. The structs are in Structs.
pub mod Typed
pub mod Types
pub mod Structs
pub mod Reads
use Prim.Native.String.{String}
use stellax.Base.{if◌then◌else◌, ℕ, Bool, Option, none, some, List, [], ◌∷◌, find, map}
use stellax.Base.Int.{ℤ}
use stellax.Sdk.Native.{
  Native, Natives, undefined, number, big, text, bytes, array, Number, ◌>>=◌, big_int, to_number,
  to_boolean, to_text, to_bytes,
}
use stellax.Sdk.Xdr.{Xdr, Scalar}
use package.text.Mathlib.Text.{◌==◌ as str_eq}

pub data MarginMode : Type 0 where
  cross isolated : MarginMode

pub data ProposalState : Type 0 where
  pending active defeated succeeded queued executed canceled expired : ProposalState

abbrev pub margin_mode_name : MarginMode → String
margin_mode_name cross = "Cross"
margin_mode_name isolated = "Isolated"

abbrev pub state_name : ProposalState → String
state_name pending = "Pending"
state_name active = "Active"
state_name defeated = "Defeated"
state_name succeeded = "Succeeded"
state_name queued = "Queued"
state_name executed = "Executed"
state_name canceled = "Canceled"
state_name expired = "Expired"

-- all the values of a list, unless one of them throws
abbrev pub all_of {ℓ} : {A : Type ℓ} → List (Option A) → Option (List A)
all_of [] = some []
all_of (none ∷ os) = none
all_of (some a ∷ os) = elim (all_of os) [ none ↦ none | some as' ↦ some (a ∷ as') ]

module _ (x : Xdr) where
  open x use {ScVal}

  -- `enc`
  unfoldable pub u32 : ℤ → Option ScVal
  u32 n = x.native_to_sc_val (number n) Scalar.u32

  unfoldable pub i32 : ℤ → Option ScVal
  i32 n = x.native_to_sc_val (number n) Scalar.i32

  unfoldable pub u64 : ℤ → Option ScVal
  u64 n = x.native_to_sc_val (big n) Scalar.u64

  unfoldable pub i128 : ℤ → Option ScVal
  i128 n = x.native_to_sc_val (big n) Scalar.i128

  unfoldable pub symbol : String → Option ScVal
  symbol s = x.native_to_sc_val (text s) Scalar.symbol

  unfoldable pub string : String → Option ScVal
  string s = x.native_to_sc_val (text s) Scalar.string

  unfoldable pub bool : Bool → Option ScVal
  bool b = some (x.scv_bool b)

  unfoldable pub bytes_val : List ℕ → Option ScVal
  bytes_val b = x.native_to_sc_val (bytes b) Scalar.bytes

  unfoldable pub bytes_n : List ℕ → Option ScVal
  bytes_n b = x.native_to_sc_val (bytes b) Scalar.bytes

  unfoldable pub address : String → Option ScVal
  address a = x.address_val a

  -- the items are encoded before the call
  unfoldable pub vec : List (Option ScVal) → Option ScVal
  vec items = elim (all_of items) [ none ↦ none | some vs ↦ some (x.scv_vec vs) ]

  unfoldable pub option {ℓ} : {A : Type ℓ} → Option A → (A → Option ScVal) → Option ScVal
  option none encoder = some x.scv_void
  option (some v) encoder = encoder v

  unfoldable pub enum_unit : String → Option ScVal
  enum_unit variant = some (x.scv_vec (x.scv_symbol variant ∷ []))

  unfoldable pub margin_mode : MarginMode → Option ScVal
  unfolding enum_unit
  margin_mode m = enum_unit (margin_mode_name m)

  -- `dec`
  unfoldable pub raw : Option ScVal → Native
  raw none = undefined
  raw (some v) = x.sc_val_to_native v

  -- `scValToNative(v!)`
  unfoldable pub native : Option ScVal → Option Native
  native none = none
  native (some v) = some (x.sc_val_to_native v)

  unfoldable pub dec_bigint : Option ScVal → Option ℤ
  unfolding native
  dec_bigint v = native v >>= big_int

  unfoldable pub dec_number : Option ScVal → Option Number
  unfolding native
  dec_number v = native v >>= to_number

  unfoldable pub dec_bool : Option ScVal → Option Bool
  unfolding native
  dec_bool v = native v >>= λ n. some (to_boolean n)

  unfoldable pub dec_string : Option ScVal → Option String
  unfolding native
  dec_string v = native v >>= to_text

  unfoldable pub dec_bytes : Option ScVal → Option (List ℕ)
  unfolding native
  dec_bytes v = native v >>= to_bytes

  unfoldable pub dec_address : Option ScVal → Option String
  unfolding native
  dec_address v = native v >>= to_text

  unfoldable pub dec_vec {ℓ} : {T : Type ℓ} → Option ScVal → (ScVal → Option T) → Option (List T)
  dec_vec none map_item = some []
  dec_vec (some v) map_item = x.vec_items v >>= λ items. all_of (map map_item items)

  -- `Array.isArray(n) ? String(n[0]) : String(n)`
  abbrev first_name : Native → Option String
  first_name (array Natives.no_item) = to_text undefined
  first_name (array (Natives.item n rest)) = to_text n
  first_name n = to_text n

  unfoldable pub dec_enum_unit : Option ScVal → Option String
  unfolding native
  dec_enum_unit v = native v >>= first_name

  unfoldable pub dec_margin_mode : Option ScVal → Option MarginMode
  unfolding dec_enum_unit
  dec_margin_mode v =
      dec_enum_unit v >>= λ name. some (if str_eq name "Isolated" then isolated else cross)

  abbrev pub states : List ProposalState
  states = pending ∷ active ∷ defeated ∷ succeeded ∷ queued ∷ executed ∷ canceled ∷ expired ∷ []

  unfoldable pub dec_proposal_state : Option ScVal → Option ProposalState
  unfolding dec_enum_unit
  dec_proposal_state v = dec_enum_unit v >>= λ name.
      some (elim (find (λ s. str_eq (state_name s) name) states) [ none ↦ pending | some s ↦ s ])
