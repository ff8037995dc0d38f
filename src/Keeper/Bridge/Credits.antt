-- ===== src/Keeper/Bridge/Credits.antt =====
-- How often the bridge keeper credits a deposit.
use Prim.Native.String.{String}
use stellax.Base.{ℕ, ◌≤◌, ◌≡◌, some, List, count}
use stellax.Keeper.Chain.{Chain}
use stellax.Keeper.Bridge.{GmpEvent, Api}
use stellax.Keeper.Bridge.Calls.{is_event}

-- An answer of the API names no id twice.
abbrev pub NamesOnce : ℕ → Api → Type 0
NamesOnce id api = (t : ℕ) (evs : List GmpEvent) → api t ≡ some evs → count (is_event id) evs ≤ 1
