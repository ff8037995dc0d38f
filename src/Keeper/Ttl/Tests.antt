-- ===== src/Keeper/Ttl/Tests.antt =====
-- The extender on small inputs.
use stellax.Base.{
  ℕ, zero, suc, ◌≡◌, refl, Bool, true, false, none, some, List, [], ◌∷◌, ◌++◌, ltb, length, inr,
}
use stellax.Indexer.Rows.{Text}
use stellax.Keeper.Ttl.{
  TtlExtenderTarget, LedgerKey, contract_instance, tick, extend_all, keys_of, with_code,
}
use stellax.Keeper.Ttl.Extended.{requests, IsUsable, extend_each, tick-bad_target}

-- ids of one character are accepted; the second extension fails
abbrev decodes : Text → Bool
decodes id = ltb (length id) 2

abbrev server : List LedgerKey → ℕ → ℕ → Bool × ℕ
server keys ledgers zero = (true, 1)
server keys ledgers (suc n) = (false, suc (suc n))

abbrev good : TtlExtenderTarget
good = record { contract_id = b'A' ∷ []; wasm_hash = none }

abbrev short_hash : TtlExtenderTarget
short_hash = record { contract_id = b'B' ∷ []; wasm_hash = some (b'0' ∷ []) }

abbrev bad : TtlExtenderTarget
bad = record { contract_id = b'A' ∷ b'B' ∷ []; wasm_hash = none }

good-IsUsable : IsUsable decodes good
unfolding keys_of with_code
good-IsUsable = inr (contract_instance (b'A' ∷ []) ∷ [], refl, refl)

tick-bad_target_example :
    tick decodes server 100 ((good ∷ []) ++ (bad ∷ short_hash ∷ [])) 0
    ≡ (false, (extend_each decodes server 100 (requests decodes (good ∷ [])) 0).1)
unfolding keys_of with_code
tick-bad_target_example =
    tick-bad_target decodes server 100 (good ∷ []) (short_hash ∷ []) bad 0 (good-IsUsable, tt) refl
      refl

one_extended : tick decodes server 100 (good ∷ bad ∷ short_hash ∷ []) 0 ≡ (false, 1)
unfolding tick extend_all
one_extended = refl
