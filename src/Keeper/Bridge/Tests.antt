-- ===== src/Keeper/Bridge/Tests.antt =====
-- The bridge keeper with an API that repeats a deposit, and with a chain that fails.
use stellax.Base.{
  ℕ, zero, suc, ◌≤◌, ◌≡◌, refl, Bool, map, true, false, some, List, [], ◌∷◌, ◌++◌, arith, All, leb,
  if◌then◌else◌, Bool-cases, subst, sym, ◌∙◌, inl, inr,
}
use stellax.Sdk.Js.{parse_int_16, big_int_hex, from_char_code}
use stellax.Sdk.Gmp.{hex_to_string, decode_clean, decode_deposit_payload}
use stellax.Sdk.Gmp.Bytes.{encode}
use stellax.Keeper.Chain.{Chain, Invocation}
use stellax.Keeper.Bridge.{
  GmpEvent, BridgeKeeper, credit_of, Api, fetch_pending_deposits, process_deposit, process_all,
  tick,
}
use stellax.Keeper.Bridge.Calls.{deposit_calls, calls_in, run_calls}
use stellax.Keeper.Bridge.Window.{tick-drops_old}

abbrev copies : ℕ → ℕ → List ℕ
copies zero b = []
copies (suc n) b = b ∷ copies n b

abbrev deposit : GmpEvent
deposit = record {
  id = 7;
  payload =
      some (encode (b'G' ∷ copies 31 b'A') (copies 24 b'B') (copies 8 0) (copies 16 0) 5_000_000);
}

-- the chain counts its calls and fails the first
abbrev second_works : Chain ℕ
second_works i zero = (false, 1)
second_works i (suc n) = (true, suc (suc n))

abbrev api : Api
api t = some (deposit ∷ [])

abbrev start : BridgeKeeper
start = record { processed = []; from_timestamp = 1_000_000 }

credited : credit_of deposit ≡ some ((b'G' ∷ copies 31 b'A') ++ copies 24 b'B', 50_000_000)
unfolding credit_of decode_deposit_payload decode_clean parse_int_16 big_int_hex from_char_code
    hex_to_string
credited = refl

-- the first call throws, the second resolves, and there is no third
called_twice :
    map
      (λ (c : Invocation × Bool). c.1)
      (run_calls second_works "bridge" 7
        ((api, 2_000_000) ∷ (api, 3_000_000) ∷ (api, 4_000_000) ∷ [])
        start
        0)
    ≡ false ∷ true ∷ []
unfolding run_calls calls_in deposit_calls credit_of tick process_all process_deposit
    fetch_pending_deposits decode_deposit_payload decode_clean parse_int_16 big_int_hex
    from_char_code hex_to_string
called_twice = refl

-- an API that keeps to the asked time; the deposit is of second 1 000
abbrev timed_api : Api
timed_api t = if leb t 1_000 then some (deposit ∷ []) else some []

timed_api-honest :
    (t : ℕ) (found : List GmpEvent)
    → timed_api t ≡ some found
    → All (λ (e : GmpEvent). t ≤ 1_000) found
timed_api-honest t found e = elim (Bool-cases (leb t 1_000)) [
  | inl h ↦
      let listed : some (deposit ∷ []) ≡ some found = sym (rw h refl) ∙ e in
      let equal : deposit ∷ [] ≡ found = cc in
      subst (λ fs. All (λ (x : GmpEvent). t ≤ 1_000) fs) equal (ground arith, tt)
  | inr h ↦
      let listed : some [] ≡ some found = sym (rw h refl) ∙ e in
      let equal : [] ≡ found = cc in subst (λ fs. All (λ (x : GmpEvent). t ≤ 1_000) fs) equal tt
]

fetched : fetch_pending_deposits timed_api start ≡ deposit ∷ []
unfolding fetch_pending_deposits
fetched = refl

tick-drops_old_example :
    run_calls second_works "bridge" 7
      ((timed_api, 3_000_000) ∷ [])
      (tick second_works "bridge" timed_api 2_000_000 start 0).0
      (tick second_works "bridge" timed_api 2_000_000 start 0).1
    ≡ []
tick-drops_old_example =
    tick-drops_old second_works "bridge" timed_api (λ id. 1_000) 2_000_000 7 deposit []
      ((timed_api, 3_000_000) ∷ []) start 0 ((timed_api-honest, omega arith), tt) fetched
      (omega arith)
