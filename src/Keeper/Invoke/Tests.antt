-- ===== src/Keeper/Invoke/Tests.antt =====
-- The retry loop against a server that fails twice, and one attempt whose answer cannot be parsed.
use Prim.Native.String.{String}
use stellax.Base.{ℕ, zero, suc, ◌+◌, ◌*◌, ◌^◌, ◌≤◌, ◌≡◌, refl, none, [], ◌∷◌}
use stellax.Keeper.Invoke.{
  Outcome, ok, threw, resolved, rethrown, invoke_inner, status, poll_threw, not_found, Rpc,
}
use stellax.Keeper.Invoke.Retry.{sum, Decided, invoke_inner-Decided}

-- the world is the number of attempts that will still fail
abbrev flaky : ℕ → Outcome ℕ × ℕ
flaky zero = (ok 7, 0)
flaky (suc n) = (threw "txBadSeq", n)

two_failures :
    invoke_inner flaky 3 2
    ≡ record { ending = resolved 7; attempts = 3; delays = 500 ∷ 1000 ∷ []; world = 0 }
unfolding invoke_inner
two_failures = refl

contract_error :
    invoke_inner {A = ℕ} {W = ℕ}
      (λ n. (threw "Simulation failed: HostError: Error(Contract, #11)", n))
      3
      5
    ≡ record {
      ending = rethrown "Simulation failed: HostError: Error(Contract, #11)";
      attempts = 1;
      delays = [];
      world = 5;
    }
unfolding invoke_inner
contract_error = refl

abbrev rpc : Rpc
rpc = record {
  simulation_error = none;
  send_error = none;
  hash = "ab";
  first = status not_found;
  later = poll_threw "Bad union switch: 4" ∷ [];
}

abbrev prefixed : String → String
prefixed s = "tx status"

invoke_inner-Decided_example :
    (d : Decided flaky 3 0 [] 2 (invoke_inner flaky 3 2)) × ((invoke_inner flaky 3 2).attempts ≤ 4)
    × (sum (invoke_inner flaky 3 2).delays + 500 ≡ 500 * 2 ^ d.k)
invoke_inner-Decided_example = invoke_inner-Decided flaky 3 2
