-- ===== src/Keeper/Sweeps/Tests.antt =====
-- Sweeps on small inputs.
use Prim.Native.String.{String}
use text.Mathlib.Text.{◌==◌ as str_eq}
use stellax.Base.{ℕ, zero, suc, ◌≡◌, refl, true, false, none, some, List, [], ◌∷◌, if◌then◌else◌}
use stellax.Base.Int.{pos}
use stellax.Keeper.Chain.{Chain, try_each}
use stellax.Keeper.Sweeps.{Epoch, get_current_epoch_end, update_all, settle_all, roll_all}

-- every third call fails
abbrev flaky : Chain ℕ
flaky i zero = (false, 1)
flaky i (suc zero) = (true, 2)
flaky i (suc (suc n)) = (true, 0)

abbrev markets : List ℕ
markets = 1 ∷ 2 ∷ []

one_failed : (update_all flaky "funding" (1 ∷ []) 0).0 ≡ false
unfolding update_all try_each
one_failed = refl

settled : (settle_all flaky "funding" (1 ∷ 2 ∷ 3 ∷ []) 0).0 ≡ record { ok = 2; failed = 1 }
unfolding settle_all try_each
settled = refl

abbrev schedule : String → ℕ → Epoch
schedule v n = if str_eq v "VA" then some (some (pos 50), none) else some (none, some (pos 90))

one_rolled : roll_all flaky schedule 60 ("VA" ∷ "VB" ∷ []) 0 ≡ 1
unfolding roll_all get_current_epoch_end
one_rolled = refl
