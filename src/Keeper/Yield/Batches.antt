-- ===== src/Keeper/Yield/Batches.antt =====
-- What the batches of one feed credit, read from the calls that reach the chain.
use stellax.Base.{
  ℕ, zero, suc, ◌+◌, ◌*◌, ◌≤◌, ◌<◌, ◌≡◌, refl, sym, ◌∙◌, ap, true, some, false, List, [], ◌∷◌, ◌++◌,
  append_assoc, append-nil, arith, leb, if◌then◌else◌, map, length, take, drop, length-drop,
}
use Prim.Native.String.{String}
use stellax.Base.Int.{ℤ, pos}
use stellax.Keeper.Chain.{Chain, Invocation, Call, credit_yield, set_apy_bps, Log, recording}
use stellax.Keeper.Yield.{
  RwaHolder, Delta, Drip, drip, deltas_of, epoch_of, process_feed, credit_call, sum_deltas, no_drip,
}
use stellax.Keeper.Yield.Idempotent.{sum_owed, sum-deltas_of}

-- one holder's part of a call of `credit_yield`
pub record Credit : Type 0 where
  pub contract : String
  pub epoch_id : ℕ
  pub address : String
  pub amount : ℤ

abbrev pub zip_credits : String → ℕ → List String → List ℤ → List Credit
zip_credits contract epoch_id [] amounts = []
zip_credits contract epoch_id (a ∷ addrs) [] = []
zip_credits contract epoch_id (a ∷ addrs) (n ∷ amounts) =
    record { contract = contract; epoch_id = epoch_id; address = a; amount = n }
    ∷ zip_credits contract epoch_id addrs amounts

abbrev pub credits_of : String → Call → List Credit
credits_of contract (credit_yield addrs amounts epoch_id) =
    zip_credits contract epoch_id addrs amounts
credits_of contract other = []

-- the credits of the calls that resolved, in the order of the calls
abbrev pub credits : Log → List Credit
credits [] = []
credits ((i, done) ∷ log) = (if done then credits_of i.contract i.call else []) ++ credits log

-- what a delta is owed as
abbrev pub credit_for : String → ℕ → Delta → Credit
credit_for contract epoch_id d = record {
  contract = contract;
  epoch_id = epoch_id;
  address = d.addr;
  amount = pos d.delta;
}

credits-append : (xs ys : Log) → credits (xs ++ ys) ≡ credits xs ++ credits ys
credits-append [] ys = refl
credits-append ((i, true) ∷ xs) ys =
    ap (◌++◌ (credits_of i.contract i.call)) (credits-append xs ys)
    ∙ sym (append_assoc (credits_of i.contract i.call) (credits xs) (credits ys))
credits-append ((i, false) ∷ xs) ys = credits-append xs ys

credits_of-call :
    (contract : String) (epoch_id : ℕ) (ds : List Delta)
    → let i = credit_call contract epoch_id ds in
      credits_of i.contract i.call ≡ map (credit_for contract epoch_id) ds
unfolding credit_call
credits_of-call contract epoch_id [] = refl
credits_of-call contract epoch_id (d ∷ ds) =
    ap (◌∷◌ (credit_for contract epoch_id d)) (credits_of-call contract epoch_id ds)

-- a batch and what is left of it
map-batch :
    (f : Delta → Credit) (n : ℕ) (ds : List Delta)
    → map f (take n ds) ++ map f (drop n ds) ≡ map f ds
map-batch f zero ds = refl
map-batch f (suc n) [] = refl
map-batch f (suc n) (d ∷ ds) = ap (◌∷◌ (f d)) (map-batch f n ds)

sum-batch :
    (n : ℕ) (ds : List Delta) → sum_deltas (take n ds) + sum_deltas (drop n ds) ≡ sum_deltas ds
sum-batch zero ds = omega arith
sum-batch (suc n) [] = refl
sum-batch (suc n) (d ∷ ds) = omega (arith, sum-batch n ds)

module _ {W : Type 0} (chain : Chain W) (contract : String)
    (epoch_id batch_size max_batches : ℕ) where
  drip-sends_all :
      (fuel room : ℕ) (ds : List Delta) (s : Drip) (w : W × Log)
      → 0 < batch_size
      → ((i : Invocation) (v : W) → (chain i v).0 ≡ true)
      → length ds ≤ fuel
      → length ds ≤ room * batch_size
      → s.batches + room ≤ max_batches
      → s.completed ≡ true
      → let r = drip (recording chain) contract epoch_id batch_size max_batches fuel ds s w in
        (r.0.completed ≡ true)
        × (credits r.1.1 ≡ credits w.1 ++ map (credit_for contract epoch_id) ds)
        × (r.0.total_credited ≡ s.total_credited + sum_deltas ds)
  unfolding drip
  drip-sends_all fuel room [] s w b up f c m done =
      (done, sym (append-nil (credits w.1)), omega arith)
  drip-sends_all zero room (d ∷ ds) s w b up f c m done = absurd (omega arith)
  drip-sends_all (suc fuel) zero (d ∷ ds) s w b up f c m done = absurd (omega arith)
  drip-sends_all (suc fuel) (suc room) (d ∷ ds) s w b up f c m done =
      let slice = take batch_size (d ∷ ds) in
      let left = drop batch_size (d ∷ ds) in
      let call = credit_call contract epoch_id slice in
      let one = credit_for contract epoch_id in
      let open_still : leb max_batches s.batches ≡ false = ground arith in
      let w' : W × Log = ((chain call w.0).1, w.1 ++ ((call, true) ∷ [])) in
      let (ends, all_sent, total) =
        drip-sends_all fuel room left
          (record {
            completed = true;
            batches = s.batches + 1;
            total_credited = s.total_credited + sum_deltas slice;
          })
          w' b up (omega (arith, length-drop batch_size (d ∷ ds)))
          (omega (arith, length-drop batch_size (d ∷ ds))) (omega arith) refl in
      let here : credits w'.1 ≡ credits w.1 ++ map one slice =
        credits-append w.1 ((call, true) ∷ [])
        ∙ ap (◌++◌ (credits w.1)) (
            append-nil (credits_of call.contract call.call)
            ∙ credits_of-call contract epoch_id slice) in
      rw (open_still, up call w.0)
        (
          ends,
          all_sent
              ∙ ap (λ (t : List Credit). t ++ map one left) here
              ∙ append_assoc (credits w.1) (map one slice) (map one left)
              ∙ ap (◌++◌ (credits w.1)) (map-batch one batch_size (d ∷ ds)),
          omega (arith, total, sum-batch batch_size (d ∷ ds)),
        )

length-deltas_of :
    (now apy : ℕ) (holders : List RwaHolder) → length (deltas_of now apy holders) ≤ length holders
unfolding deltas_of
length-deltas_of now apy [] = omega arith
length-deltas_of now apy (h ∷ hs) = ground (arith, length-deltas_of now apy hs)

module _ {W : Type 0} (chain : Chain W) (batch_size max_batches : ℕ) (contract : String) (apy : ℕ)
    (holders : List RwaHolder) (now : ℕ) (w : W) where
  -- If every call resolves and the holders fit the caps, the tick ends normally, and the calls that
  -- reached the chain have credited every owed delta, with its holder and its amount, once and in order,
  -- and nothing else, all on the feed's contract and for the hour of the tick; the total that it reports
  -- is what was owed to all holders.
  pub process_feed-sends_all :
      0 < batch_size
      → length holders ≤ max_batches * batch_size
      → ((i : Invocation) (v : W) → (chain i v).0 ≡ true)
      → let r =
          process_feed
            (recording chain)
            batch_size
            max_batches
            (some contract)
            (some apy)
            holders
            now
            (w, []) in
        (r.0.completed ≡ true)
        × (credits r.1.1 ≡ map (credit_for contract (epoch_of now)) (deltas_of now apy holders))
        × (r.0.total_credited ≡ sum_owed now apy holders)
  unfolding process_feed
  process_feed-sends_all b fits up =
      let deltas = deltas_of now apy holders in
      let apy_call : Invocation = record {
        contract = contract;
        call = set_apy_bps apy;
        max_retries = 3;
      } in
      let (ends, all_sent, total) =
        drip-sends_all chain contract (epoch_of now) batch_size max_batches (length deltas)
          max_batches deltas no_drip (recording chain apy_call (w, [])).1 b up (omega arith)
          (omega (arith, length-deltas_of now apy holders)) (omega arith) refl in
      let nothing_yet : credits (recording chain apy_call (w, [])).1.1
            ++ map (credit_for contract (epoch_of now)) deltas
          ≡ map (credit_for contract (epoch_of now)) deltas =
        rw (up apy_call w) refl in
      (ends, all_sent ∙ nothing_yet, omega (arith, total, (sum-deltas_of now apy holders).0))
