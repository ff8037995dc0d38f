-- ===== src/Frontend/Events/Read.antt =====
-- What the readers of the events return.
use stellax.Base.{
  ℕ, ◌+◌, ◌-◌, ◌*◌, ◌/◌, ◌%◌, ◌^◌, ◌<◌, ◌≡◌, refl, Bool, true, false, Option, none, some, List, [],
  ◌∷◌, All, All-mono, Elem, length, count, arith, Option-cases, inl, inr, ◌&&◌, if◌then◌else◌,
}
use stellax.Base.Int.{ℤ, pos, negsuc, neg, ◌+ℤ◌, ◌-ℤ◌}
use stellax.Indexer.Rows.{Text, same_text}
use stellax.Frontend.Events.{
  ScVal, sc_symbol, sc_u64, sc_i128, vector, ChainEvent, decode_i128, posclose, is_symbol,
  EventFilter, Server, liquidated_position, liq_result, collect_liq, parse_liq_events_for_user,
}

-- the number that the two halves of an i128 stand for
abbrev pub i128_value : ℤ → ℕ → ℤ
i128_value (pos n) lo = pos (n * 2 ^ 64 + lo)
i128_value (negsuc n) lo = neg (pos ((n + 1) * 2 ^ 64 - lo))

-- An i128 with a high half that is not negative is read as the number it stands for. With a negative
-- high half the result is wrong, by 2 ^ 64 each time: too large where the low half is zero, too small
-- where it is not. So every negative number is read as another.
pub decode_i128-value :
    (hi lo low : ℕ)
    → lo < 2 ^ 64
    → 0 < low
    → low < 2 ^ 64
    → (decode_i128 (sc_i128 (pos hi) lo) ≡ some (i128_value (pos hi) lo))
      × (decode_i128 (sc_i128 (negsuc hi) 0) ≡ some (i128_value (negsuc hi) 0 +ℤ pos (2 ^ 64)))
      × (decode_i128 (sc_i128 (negsuc hi) low) ≡ some (i128_value (negsuc hi) low -ℤ pos (2 ^ 64)))
unfolding decode_i128 ◌+ℤ◌ ◌-ℤ◌ neg
decode_i128-value hi lo low h p q = (ground arith, ground arith, ground arith)

-- an i128 as the contract publishes a number that is not negative
abbrev pub i128 : ℕ → ScVal
i128 n = sc_i128 (pos (n / 2 ^ 64)) (n % 2 ^ 64)

-- the event that the engine publishes for a close
abbrev pub close_event : Text → Text → ScVal → (id price pnl : ℕ) → ChainEvent
close_event perp_engine tx user id price pnl = record {
  contract_id = perp_engine;
  topic = sc_symbol posclose ∷ user ∷ sc_u64 id ∷ [];
  value = vector (some (i128 price ∷ i128 pnl ∷ []));
  tx_hash = tx;
}

-- an event is one that some filter asks for
abbrev starts_with : Text → List ScVal → Bool
starts_with name [] = false
starts_with name (tag ∷ more) = is_symbol name tag

abbrev pub wanted : List EventFilter → ChainEvent → Bool
wanted [] ev = false
wanted (f ∷ fs) ev =
    if same_text ev.contract_id f.contract_id && starts_with f.topic ev.topic
    then true
    else wanted fs ev

-- `getEvents` returns only events that a filter asks for.
abbrev pub IsFiltering : Server → Type 0
IsFiltering server =
    (fs : List EventFilter) (events : List ChainEvent)
    → server fs ≡ some events
    → All (λ ev. wanted fs ev ≡ true) events

abbrev has_position : Option ℕ → Bool
has_position none = false
has_position (some id) = true

abbrev pub concerns : Text → ChainEvent → Bool
concerns user ev = has_position (liquidated_position user ev)

-- One result stands for each liquidation of the user, and for nothing else: there are as many results as
-- events that carry the user's address and a position id, and each result has the position id, the
-- transaction and the three numbers of such an event.
pub parse_liq_events-of_user :
    (user : Text) (events : List ChainEvent)
    → let results = parse_liq_events_for_user user (some events) in
      (length results ≡ count (concerns user) events)
      × All
          (λ r.
            (ev : ChainEvent) × Elem ev events
            × (liquidated_position user ev ≡ some r.position_id)
            × (r ≡ liq_result ev r.position_id))
          results
unfolding collect_liq
parse_liq_events-of_user user [] = (refl, tt)
parse_liq_events-of_user user (ev ∷ evs) =
    let rest = parse_liq_events-of_user user evs in
    let later =
      All-mono
        (λ r.
          (x : ChainEvent) × Elem x evs
          × (liquidated_position user x ≡ some r.position_id)
          × (r ≡ liq_result x r.position_id))
        (λ r.
          (x : ChainEvent) × Elem x (ev ∷ evs)
          × (liquidated_position user x ≡ some r.position_id)
          × (r ≡ liq_result x r.position_id))
        (collect_liq user evs) (λ r h. (h.0, inr h.1, h.2, h.3)) rest.1 in
    elim (Option-cases (liquidated_position user ev)) [
      | inl e ↦ rw (e, collect_liq) (omega (arith, rest.0), later)
      | inr (id, e) ↦ rw (e, collect_liq) (omega (arith, rest.0), ((ev, inl refl, e, refl), later))
    ]
