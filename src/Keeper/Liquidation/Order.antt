-- ===== src/Keeper/Liquidation/Order.antt =====
-- Which positions the bot liquidates, and in which order.
use Prim.Native.String.{String}
use stellax.Base.{
  suc, ◌+◌, ◌<◌, ◌≡◌, refl, sym, ap, subst, ◌∙◌, Bool, true, false, Option, none, some, List, [],
  ◌∷◌, map, if◌then◌else◌, length, filter, sort, insert, count, count-sort, IsSorted, sort-IsSorted,
  All, All-of_elem, Elem, arith, Bool-cases, Option-cases, inl, inr, ◌↔◌,
}
use stellax.Base.Int.{pos}
use stellax.Indexer.Rows.{Text, same_text, same_text_refl, same_text_eq}
use stellax.Keeper.Chain.{Chain, no_tally, run_all, try_each-world, try_each-total}
use stellax.Keeper.Liquidation.{
  PositionLike, Health, Simulate, seen, distinct, gather, get, health_of, is_liquidatable,
  not_after, ratio_of, max_safe_integer, candidates, liquidate_call, tick,
}

get-gather :
    (simulate : Simulate) (u : Text) (us : List Text)
    → get u (gather simulate us) ≡ (if seen u us then simulate u else none)
unfolding gather
get-gather simulate u [] = refl
get-gather simulate u (x ∷ xs) = elim (Option-cases (simulate x)) [
  | inl e ↦ elim (Bool-cases (same_text x u)) [
    | inl same ↦
        let silent : simulate u ≡ none = subst (λ y. simulate y ≡ none) (same_text_eq x u same) e in
        rw (e, gather)
          (rw same (get-gather simulate u xs ∙ rw silent (either_none (seen u xs)) ∙ sym silent))
    | inr other ↦ rw (e, gather) (rw other (get-gather simulate u xs))
  ]
  | inr (h, e) ↦ elim (Bool-cases (same_text x u)) [
    | inl same ↦
        let answer : simulate u ≡ some h =
          subst (λ y. simulate y ≡ some h) (same_text_eq x u same) e in
        rw (e, gather) (rw same (sym answer))
    | inr other ↦ rw (e, gather) (rw other (get-gather simulate u xs))
  ]
]
  where
    either_none : (b : Bool) → ◌≡◌ {A = Option Health} (if b then none else none) none
    either_none true = refl
    either_none false = refl

-- `distinct` keeps every user that was not seen before.
seen-distinct :
    (u : Text) (before us : List Text)
    → seen u (distinct before us) ≡ (if seen u before then false else seen u us)
unfolding distinct
seen-distinct u before [] = either_false (seen u before)
  where
    either_false : (b : Bool) → false ≡ (if b then false else false)
    either_false true = refl
    either_false false = refl
seen-distinct u before (x ∷ xs) =
    let rest = seen-distinct u (x ∷ before) xs in
    elim (Bool-cases (same_text x u)) [
      | inl same ↦
          let moved = ap (λ y. seen y before) (same_text_eq x u same) in
          elim (Bool-cases (seen x before)) [
            | inl e ↦
                let known : seen u before ≡ true = sym moved ∙ e in
                rw (e, distinct) (rw known (rest ∙ rw same refl))
            | inr e ↦
                let unknown : seen u before ≡ false = sym moved ∙ e in
                rw (e, distinct) (rw same (rw unknown refl))
          ]
      | inr other ↦
          let rest' : seen u (distinct (x ∷ before) xs)
              ≡ (if seen u before then false else seen u xs) =
            rest ∙ rw other refl in
          elim (Bool-cases (seen x before)) [
            | inl e ↦ rw (e, distinct) (rw other rest')
            | inr e ↦ rw (e, distinct) (rw other rest')
          ]
    ]

get-health_of :
    (simulate : Simulate) (u : Text) (ps : List PositionLike)
    → seen u (map (λ (p : PositionLike). p.user) ps) ≡ true
    → get u (health_of simulate ps) ≡ simulate u
get-health_of simulate u ps h =
    get-gather simulate u (distinct [] (map (λ (p : PositionLike). p.user) ps))
    ∙ rw (seen-distinct u [] (map (λ (p : PositionLike). p.user) ps)) (rw h refl)

-- the position is liquidatable by its user's health, as the contract answers
abbrev pub due : Simulate → PositionLike → Bool
due simulate p = is_liquidatable (simulate p.user)

filter-agrees :
    (simulate : Simulate) (ps all : List PositionLike)
    → All (λ (p : PositionLike). get p.user (health_of simulate all) ≡ simulate p.user) ps
    → filter (λ (p : PositionLike). is_liquidatable (get p.user (health_of simulate all))) ps
      ≡ filter (due simulate) ps
filter-agrees simulate [] all h = refl
filter-agrees simulate (p ∷ ps) all h = rw h.0 (rw (filter-agrees simulate ps all h.1) refl)

seen-Elem :
    (ps : List PositionLike) (p : PositionLike)
    → Elem p ps
    → seen p.user (map (λ (x : PositionLike). x.user) ps) ≡ true
seen-Elem [] p h = absurd (h tt)
seen-Elem (x ∷ xs) p (inl e) =
    let known : same_text x.user p.user ≡ true =
      subst (λ (y : PositionLike). same_text y.user p.user ≡ true) e (same_text_refl p.user) in
    rw known refl
seen-Elem (x ∷ xs) p (inr e) = ground (arith, seen-Elem xs p e)

candidates-sort :
    (simulate : Simulate) (ps : List PositionLike)
    → candidates simulate ps ≡ sort (not_after (health_of simulate ps)) (filter (due simulate) ps)
unfolding candidates
candidates-sort simulate ps = ap (sort (not_after (health_of simulate ps))) (
    filter-agrees simulate ps ps (
      All-of_elem (λ (p : PositionLike). get p.user (health_of simulate ps) ≡ simulate p.user) ps
        (λ p h. get-health_of simulate p.user ps (seen-Elem ps p h))))

not_after_total :
    (health : List (Text × Health)) (a b : PositionLike)
    → not_after health a b ≡ false
    → not_after health b a ≡ true
not_after_total health a b h = ground arith

not_after_trans :
    (health : List (Text × Health)) (a b c : PositionLike)
    → not_after health a b ≡ true
    → not_after health b c ≡ true
    → not_after health a c ≡ true
not_after_trans health a b c h k = ground arith

length-map : {A : Type 0} {B : Type 0} (f : A → B) (xs : List A) → length (map f xs) ≡ length xs
length-map f [] = refl
length-map f (x ∷ xs) = ap suc (length-map f xs)

-- The bot's candidates are exactly the open positions whose user the contract reports as liquidatable,
-- each as often as it is listed (whatever property the positions are counted by), although each user is
-- asked once; and they are sorted by the ratio in their user's answer, the lowest first, where an answer
-- without one counts as the largest safe integer.
pub candidates-due :
    (simulate : Simulate) (ps : List PositionLike)
    → ((p : PositionLike → Bool)
        → count p (candidates simulate ps) ≡ count p (filter (due simulate) ps))
      × IsSorted (not_after (health_of simulate ps)) (candidates simulate ps)
candidates-due simulate ps =
    let health = health_of simulate ps in
    let le = not_after health in
    (
      λ p. ap (count p) (candidates-sort simulate ps) ∙ count-sort le p (filter (due simulate) ps),
      subst (IsSorted le) (sym (candidates-sort simulate ps)) (
          sort-IsSorted le (not_after_total health) (not_after_trans health)
            (filter (due simulate) ps)),
    )

sort-ties :
    (le : PositionLike → PositionLike → Bool) (ps : List PositionLike)
    → ((a b : PositionLike) → le a b ≡ true)
    → sort le ps ≡ ps
unfolding sort
sort-ties le [] h = refl
sort-ties le (p ∷ ps) h = rw (sort-ties le ps h) (first ps)
  where
    first : (ps : List PositionLike) → insert le p ps ≡ p ∷ ps
    first [] = refl
    first (q ∷ qs) = rw (h p q) refl

-- an answer without a ratio, or none
ratio-absent :
    (simulate : Simulate) (u : Text) (us : List Text)
    → ((h : Health) → simulate u ≡ some h → h.margin_ratio_bps ≡ none)
    → ratio_of (get u (gather simulate us)) ≡ pos max_safe_integer
ratio-absent simulate u us absent = rw (get-gather simulate u us) (elim (Bool-cases (seen u us)) [
  | inr e ↦ rw e refl
  | inl e ↦ rw e (elim (Option-cases (simulate u)) [
    | inl k ↦ rw k refl
    | inr (h, k) ↦ rw k (rw (absent h k) refl)
  ])
])

-- Where no answer has the ratio that the bot reads, the candidates are the open positions of the
-- liquidatable users in the order in which the indexer lists them: nothing is put first.
pub candidates-as_listed :
    (simulate : Simulate) (ps : List PositionLike)
    → ((u : Text) (h : Health) → simulate u ≡ some h → h.margin_ratio_bps ≡ none)
    → candidates simulate ps ≡ filter (due simulate) ps
candidates-as_listed simulate ps absent =
    let us = distinct [] (map (λ (p : PositionLike). p.user) ps) in
    candidates-sort simulate ps
    ∙ sort-ties (not_after (health_of simulate ps)) (filter (due simulate) ps) (λ a b.
      rw (ratio-absent simulate a.user us (absent a.user))
        (rw (ratio-absent simulate b.user us (absent b.user)) (ground arith)))

-- A failed call stops nothing: the bot calls `liquidate` for every candidate, once and in order, counts
-- each call as liquidated or as failed, and sends its warning exactly if there were candidates and every
-- call failed.
pub tick-tries_all :
    {W : Type 0} (chain : Chain W) (risk : String) (simulate : Simulate) (ps : List PositionLike)
    (w : W)
    → let r = tick chain risk simulate ps w in
      let found = candidates simulate ps in
      (r.1 ≡ run_all chain (map (liquidate_call risk) found) w)
      × (r.0.tally.ok + r.0.tally.failed ≡ length found)
      × ((r.0.alert ≡ true) ↔ ((0 < length found) × (r.0.tally.failed ≡ length found)))
unfolding tick
tick-tries_all chain risk simulate ps w =
    let found = candidates simulate ps in
    let calls = map (liquidate_call risk) found in
    let total = try_each-total chain calls no_tally w in
    let size = length-map (liquidate_call risk) found in
    (
      try_each-world chain calls no_tally w,
      omega (arith, total, size),
      (λ e. ground (arith, total, size), λ e. ground (arith, total, size)),
    )
