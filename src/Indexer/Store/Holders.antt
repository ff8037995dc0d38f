-- ===== src/Indexer/Store/Holders.antt =====
-- The table of the holders of the RWA tokens as a map from (feed, address) to rows.
use stellax.Base.{
  ℕ, zero, suc, ◌+◌, ◌-◌, ◌≡◌, refl, ap, subst, ◌∙◌, true, false, ◌&&◌, Option, none, some, List,
  [], ◌∷◌, find, arith, Bool-cases, inl, inr,
}
use stellax.Base.Int.{ℤ, pos, ◌+ℤ◌, neg}
use stellax.Indexer.Rows.{
  Text, same_text, same_text_refl, same_text_eq, same_text_comm, to_upper_case, RwaHolderRow,
}
use stellax.Indexer.Store.{
  Store, is_holder, is_address, clamp, adjusted, upsert_rwa_holder, adjust_rwa_holder,
  apply_rwa_transfer,
}

-- the balance and the lifetime yield that the table gives for a holder; a missing row stands for zero
abbrev pub balance_in : Option RwaHolderRow → ℤ
balance_in none = pos 0
balance_in (some r) = r.balance_native

abbrev pub yield_in : Option RwaHolderRow → ℤ
yield_in none = pos 0
yield_in (some r) = r.cumulative_yield

abbrev pub balance : Text → Text → Store → ℤ
balance feed address s = balance_in (find (is_holder feed address) s.rwa_holders)

abbrev cumulative : Text → Text → Store → ℤ
cumulative feed address s = yield_in (find (is_holder feed address) s.rwa_holders)

is_holder_trans :
    (f a f' a' : Text) (r : RwaHolderRow)
    → is_holder f a r ≡ true
    → is_holder f' a' r ≡ (same_text f f' && same_text a a')
is_holder_trans f a f' a' r h =
    let feed = same_text_eq r.feed f (ground arith) in
    let address = same_text_eq r.address a (ground arith) in rw (feed, address) refl

upsert-hit :
    (row : RwaHolderRow) (rows : List RwaHolderRow)
    → (r : RwaHolderRow) × (find (is_holder row.feed row.address) (upsert_rwa_holder row rows)
        ≡ some r)
      × (r.balance_native ≡ row.balance_native)
      × (r.cumulative_yield ≡ row.cumulative_yield)
unfolding upsert_rwa_holder
upsert-hit row [] =
    let here = same_text_refl row.feed in
    let there = same_text_refl row.address in (row, rw here (rw there refl), refl, refl)
upsert-hit row (r ∷ rs) = elim (Bool-cases (is_holder row.feed row.address r)) [
  | inl e ↦
      rw (e, upsert_rwa_holder)
        (
          record r {
            balance_native = row.balance_native;
            cumulative_yield = row.cumulative_yield;
            updated_at = row.updated_at;
          },
          rw e refl,
          refl,
          refl,
        )
  | inr e ↦
      let (found, h, b, y) = upsert-hit row rs in rw (e, upsert_rwa_holder) (found, rw e h, b, y)
]

upsert-miss :
    (feed address : Text) (row : RwaHolderRow) (rows : List RwaHolderRow)
    → (same_text row.feed feed && same_text row.address address) ≡ false
    → find (is_holder feed address) (upsert_rwa_holder row rows)
      ≡ find (is_holder feed address) rows
unfolding upsert_rwa_holder
upsert-miss feed address row [] h = rw h refl
upsert-miss feed address row (r ∷ rs) h = elim (Bool-cases (is_holder row.feed row.address r)) [
  | inl e ↦
      let other : is_holder feed address r ≡ false =
        is_holder_trans row.feed row.address feed address r e ∙ h in
      rw (e, upsert_rwa_holder) (rw other refl)
  | inr e ↦ rw (e, upsert_rwa_holder) (ground (arith, upsert-miss feed address row rs h))
]

pub adjusted_key :
    (feed address : Text) (bd yd : ℤ) (ts : ℕ) (o : Option RwaHolderRow)
    → ((adjusted feed address bd yd ts o).feed ≡ feed)
      × ((adjusted feed address bd yd ts o).address ≡ address)
      × ((adjusted feed address bd yd ts o).balance_native ≡ clamp (balance_in o +ℤ bd))
      × ((adjusted feed address bd yd ts o).cumulative_yield ≡ clamp (yield_in o +ℤ yd))
adjusted_key feed address bd yd ts none = (refl, refl, refl, refl)
adjusted_key feed address bd yd ts (some r) = (refl, refl, refl, refl)

adjust-here :
    (feed address : Text) (bd yd : ℤ) (ts : ℕ) (s : Store)
    → is_address address ≡ true
    → let u = to_upper_case feed in
      let s' = adjust_rwa_holder feed address bd yd ts s in
      (balance u address s' ≡ clamp (balance u address s +ℤ bd))
      × (cumulative u address s' ≡ clamp (cumulative u address s +ℤ yd))
unfolding adjust_rwa_holder
adjust-here feed address bd yd ts s h =
    let u = to_upper_case feed in
    let o = find (is_holder u address) s.rwa_holders in
    let row : RwaHolderRow = adjusted u address bd yd ts o in
    let (kf, ka, kb, ky) = adjusted_key u address bd yd ts o in
    let (r, found, b, y) = upsert-hit row s.rwa_holders in
    let found' : find (is_holder u address) (upsert_rwa_holder row s.rwa_holders) ≡ some r =
      subst (λ f. find (is_holder f address) (upsert_rwa_holder row s.rwa_holders) ≡ some r) kf
        (subst (λ a. find (is_holder row.feed a) (upsert_rwa_holder row s.rwa_holders) ≡ some r) ka
          found) in
    rw (h, adjust_rwa_holder) (ap balance_in found' ∙ b ∙ kb, ap yield_in found' ∙ y ∙ ky)

adjust-elsewhere :
    (feed address feed' address' : Text) (bd yd : ℤ) (ts : ℕ) (s : Store)
    → (same_text (to_upper_case feed) feed' && same_text address address') ≡ false
    → (balance feed' address' (adjust_rwa_holder feed address bd yd ts s)
        ≡ balance feed' address' s)
      × (cumulative feed' address' (adjust_rwa_holder feed address bd yd ts s)
          ≡ cumulative feed' address' s)
unfolding adjust_rwa_holder
adjust-elsewhere feed address feed' address' bd yd ts s h = elim (Bool-cases (is_address address)) [
  | inr e ↦ rw (e, adjust_rwa_holder) (refl, refl)
  | inl e ↦
      let u = to_upper_case feed in
      let o = find (is_holder u address) s.rwa_holders in
      let (kf, ka, kb, ky) = adjusted_key u address bd yd ts o in
      let row : RwaHolderRow = adjusted u address bd yd ts o in
      let other : (same_text row.feed feed' && same_text row.address address') ≡ false =
        ap (λ f. same_text f feed' && same_text row.address address') kf
        ∙ ap (λ a. same_text u feed' && same_text a address') ka
        ∙ h in
      let same = upsert-miss feed' address' row s.rwa_holders other in
      rw (e, adjust_rwa_holder) (ap balance_in same, ap yield_in same)
]

taken_from : (held amount : ℕ) → clamp (pos held +ℤ neg (pos amount)) ≡ pos (held - amount)
unfolding ◌+ℤ◌ neg
taken_from held zero = ground arith
taken_from held (suc amount) = ground arith

added_to : (had amount : ℕ) → clamp (pos had +ℤ pos amount) ≡ pos (had + amount)
unfolding ◌+ℤ◌
added_to had amount = ground arith

-- An RWA transfer between two different holders: the sender's balance drops by the amount, stopping at
-- zero, the receiver's grows by it, and no other balance of any feed changes. So where the sender's
-- indexed balance covers the amount the sum of the two stays, and else the receiver gains more than the
-- sender loses.
pub apply_rwa_transfer-moves :
    (feed source to f a : Text) (amount held had : ℕ) (ts : ℕ) (s : Store)
    → is_address source ≡ true
    → is_address to ≡ true
    → same_text source to ≡ false
    → balance (to_upper_case feed) source s ≡ pos held
    → balance (to_upper_case feed) to s ≡ pos had
    → (same_text (to_upper_case feed) f && same_text source a) ≡ false
    → (same_text (to_upper_case feed) f && same_text to a) ≡ false
    → let u = to_upper_case feed in
      let s' = apply_rwa_transfer feed source to (pos amount) ts s in
      (balance u source s' ≡ pos (held - amount))
      × (balance u to s' ≡ pos (had + amount))
      × (balance f a s' ≡ balance f a s)
unfolding apply_rwa_transfer
apply_rwa_transfer-moves feed source to f a amount held had ts s hs ht st bs bt h k =
    let u = to_upper_case feed in
    let mid = adjust_rwa_holder feed source (neg (pos amount)) (pos 0) ts s in
    let taken = adjust-here feed source (neg (pos amount)) (pos 0) ts s hs in
    let given = adjust-here feed to (pos amount) (pos 0) ts mid ht in
    let no_st : (same_text u u && same_text source to) ≡ false = rw (same_text_refl u) st in
    let no_ts : (same_text u u && same_text to source) ≡ false =
      rw (same_text_refl u) (same_text_comm to source ∙ st) in
    let to_kept = adjust-elsewhere feed source u to (neg (pos amount)) (pos 0) ts s no_st in
    let source_kept = adjust-elsewhere feed to u source (pos amount) (pos 0) ts mid no_ts in
    (
      source_kept.0 ∙ taken.0 ∙ ap (λ b. clamp (b +ℤ neg (pos amount))) bs ∙ taken_from held amount,
      given.0 ∙ ap (λ b. clamp (b +ℤ pos amount)) (to_kept.0 ∙ bt) ∙ added_to had amount,
      (adjust-elsewhere feed to f a (pos amount) (pos 0) ts mid k).0
          ∙ (adjust-elsewhere feed source f a (neg (pos amount)) (pos 0) ts s h).0,
    )
