-- ===== src/Sdk/Perp/Broken.antt =====
-- The calls of the perp engine's client that the contract cannot accept, and the reads that throw
-- whatever the contract returns.
use Prim.Native.String.{String}
use stellax.Base.{
  ℕ, ◌≡◌, refl, sym, subst, Bool, Option, none, some, List, [], ◌∷◌, map, absent, some_eq,
  Option-cases, inl, inr,
}
use stellax.Base.Int.{ℤ}
use stellax.Sdk.Native.{bool, number, big, text, bytes, struct_of}
use stellax.Sdk.Js.{codes}
use stellax.Sdk.Xdr.{Xdr, Ty}
use stellax.Sdk.ScVal.{vec, all_of, bytes_n}
use stellax.Sdk.Client.{ContractClient, InvokeOptions, Request, request, invoke}
use stellax.Sdk.Client.Conforms.{Accepts, Accepts-Given}
use stellax.Sdk.Perp.Abi.{abi}
use stellax.Sdk.Perp.{open_position_with_update, close_position_with_update}
use stellax.Sdk.Perp.Orders.{feed_id_to_bytes, hex_bytes, without_0x}
use stellax.Sdk.Perp.Plans.{decode_bracket_group, decode_twap_plan}

feed_ids-ne-symbols :
    (c : ContractClient) (id : String) (ids : List String) (v : c.xdr.ScVal)
    → vec c.xdr (map (feed_id_to_bytes c) (id ∷ ids)) ≡ some v
    → c.xdr.HasType v (Ty.vec Ty.symbol)
    → ⊥
unfolding vec feed_id_to_bytes bytes_n
feed_ids-ne-symbols c id ids v e h =
    elim (Option-cases (bytes_n c.xdr (hex_bytes (without_0x (codes id))))) [
      | inl p ↦ absurd (absent (rw (p, vec) at e))
      | inr (w, p) ↦ elim (Option-cases (all_of (map (feed_id_to_bytes c) ids))) [
        | inl q ↦ absurd (absent (rw (p, q, vec) at e))
        | inr (ws, q) ↦
            let g = c.xdr.vec_members (w ∷ ws) Ty.symbol (
              subst (λ u. c.xdr.HasType u (Ty.vec Ty.symbol)) (sym (some_eq (rw (p, q, vec) at e)))
                h) in
            c.xdr.bytes-ne-symbol (bytes (hex_bytes (without_0x (codes id)))) w p g.0
      ]
    ]

-- With a feed id the contract does not accept the call that opens a position with a Pyth update: it asks
-- for the feeds as symbols and the client sends their ids as bytes.
pub open_position_with_update-Rejected :
    (c : ContractClient) (user : String) (market_id size : ℤ) (is_long : Bool)
    (leverage max_slippage_bps : ℤ) (update : List ℕ) (id : String) (ids : List String)
    (opts : InvokeOptions) (payload : Option (List ℕ)) (q : Request c.xdr.ScVal)
    → request (
        open_position_with_update c user market_id size is_long leverage max_slippage_bps update
          (id ∷ ids)
          opts
          payload)
      ≡ some q
    → ¬ Accepts c.xdr abi q
unfolding open_position_with_update invoke
open_position_with_update-Rejected c user market_id size is_long leverage max_slippage_bps update id
      ids opts payload q e h =
    let call =
      open_position_with_update c user market_id size is_long leverage max_slippage_bps update
        (id ∷ ids) opts payload in
    let g = Accepts-Given c.xdr abi call q e h in
    let (v, p, t) = g.1.1.1.1.1.1.1.1.0 in feed_ids-ne-symbols c id ids v p t

-- Nor the call that closes one.
pub close_position_with_update-Rejected :
    (c : ContractClient) (user : String) (position_id : ℤ) (update : List ℕ) (id : String)
    (ids : List String) (opts : InvokeOptions) (payload : Option (List ℕ)) (q : Request c.xdr.ScVal)
    → request (close_position_with_update c user position_id update (id ∷ ids) opts payload)
      ≡ some q
    → ¬ Accepts c.xdr abi q
unfolding close_position_with_update invoke
close_position_with_update-Rejected c user position_id update id ids opts payload q e h =
    let call = close_position_with_update c user position_id update (id ∷ ids) opts payload in
    let g = Accepts-Given c.xdr abi call q e h in
    let (v, p, t) = g.1.1.1.1.0 in feed_ids-ne-symbols c id ids v p t

-- Every bracket that the contract returns makes `getBracket` throw, since its members are `tp_id` and
-- `sl_id`.
pub decode_bracket_group-throws :
    (x : Xdr) (v : x.ScVal) (parent_id tp_id sl_id : ℤ) (user : String) (active : Bool)
    → x.sc_val_to_native v
      ≡ struct_of (
          ("active", bool active)
          ∷ ("parent_id", big parent_id)
          ∷ ("sl_id", big sl_id)
          ∷ ("tp_id", big tp_id)
          ∷ ("user", text user)
          ∷ [])
    → decode_bracket_group x (some v) ≡ none
unfolding decode_bracket_group
decode_bracket_group-throws x v parent_id tp_id sl_id user active h = rw h refl

-- Every plan that the contract returns makes `getTwapPlan` throw, since it has no `size_filled`.
pub decode_twap_plan-throws :
    (x : Xdr) (v : x.ScVal) (plan_id total_size : ℤ) (user : String) (is_long active : Bool)
    (market_id leverage max_slippage slices slices_released interval_ledgers start_ledger
      expiry_ledger : ℤ)
    → x.sc_val_to_native v
      ≡ struct_of (
          ("active", bool active)
          ∷ ("expiry_ledger", number expiry_ledger)
          ∷ ("interval_ledgers", number interval_ledgers)
          ∷ ("is_long", bool is_long)
          ∷ ("leverage", number leverage)
          ∷ ("market_id", number market_id)
          ∷ ("max_slippage", number max_slippage)
          ∷ ("plan_id", big plan_id)
          ∷ ("slices", number slices)
          ∷ ("slices_released", number slices_released)
          ∷ ("start_ledger", number start_ledger)
          ∷ ("total_size", big total_size)
          ∷ ("user", text user)
          ∷ [])
    → decode_twap_plan x (some v) ≡ none
unfolding decode_twap_plan
decode_twap_plan-throws x v plan_id total_size user is_long active market_id leverage max_slippage
      slices slices_released interval_ledgers start_ledger expiry_ledger h =
    rw h refl
