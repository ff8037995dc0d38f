-- ===== src/Sdk/Perp/Fits.antt =====
-- The calls of the calls of the perp engine against the interface of the contract (contracts/stellax-perp-engine/src/lib.rs).
use Prim.Native.String.{String}
use stellax.Base.{ℕ, ◌≡◌, Bool, Option, List, length}
use stellax.Base.Int.{ℤ}
use stellax.Sdk.ScVal.Typed.{
  u32-Typed, u64-Typed, i128-Typed, bytes_n-Typed, bool-Typed, address-Typed,
}
use stellax.Sdk.Client.{ContractClient, InvokeOptions, invoke, simulate_return}
use stellax.Sdk.Client.Conforms.{Conforms, price_bytes-Typed}
use stellax.Sdk.Perp.{
  get_position, get_unrealized_pnl, get_mark_price, version, open_position, close_position, upgrade,
  get_skew_state, set_clob, get_clob, create_order, execute_order, cancel_pending_order,
  get_pending_order, update_trailing_anchor, bracket_link, cancel_bracket_sibling, create_twap_plan,
  release_twap_slice, create_iceberg_plan, release_iceberg_slice, get_bracket, get_twap_plan,
  get_iceberg_plan, is_paused, pause, unpause, set_slp_vault, get_slp_vault,
}
use stellax.Sdk.Perp.Orders.{OrderTypeVariant}
use stellax.Sdk.Perp.Typed.{order_type, encode_order_type-Typed}
use stellax.Sdk.Perp.Abi.{abi}

-- Every call of the client, whatever its arguments, fits the interface of the contract: the method is one of the contract, there are as many arguments as parameters, and each argument that is encoded has the type of its parameter, for all calls but the two that carry a Pyth update.
-- The hash of `upgrade` has 32 bytes.
pub perp-Conforms :
    (c : ContractClient) (user : String) (position_id : ℤ) (market_id : ℤ) (size : ℤ)
    (is_long : Bool) (leverage : ℤ) (max_slippage_bps : ℤ) (opts : InvokeOptions)
    (price_payload : Option (List ℕ)) (new_wasm_hash : List ℕ) (clob : String)
    (order_type : OrderTypeVariant) (expiry_ledger_offset : ℤ) (caller : String) (order_id : ℤ)
    (new_anchor : ℤ) (parent_id : ℤ) (take_profit_id : ℤ) (stop_loss_id : ℤ) (survivor_id : ℤ)
    (total_size : ℤ) (slices : ℤ) (interval_ledgers : ℤ) (plan_id : ℤ) (display_size : ℤ)
    (entry_price : ℤ) (filled_amount : ℤ) (slp_vault : String) (is_hash : length new_wasm_hash ≡ 32)
    → Conforms c.xdr abi (get_position c user position_id).call
      × Conforms c.xdr abi (get_unrealized_pnl c position_id).call
      × Conforms c.xdr abi (get_mark_price c market_id).call
      × Conforms c.xdr abi (version c).call
      × Conforms c.xdr abi
          (open_position c user market_id size is_long leverage max_slippage_bps opts price_payload)
      × Conforms c.xdr abi (close_position c user position_id opts price_payload)
      × Conforms c.xdr abi (upgrade c new_wasm_hash opts)
      × Conforms c.xdr abi (get_skew_state c market_id).call
      × Conforms c.xdr abi (set_clob c clob opts)
      × Conforms c.xdr abi (get_clob c).call
      × Conforms c.xdr abi (
          create_order c user market_id size is_long leverage max_slippage_bps order_type
            expiry_ledger_offset opts)
      × Conforms c.xdr abi (execute_order c caller order_id opts price_payload)
      × Conforms c.xdr abi (cancel_pending_order c user order_id opts)
      × Conforms c.xdr abi (get_pending_order c order_id).call
      × Conforms c.xdr abi (update_trailing_anchor c caller order_id new_anchor opts)
      × Conforms c.xdr abi (bracket_link c user parent_id take_profit_id stop_loss_id opts)
      × Conforms c.xdr abi (cancel_bracket_sibling c caller parent_id survivor_id opts)
      × Conforms c.xdr abi (
          create_twap_plan c user market_id total_size is_long leverage max_slippage_bps slices
            interval_ledgers expiry_ledger_offset opts)
      × Conforms c.xdr abi (release_twap_slice c caller plan_id opts)
      × Conforms c.xdr abi (
          create_iceberg_plan c user market_id total_size display_size is_long leverage
            max_slippage_bps entry_price expiry_ledger_offset opts)
      × Conforms c.xdr abi (release_iceberg_slice c caller plan_id filled_amount opts)
      × Conforms c.xdr abi (get_bracket c parent_id).call
      × Conforms c.xdr abi (get_twap_plan c plan_id).call
      × Conforms c.xdr abi (get_iceberg_plan c plan_id).call
      × Conforms c.xdr abi (is_paused c).call
      × Conforms c.xdr abi (pause c opts)
      × Conforms c.xdr abi (unpause c opts)
      × Conforms c.xdr abi (set_slp_vault c slp_vault opts)
      × Conforms c.xdr abi (get_slp_vault c).call
unfolding invoke simulate_return get_position get_unrealized_pnl get_mark_price version
    open_position close_position upgrade get_skew_state set_clob get_clob create_order execute_order
    cancel_pending_order get_pending_order update_trailing_anchor bracket_link
    cancel_bracket_sibling create_twap_plan release_twap_slice create_iceberg_plan
    release_iceberg_slice get_bracket get_twap_plan get_iceberg_plan is_paused pause unpause
    set_slp_vault get_slp_vault
perp-Conforms c user position_id market_id size is_long leverage max_slippage_bps opts price_payload
      new_wasm_hash clob order_type expiry_ledger_offset caller order_id new_anchor parent_id
      take_profit_id stop_loss_id survivor_id total_size slices interval_ledgers plan_id
      display_size entry_price filled_amount slp_vault is_hash =
    (
      (address-Typed c.xdr user, (u64-Typed c.xdr position_id, tt)),
      (u64-Typed c.xdr position_id, tt),
      (u32-Typed c.xdr market_id, tt),
      tt,
      (
        address-Typed c.xdr user,
        (
          u32-Typed c.xdr market_id,
          (
            i128-Typed c.xdr size,
            (
              bool-Typed c.xdr is_long,
              (
                u32-Typed c.xdr leverage,
                (u32-Typed c.xdr max_slippage_bps, (price_bytes-Typed c price_payload, tt)),
              ),
            ),
          ),
        ),
      ),
      (
        address-Typed c.xdr user,
        (u64-Typed c.xdr position_id, (price_bytes-Typed c price_payload, tt)),
      ),
      (bytes_n-Typed c.xdr 32 new_wasm_hash is_hash, tt),
      (u32-Typed c.xdr market_id, tt),
      (address-Typed c.xdr clob, tt),
      tt,
      (
        address-Typed c.xdr user,
        (
          u32-Typed c.xdr market_id,
          (
            i128-Typed c.xdr size,
            (
              bool-Typed c.xdr is_long,
              (
                u32-Typed c.xdr leverage,
                (
                  u32-Typed c.xdr max_slippage_bps,
                  (
                    encode_order_type-Typed c order_type,
                    (u32-Typed c.xdr expiry_ledger_offset, tt),
                  ),
                ),
              ),
            ),
          ),
        ),
      ),
      (
        address-Typed c.xdr caller,
        (u64-Typed c.xdr order_id, (price_bytes-Typed c price_payload, tt)),
      ),
      (address-Typed c.xdr user, (u64-Typed c.xdr order_id, tt)),
      (u64-Typed c.xdr order_id, tt),
      (address-Typed c.xdr caller, (u64-Typed c.xdr order_id, (i128-Typed c.xdr new_anchor, tt))),
      (
        address-Typed c.xdr user,
        (
          u64-Typed c.xdr parent_id,
          (u64-Typed c.xdr take_profit_id, (u64-Typed c.xdr stop_loss_id, tt)),
        ),
      ),
      (address-Typed c.xdr caller, (u64-Typed c.xdr parent_id, (u64-Typed c.xdr survivor_id, tt))),
      (
        address-Typed c.xdr user,
        (
          u32-Typed c.xdr market_id,
          (
            i128-Typed c.xdr total_size,
            (
              bool-Typed c.xdr is_long,
              (
                u32-Typed c.xdr leverage,
                (
                  u32-Typed c.xdr max_slippage_bps,
                  (
                    u32-Typed c.xdr slices,
                    (u32-Typed c.xdr interval_ledgers, (u32-Typed c.xdr expiry_ledger_offset, tt)),
                  ),
                ),
              ),
            ),
          ),
        ),
      ),
      (address-Typed c.xdr caller, (u64-Typed c.xdr plan_id, tt)),
      (
        address-Typed c.xdr user,
        (
          u32-Typed c.xdr market_id,
          (
            i128-Typed c.xdr total_size,
            (
              i128-Typed c.xdr display_size,
              (
                bool-Typed c.xdr is_long,
                (
                  u32-Typed c.xdr leverage,
                  (
                    u32-Typed c.xdr max_slippage_bps,
                    (i128-Typed c.xdr entry_price, (u32-Typed c.xdr expiry_ledger_offset, tt)),
                  ),
                ),
              ),
            ),
          ),
        ),
      ),
      (address-Typed c.xdr caller, (u64-Typed c.xdr plan_id, (i128-Typed c.xdr filled_amount, tt))),
      (u64-Typed c.xdr parent_id, tt),
      (u64-Typed c.xdr plan_id, tt),
      (u64-Typed c.xdr plan_id, tt),
      tt,
      tt,
      tt,
      (address-Typed c.xdr slp_vault, tt),
      tt,
    )
