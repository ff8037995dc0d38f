-- ===== src/Sdk/Perp/Abi.antt =====
-- The functions of the perp engine with the types of their parameters (contracts/stellax-perp-engine/src/lib.rs).
use stellax.Base.{[], ◌∷◌}
use stellax.Sdk.Xdr.{Ty, ty, no_ty}
use stellax.Sdk.Client.Conforms.{Abi}
use stellax.Sdk.Perp.Typed.{order_type}

abbrev pub abi : Abi
abi =
    (
      "__constructor",
      ty Ty.address (
          ty Ty.address
            (ty Ty.address (ty Ty.address (ty Ty.address (ty Ty.address (ty Ty.address no_ty)))))),
    )
    ∷ ("version", no_ty)
    ∷ ("register_market", ty (Ty.udt "Market") (ty Ty.i128 (ty Ty.i128 (ty Ty.u32 no_ty))))
    ∷ ("get_mark_price", ty Ty.u32 no_ty)
    ∷ ("get_skew_state", ty Ty.u32 no_ty)
    ∷ ("get_market", ty Ty.u32 no_ty)
    ∷ (
      "migrate_market_v2_state",
      ty Ty.u32 (ty Ty.i128 (ty Ty.i128 (ty Ty.u32 (ty Ty.i128 (ty Ty.i128 no_ty))))),
    )
    ∷ (
      "open_position",
      ty Ty.address (
          ty Ty.u32
            (ty Ty.i128 (ty Ty.bool (ty Ty.u32 (ty Ty.u32 (ty (Ty.option Ty.bytes) no_ty)))))),
    )
    ∷ ("close_position", ty Ty.address (ty Ty.u64 (ty (Ty.option Ty.bytes) no_ty)))
    ∷ (
      "open_position_with_update",
      ty Ty.address (
          ty Ty.u32 (
            ty Ty.i128 (
              ty Ty.bool (
                ty Ty.u32 (
                  ty Ty.u32
                    (ty (Ty.option Ty.bytes) (ty Ty.bytes (ty (Ty.vec Ty.symbol) no_ty)))))))),
    )
    ∷ (
      "close_position_with_update",
      ty Ty.address
          (ty Ty.u64 (ty (Ty.option Ty.bytes) (ty Ty.bytes (ty (Ty.vec Ty.symbol) no_ty)))),
    )
    ∷ ("modify_position", ty Ty.address (ty Ty.u64 (ty (Ty.udt "ModifyAction") no_ty)))
    ∷ ("get_position", ty Ty.address (ty Ty.u64 no_ty))
    ∷ ("get_position_by_id", ty Ty.u64 no_ty)
    ∷ ("get_unrealized_pnl", ty Ty.u64 no_ty)
    ∷ ("get_positions_by_user", ty Ty.address no_ty)
    ∷ ("get_position_ids_by_market", ty Ty.u32 no_ty)
    ∷ ("risk_close_position", ty Ty.address (ty Ty.u64 (ty Ty.i128 (ty Ty.i128 no_ty))))
    ∷ ("get_market_info", ty Ty.u32 no_ty)
    ∷ ("upgrade", ty (Ty.bytes_n 32) no_ty)
    ∷ (
      "update_dependencies",
      ty Ty.address
          (ty Ty.address (ty Ty.address (ty Ty.address (ty Ty.address (ty Ty.address no_ty))))),
    )
    ∷ ("set_clob", ty Ty.address no_ty)
    ∷ ("get_clob", no_ty)
    ∷ ("set_slp_vault", ty Ty.address no_ty)
    ∷ ("get_slp_vault", no_ty)
    ∷ ("set_market_oi_caps", ty Ty.u32 (ty Ty.i128 (ty Ty.i128 no_ty)))
    ∷ ("set_funding_pool", ty Ty.address no_ty)
    ∷ ("get_funding_pool", no_ty)
    ∷ ("pause", no_ty)
    ∷ ("unpause", no_ty)
    ∷ ("is_paused", no_ty)
    ∷ ("update_position_funding_idx", ty Ty.address (ty Ty.u64 (ty Ty.i128 no_ty)))
    ∷ (
      "execute_clob_fill",
      ty Ty.address (
          ty Ty.address
            (ty Ty.address (ty Ty.u32 (ty Ty.i128 (ty Ty.i128 (ty Ty.u32 (ty Ty.u32 no_ty))))))),
    )
    ∷ (
      "create_order",
      ty Ty.address (
          ty Ty.u32
            (ty Ty.i128 (ty Ty.bool (ty Ty.u32 (ty Ty.u32 (ty order_type (ty Ty.u32 no_ty))))))),
    )
    ∷ ("execute_order", ty Ty.address (ty Ty.u64 (ty (Ty.option Ty.bytes) no_ty)))
    ∷ ("cancel_pending_order", ty Ty.address (ty Ty.u64 no_ty))
    ∷ ("get_pending_order", ty Ty.u64 no_ty)
    ∷ ("update_trailing_anchor", ty Ty.address (ty Ty.u64 (ty Ty.i128 no_ty)))
    ∷ ("bracket_link", ty Ty.address (ty Ty.u64 (ty Ty.u64 (ty Ty.u64 no_ty))))
    ∷ ("cancel_bracket_sibling", ty Ty.address (ty Ty.u64 (ty Ty.u64 no_ty)))
    ∷ (
      "create_twap_plan",
      ty Ty.address (
          ty Ty.u32 (
            ty Ty.i128
              (ty Ty.bool (ty Ty.u32 (ty Ty.u32 (ty Ty.u32 (ty Ty.u32 (ty Ty.u32 no_ty)))))))),
    )
    ∷ ("release_twap_slice", ty Ty.address (ty Ty.u64 no_ty))
    ∷ (
      "create_iceberg_plan",
      ty Ty.address (
          ty Ty.u32 (
            ty Ty.i128
              (ty Ty.i128 (ty Ty.bool (ty Ty.u32 (ty Ty.u32 (ty Ty.i128 (ty Ty.u32 no_ty)))))))),
    )
    ∷ ("release_iceberg_slice", ty Ty.address (ty Ty.u64 (ty Ty.i128 no_ty)))
    ∷ ("get_bracket", ty Ty.u64 no_ty)
    ∷ ("get_twap_plan", ty Ty.u64 no_ty)
    ∷ ("get_iceberg_plan", ty Ty.u64 no_ty)
    ∷ []
