-- ===== src/Sdk/Governor/Fits.antt =====
-- The calls of the calls of the governor against the interface of the contract (contracts/stellax-governor/src/lib.rs).
use Prim.Native.String.{String}
use stellax.Base.{subst, some_eq, ℕ, ◌≡◌, Bool, List, [], ◌∷◌, length}
use stellax.Base.Int.{ℤ}
use stellax.Sdk.Xdr.{Ty, ty, no_ty, Variants, variant, no_variant, Variant}
use stellax.Sdk.ScVal.Typed.{
  u32-Typed, u64-Typed, bytes-Typed, bytes_n-Typed, bool-Typed, address-Typed, Arg,
}
use stellax.Sdk.Client.{ContractClient, InvokeOptions, invoke, simulate_return}
use stellax.Sdk.Client.Conforms.{Abi, Conforms}
use stellax.Sdk.Governor.{
  is_paused, get_proposal, get_approval_count, version, propose, approve, execute, emergency_pause,
  upgrade, configure_token_governance, create_proposal, cast_vote, tally_proposal,
  execute_token_proposal, get_token_proposal, has_voted, token_proposal_count, get_staking_contract,
  get_gov_params,
}
use stellax.Sdk.Governor.{encode_action, enc_proposal_id}

-- `GovernanceAction`
abbrev pub action_variants : Variants
action_variants = variant "UpdateMarketParams" no_ty (
    variant "UpdateCollateralConfig" no_ty (
      variant "UpdateOracleConfig" no_ty (
        variant "PauseMarket" no_ty (
          variant "UnpauseMarket" no_ty (
            variant "PauseProtocol" no_ty (
              variant "UnpauseProtocol" no_ty (
                variant "UpgradeContract" no_ty (
                  variant "TransferAdmin" no_ty (
                    variant "RegisterStaking" no_ty
                      (variant "UpdateStaking" no_ty no_variant))))))))))

abbrev pub governance_action : Ty
governance_action = Ty.union action_variants

encode_action-Typed :
    (c : ContractClient) (k : String)
    → Variant k no_ty action_variants
    → Arg c.xdr (encode_action c k) governance_action
unfolding encode_action
encode_action-Typed c k w v e =
    subst (λ u. c.xdr.HasType u governance_action) (some_eq e)
      (c.xdr.union_typed k [] no_ty action_variants w tt)

enc_proposal_id-Typed : (c : ContractClient) (id : ℤ) → Arg c.xdr (enc_proposal_id c id) Ty.u64
unfolding enc_proposal_id
enc_proposal_id-Typed c id = u64-Typed c.xdr id

abbrev pub abi : Abi
abi =
    ("initialize", ty (Ty.vec Ty.address) (ty Ty.u32 (ty Ty.u32 (ty Ty.address no_ty))))
    ∷ ("propose", ty Ty.address (ty governance_action (ty Ty.address (ty Ty.bytes no_ty))))
    ∷ ("approve", ty Ty.address (ty Ty.u64 no_ty))
    ∷ ("execute", ty Ty.u64 no_ty)
    ∷ ("emergency_pause", ty Ty.address no_ty)
    ∷ ("queue_admin_transfer", ty Ty.address (ty (Ty.vec Ty.address) (ty Ty.u32 no_ty)))
    ∷ ("upgrade", ty (Ty.bytes_n 32) no_ty)
    ∷ ("is_paused", no_ty)
    ∷ ("get_proposal", ty Ty.u64 no_ty)
    ∷ ("get_approval_count", ty Ty.u64 no_ty)
    ∷ ("version", no_ty)
    ∷ (
      "configure_token_governance",
      ty Ty.address (ty Ty.address (ty Ty.u32 (ty Ty.u32 (ty Ty.u32 (ty Ty.u32 no_ty))))),
    )
    ∷ ("create_proposal", ty Ty.address (ty governance_action (ty Ty.address (ty Ty.bytes no_ty))))
    ∷ ("cast_vote", ty Ty.address (ty Ty.u64 (ty Ty.bool no_ty)))
    ∷ ("tally_proposal", ty Ty.u64 no_ty)
    ∷ ("execute_token_proposal", ty Ty.u64 no_ty)
    ∷ ("get_token_proposal", ty Ty.u64 no_ty)
    ∷ ("has_voted", ty Ty.u64 (ty Ty.address no_ty))
    ∷ ("get_gov_params", no_ty)
    ∷ ("get_staking_contract", no_ty)
    ∷ ("token_proposal_count", no_ty)
    ∷ []

-- Every call of the client, whatever its arguments, fits the interface of the contract: the method is one of the contract, there are as many arguments as parameters, and each argument that is encoded has the type of its parameter.
-- The hash of `upgrade` has 32 bytes, and the action is one of the contract.
pub governor-Conforms :
    (c : ContractClient) (proposal_id : ℤ) (proposer : String) (action : String)
    (target_contract : String) (calldata : List ℕ) (opts : InvokeOptions) (signer : String)
    (guardian : String) (new_wasm_hash : List ℕ) (caller : String) (staking : String)
    (voting_ledgers : ℤ) (timelock_ledgers : ℤ) (quorum_bps : ℤ) (pass_bps : ℤ) (voter : String)
    (support : Bool) (is_hash : length new_wasm_hash ≡ 32)
    (is_action : Variant action no_ty action_variants)
    → Conforms c.xdr abi (is_paused c).call
      × Conforms c.xdr abi (get_proposal c proposal_id).call
      × Conforms c.xdr abi (get_approval_count c proposal_id).call
      × Conforms c.xdr abi (version c).call
      × Conforms c.xdr abi (propose c proposer action target_contract calldata opts)
      × Conforms c.xdr abi (approve c signer proposal_id opts)
      × Conforms c.xdr abi (execute c proposal_id opts)
      × Conforms c.xdr abi (emergency_pause c guardian opts)
      × Conforms c.xdr abi (upgrade c new_wasm_hash opts)
      × Conforms c.xdr abi (
          configure_token_governance c caller staking voting_ledgers timelock_ledgers quorum_bps
            pass_bps opts)
      × Conforms c.xdr abi (create_proposal c proposer action target_contract calldata opts)
      × Conforms c.xdr abi (cast_vote c voter proposal_id support opts)
      × Conforms c.xdr abi (tally_proposal c proposal_id opts)
      × Conforms c.xdr abi (execute_token_proposal c proposal_id opts)
      × Conforms c.xdr abi (get_token_proposal c proposal_id).call
      × Conforms c.xdr abi (has_voted c proposal_id voter).call
      × Conforms c.xdr abi (token_proposal_count c).call
      × Conforms c.xdr abi (get_staking_contract c).call
      × Conforms c.xdr abi (get_gov_params c).call
unfolding invoke simulate_return is_paused get_proposal get_approval_count version propose approve
    execute emergency_pause upgrade configure_token_governance create_proposal cast_vote
    tally_proposal execute_token_proposal get_token_proposal has_voted token_proposal_count
    get_staking_contract get_gov_params
governor-Conforms c proposal_id proposer action target_contract calldata opts signer guardian
      new_wasm_hash caller staking voting_ledgers timelock_ledgers quorum_bps pass_bps voter support
      is_hash is_action =
    (
      tt,
      (enc_proposal_id-Typed c proposal_id, tt),
      (enc_proposal_id-Typed c proposal_id, tt),
      tt,
      (
        address-Typed c.xdr proposer,
        (
          encode_action-Typed c action is_action,
          (address-Typed c.xdr target_contract, (bytes-Typed c.xdr calldata, tt)),
        ),
      ),
      (address-Typed c.xdr signer, (enc_proposal_id-Typed c proposal_id, tt)),
      (enc_proposal_id-Typed c proposal_id, tt),
      (address-Typed c.xdr guardian, tt),
      (bytes_n-Typed c.xdr 32 new_wasm_hash is_hash, tt),
      (
        address-Typed c.xdr caller,
        (
          address-Typed c.xdr staking,
          (
            u32-Typed c.xdr voting_ledgers,
            (
              u32-Typed c.xdr timelock_ledgers,
              (u32-Typed c.xdr quorum_bps, (u32-Typed c.xdr pass_bps, tt)),
            ),
          ),
        ),
      ),
      (
        address-Typed c.xdr proposer,
        (
          encode_action-Typed c action is_action,
          (address-Typed c.xdr target_contract, (bytes-Typed c.xdr calldata, tt)),
        ),
      ),
      (
        address-Typed c.xdr voter,
        (enc_proposal_id-Typed c proposal_id, (bool-Typed c.xdr support, tt)),
      ),
      (enc_proposal_id-Typed c proposal_id, tt),
      (enc_proposal_id-Typed c proposal_id, tt),
      (enc_proposal_id-Typed c proposal_id, tt),
      (enc_proposal_id-Typed c proposal_id, (address-Typed c.xdr voter, tt)),
      tt,
      tt,
      tt,
    )
