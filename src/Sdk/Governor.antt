-- ===== src/Sdk/Governor.antt =====
-- The calls of the governor (packages/sdk/src/clients/governor.ts, `GovernorClient`).
pub mod Defaults
pub mod Fits
use Prim.Native.String.{String}
use stellax.Base.{ℕ, Bool, Option, some, List, [], ◌∷◌}
use stellax.Base.Int.{ℤ, pos}
use stellax.Sdk.Native.{
  ◌>>=◌, Native, Number, number, big_int, to_number, to_text, to_bytes, get, or_else, nullable_text,
}
use stellax.Sdk.Xdr.{Xdr}
use stellax.Sdk.ScVal.{
  u32, u64, bool, bytes_val, bytes_n, address, raw, dec_bigint, dec_number, dec_bool,
}
use stellax.Sdk.Client.{ContractClient, InvokeOptions, Call, Read, invoke, simulate_return}

pub record GovernorProposal : Type 0 where
  pub id : ℤ
  pub proposer : String
  pub action : Native
  pub target_contract : String
  pub calldata : List ℕ
  pub approval_count : Number
  pub status : Native
  pub created_at : ℤ

module _ (x : Xdr) where
  open x use {ScVal}

  unfoldable pub decode_proposal : Option ScVal → Option GovernorProposal
  unfolding raw
  decode_proposal v = do
    let o = raw x v
    id ← big_int (get o "id")
    proposer ← to_text (get o "proposer")
    let action = get o "action"
    target_contract ← to_text (get o "target_contract")
    calldata ← to_bytes (get o "calldata")
    approval_count ← to_number (or_else (get o "approval_count") (number (pos 0)))
    let status = get o "status"
    created_at ← big_int (or_else (get o "created_at") (number (pos 0)))
    some (record {
      id = id;
      proposer = proposer;
      action = action;
      target_contract = target_contract;
      calldata = calldata;
      approval_count = approval_count;
      status = status;
      created_at = created_at;
    })

module _ (c : ContractClient) where
  open c use {xdr}

  unfoldable pub encode_action : String → Option xdr.ScVal
  encode_action variant = some (xdr.scv_vec (xdr.scv_symbol variant ∷ []))

  -- `xdr.ScVal.scvU64(xdr.Uint64.fromString(id.toString()))`, which is what `enc.u64` makes
  unfoldable pub enc_proposal_id : ℤ → Option xdr.ScVal
  unfolding u64
  enc_proposal_id id = u64 xdr id

module _ (c : ContractClient) where
  open c use {xdr}

  unfoldable pub is_paused : Read xdr.ScVal Bool
  unfolding simulate_return
  is_paused = simulate_return c "is_paused" ([]) (dec_bool xdr)

  unfoldable pub get_proposal : ℤ → Read xdr.ScVal GovernorProposal
  unfolding simulate_return
  get_proposal proposal_id =
      simulate_return c "get_proposal" (enc_proposal_id c proposal_id ∷ []) (decode_proposal xdr)

  unfoldable pub get_approval_count : ℤ → Read xdr.ScVal Number
  unfolding simulate_return
  get_approval_count proposal_id =
      simulate_return c "get_approval_count" (enc_proposal_id c proposal_id ∷ []) (dec_number xdr)

  unfoldable pub version : Read xdr.ScVal Number
  unfolding simulate_return
  version = simulate_return c "version" ([]) (dec_number xdr)

  unfoldable pub propose : String → String → String → List ℕ → InvokeOptions → Call xdr.ScVal
  unfolding invoke
  propose proposer action target_contract calldata opts =
      invoke c "propose"
        (address xdr proposer
          ∷ encode_action c action
          ∷ address xdr target_contract
          ∷ bytes_val xdr calldata
          ∷ [])
        opts

  unfoldable pub approve : String → ℤ → InvokeOptions → Call xdr.ScVal
  unfolding invoke
  approve signer proposal_id opts =
      invoke c "approve" (address xdr signer ∷ enc_proposal_id c proposal_id ∷ []) opts

  unfoldable pub execute : ℤ → InvokeOptions → Call xdr.ScVal
  unfolding invoke
  execute proposal_id opts = invoke c "execute" (enc_proposal_id c proposal_id ∷ []) opts

  unfoldable pub emergency_pause : String → InvokeOptions → Call xdr.ScVal
  unfolding invoke
  emergency_pause guardian opts = invoke c "emergency_pause" (address xdr guardian ∷ []) opts

  unfoldable pub upgrade : List ℕ → InvokeOptions → Call xdr.ScVal
  unfolding invoke
  upgrade new_wasm_hash opts = invoke c "upgrade" (bytes_n xdr new_wasm_hash ∷ []) opts

  unfoldable pub configure_token_governance :
      String → String → ℤ → ℤ → ℤ → ℤ → InvokeOptions → Call xdr.ScVal
  unfolding invoke
  configure_token_governance caller staking voting_ledgers timelock_ledgers quorum_bps pass_bps
        opts =
      invoke c "configure_token_governance"
        (address xdr caller
          ∷ address xdr staking
          ∷ u32 xdr voting_ledgers
          ∷ u32 xdr timelock_ledgers
          ∷ u32 xdr quorum_bps
          ∷ u32 xdr pass_bps
          ∷ [])
        opts

  unfoldable pub create_proposal :
      String → String → String → List ℕ → InvokeOptions → Call xdr.ScVal
  unfolding invoke
  create_proposal proposer action target_contract calldata opts =
      invoke c "create_proposal"
        (address xdr proposer
          ∷ encode_action c action
          ∷ address xdr target_contract
          ∷ bytes_val xdr calldata
          ∷ [])
        opts

  unfoldable pub cast_vote : String → ℤ → Bool → InvokeOptions → Call xdr.ScVal
  unfolding invoke
  cast_vote voter proposal_id support opts =
      invoke c "cast_vote"
        (address xdr voter ∷ enc_proposal_id c proposal_id ∷ bool xdr support ∷ []) opts

  unfoldable pub tally_proposal : ℤ → InvokeOptions → Call xdr.ScVal
  unfolding invoke
  tally_proposal proposal_id opts =
      invoke c "tally_proposal" (enc_proposal_id c proposal_id ∷ []) opts

  unfoldable pub execute_token_proposal : ℤ → InvokeOptions → Call xdr.ScVal
  unfolding invoke
  execute_token_proposal proposal_id opts =
      invoke c "execute_token_proposal" (enc_proposal_id c proposal_id ∷ []) opts

  unfoldable pub get_token_proposal : ℤ → Read xdr.ScVal Native
  unfolding simulate_return
  get_token_proposal proposal_id =
      simulate_return c "get_token_proposal" (enc_proposal_id c proposal_id ∷ [])
        (λ v. some (raw xdr v))

  unfoldable pub has_voted : ℤ → String → Read xdr.ScVal Bool
  unfolding simulate_return
  has_voted proposal_id voter =
      simulate_return c "has_voted" (enc_proposal_id c proposal_id ∷ address xdr voter ∷ [])
        (dec_bool xdr)

  unfoldable pub token_proposal_count : Read xdr.ScVal ℤ
  unfolding simulate_return
  token_proposal_count = simulate_return c "token_proposal_count" ([]) (dec_bigint xdr)

  unfoldable pub get_staking_contract : Read xdr.ScVal (Option String)
  unfolding simulate_return
  get_staking_contract =
      simulate_return c "get_staking_contract" ([]) (λ v. nullable_text (raw xdr v))

  unfoldable pub get_gov_params : Read xdr.ScVal Native
  unfolding simulate_return
  get_gov_params = simulate_return c "get_gov_params" ([]) (λ v. some (raw xdr v))
