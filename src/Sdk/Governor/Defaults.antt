-- ===== src/Sdk/Governor/Defaults.antt =====
-- What `getProposal` makes of the proposals that the contract returns.
use Prim.Native.String.{String}
use stellax.Base.{ℕ, ◌≡◌, refl, some, List, [], ◌∷◌}
use stellax.Base.Int.{ℤ, pos}
use stellax.Sdk.Native.{Native, int, number, big, text, bytes, struct_of}
use stellax.Sdk.Xdr.{Xdr}
use stellax.Sdk.Governor.{decode_proposal}

-- Of a proposal as the contract returns it the approvals are read as 0 and so is the time of creation,
-- whatever the ledger of its creation: the contract's struct has no such members. The other fields are read.
pub decode_proposal-defaults :
    (x : Xdr) (v : x.ScVal) (id created_ledger : ℤ) (proposer target_contract : String)
    (calldata : List ℕ) (action status : Native)
    → x.sc_val_to_native v
      ≡ struct_of (
          ("action", action)
          ∷ ("calldata", bytes calldata)
          ∷ ("created_ledger", number created_ledger)
          ∷ ("id", big id)
          ∷ ("proposer", text proposer)
          ∷ ("status", status)
          ∷ ("target_contract", text target_contract)
          ∷ [])
    → decode_proposal x (some v)
      ≡ some (record {
        id = id;
        proposer = proposer;
        action = action;
        target_contract = target_contract;
        calldata = calldata;
        approval_count = int (pos 0);
        status = status;
        created_at = pos 0;
      })
unfolding decode_proposal
decode_proposal-defaults x v id created_ledger proposer target_contract calldata action status h =
    rw h refl
