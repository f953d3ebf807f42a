-- ===== src/Issuers/Worldcoin/Types.antt =====
-- The requests, answers and records of src/issuers/worldcoin.types.ts, and the hexadecimal keys.
use eto_mcp.Prelude.{Bool, String, ℕ, if◌then◌else◌, ◌&&◌, ◌||◌, ◌==◌}
use Prim.Native.Char.{code}
use eto_mcp.Prelude.Number.{Number}
use eto_mcp.Prelude.Text.{to_lower_case}

pub data VerificationLevel : Type 0 where
  orb device : VerificationLevel

pub record IssueRequest : Type 0 where
  pub id_token : String
  pub proof : String
  pub merkle_root : String
  pub nullifier_hash : String
  pub verification_level : VerificationLevel
  pub agent_card_pubkey : String
  pub agent_card_signature : String

pub record IssueResponse : Type 0 where
  pub credential_pda : String
  pub tx_signature : String
  pub claim_uri : String
  pub claim_hash : String
  pub idempotent : Bool

pub record VerifiedIdToken : Type 0 where
  pub sub : String
  pub aud : String
  pub iss : String
  pub exp : Number

pub record CloudVerifyResult : Type 0 where
  pub verification_level : VerificationLevel
  pub nullifier_hash : String
  pub action : String

pub record NullifierBinding : Type 0 where
  pub nullifier_hash : String
  pub agent_card_pubkey : String
  pub credential_pda : String
  pub tx_signature : String
  pub claim_uri : String
  pub claim_hash : String
  pub issued_at_ms : ℕ

pub record IssueCredentialArgs : Type 0 where
  pub schema : String
  pub subject_agent_card : String
  pub claim_hash : String
  pub claim_uri : String
  pub valid_until_slot : ℕ

pub record IssueCredentialResult : Type 0 where
  pub credential_pda : String
  pub tx_signature : String

pub data IssuerErrorCode : Type 0 where
  invalid_id_token invalid_agent_card_signature proof_rejected verification_level_mismatch :
      IssuerErrorCode
  action_mismatch nullifier_bound_to_other_card chain_tx_failed upstream_outage : IssuerErrorCode

pub record IssuerError : Type 0 where
  pub code : IssuerErrorCode
  pub status : ℕ

-- One `0x` or `0X` in front is dropped.
abbrev pub strip_0x : String → String
strip_0x (String.◌∷◌ a (String.◌∷◌ b s)) =
    if (code a == b'0') && ((code b == b'x') || (code b == b'X'))
    then s
    else String.◌∷◌ a (String.◌∷◌ b s)
strip_0x s = s

unfoldable pub normalize_hex : String → String
normalize_hex input = to_lower_case (strip_0x input)
