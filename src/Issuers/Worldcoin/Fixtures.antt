-- ===== src/Issuers/Worldcoin/Fixtures.antt =====
-- Requests and answers for the tests of the Worldcoin issuer.
use eto_mcp.Issuers.Worldcoin.{
  Issuer, Answers, IssueRequest, IssueResponse, Shared, NullifierBinding, VerifiedIdToken, attested,
  orb,
}
use eto_mcp.Prelude.{none, some, List, [], ◌∷◌, String, true, false}
use eto_mcp.Prelude.Number.{nat}

abbrev pub issuer : Issuer
issuer = record {
  cfg = record {
    app_id = "app_eto";
    issuer_url = none;
    issuer_did = "did:eto:worldcoin";
    min_verification_level = some orb;
  };
  sha256 = λ bytes. "hash";
  hash = λ json. "claim";
  to_iso_string = λ ms. "1970-01-01T00:00:01.000Z";
}

abbrev pub request : String → IssueRequest
request card = record {
  id_token = "jwt";
  proof = "proof";
  merkle_root = "0x01";
  nullifier_hash = "0xAB";
  verification_level = orb;
  agent_card_pubkey = card;
  agent_card_signature = "sig";
}

abbrev pub token : VerifiedIdToken
token = record { sub = "user"; aud = "app_eto"; iss = "https://id.worldcoin.org"; exp = nat 2 }

abbrev pub good : Answers
good = record {
  now = 1000;
  id_token = some token;
  signature = some true;
  cloud = attested (record {
    verification_level = orb;
    nullifier_hash = "ab";
    action = "eto.verified-human.v1";
  });
  pin = some "ipfs://cid";
  chain = some (record { credential_pda = "pda"; tx_signature = "tx" });
}

abbrev pub eight : List Answers
eight = good ∷ good ∷ good ∷ good ∷ good ∷ good ∷ good ∷ good ∷ []

abbrev pub empty : Shared
empty = record { store = []; issued = [] }

abbrev pub fresh : IssueResponse
fresh = record {
  credential_pda = "pda";
  tx_signature = "tx";
  claim_uri = "ipfs://cid";
  claim_hash = "claim";
  idempotent = false;
}

abbrev pub bound : NullifierBinding
bound = record {
  nullifier_hash = "ab";
  agent_card_pubkey = "one";
  credential_pda = "pda";
  tx_signature = "tx";
  claim_uri = "ipfs://cid";
  claim_hash = "claim";
  issued_at_ms = 1000;
}
