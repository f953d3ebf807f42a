-- ===== src/Gateway/Fixtures.antt =====
-- A session and a codec for the tests of src/gateway.
use eto_mcp.Prelude.{none, some, [], ◌∷◌}
use eto_mcp.Gateway.Session.{Codec, SessionPayload, SessionOptions, session_of, siwe}

abbrev pub options : SessionOptions
options = record {
  user_id = "alice";
  wallet_id = "alice";
  network = none;
  capabilities = some ("wallet:read" ∷ []);
  agent_id = none;
  ttl_seconds = some 60;
  auth_strategy = some siwe;
  client_id = some "cursor";
}

abbrev pub session : SessionPayload
session = session_of options 1000 "j1"

abbrev pub plain_codec : Codec SessionPayload
plain_codec = record {
  encode64 = λ s. s;
  decode64 = λ s. s;
  hmac_sign = λ s. "a1b2";
  stringify = λ p. "payload";
  parse = λ s. some session;
}
