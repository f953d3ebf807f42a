-- ===== src/Gateway/Session.antt =====
-- src/gateway/session.ts: session tokens `base64url(json).hex(hmac(json))`. The base 64 coder, the
-- HMAC under the signing key and the JSON of a payload are a Codec. A JSON text that does not parse
-- throws, and the `catch` answers null. A codec parses the payloads of one kind: a signed
-- oauth_state, which the source would read as a session with no exp and no jti, is outside of it.
pub mod Tokens
use eto_mcp.Prelude.{
  ℕ, ◌+◌, Bool, true, false, not, ◌||◌, Option, none, some, List, [], ◌∷◌, String, ltb, ◌==◌,
  is_some, if◌then◌else◌,
}
use eto_mcp.Prelude.Optional.{◌>>=◌}
use eto_mcp.Prelude.Dict.{Dict, lookup, insert}
use eto_mcp.Prelude.Text.{codes, hex_bytes, is_empty, str_eq}
use Prim.Native.Char.{code}

pub data AuthStrategy : Type 0 where
  siwe : AuthStrategy
  inapp_email : AuthStrategy
  inapp_oauth : AuthStrategy
  dev : AuthStrategy

pub data Network : Type 0 where
  mainnet : Network
  testnet : Network
  devnet : Network

-- The issuer and the audience are constants.
pub record SessionPayload : Type 0 where
  pub sub : String
  pub exp : ℕ
  pub iat : ℕ
  pub jti : String
  pub caps : List String
  pub wallet_id : String
  pub network : Network
  pub agent_id : Option String
  pub auth_strategy : Option AuthStrategy
  pub client_id : Option String

abbrev pub all_caps : List String
all_caps =
    "wallet:read" ∷ "wallet:create" ∷ "account:read" ∷ "token:read" ∷ "token:write" ∷ "block:read"
    ∷ "chain:read" ∷ "validator:read" ∷ "contract:read" ∷ "transfer:write" ∷ "deploy:write"
    ∷ "contract:write" ∷ "stake:write" ∷ "vote:write" ∷ "agent:write" ∷ "agent:read"
    ∷ "crossvm:write" ∷ "batch:write" ∷ "zk:write" ∷ "a2a:read" ∷ "a2a:write" ∷ "mcp_program:read"
    ∷ "mcp_program:write" ∷ "swarm:read" ∷ "swarm:write" ∷ "subscription:write" ∷ "security:admin"
    ∷ "session:admin" ∷ "policy:admin" ∷ "webhook:admin" ∷ []

pub record Codec (A : Type 0) : Type 0 where
  pub encode64 : String → String
  pub decode64 : String → String
  pub hmac_sign : String → String
  pub stringify : A → String
  pub parse : String → Option A

-- `token.split(".")`: the text up to the first dot, and what is after it.
unfoldable pub before_dot : String → String
before_dot String.[] = ""
before_dot (String.◌∷◌ c s) =
    let rest = before_dot s in if code c == b'.' then "" else String.◌∷◌ c rest

unfoldable pub after_dot : String → String
after_dot String.[] = ""
after_dot (String.◌∷◌ c s) = let rest = after_dot s in if code c == b'.' then s else rest

-- Two buffers of the same length with the same bytes.
unfoldable pub timing_safe_equal : List ℕ → List ℕ → Bool
timing_safe_equal [] [] = true
timing_safe_equal [] (y ∷ ys) = false
timing_safe_equal (x ∷ xs) [] = false
timing_safe_equal (x ∷ xs) (y ∷ ys) =
    let rest = timing_safe_equal xs ys in if x == y then rest else false

module _ {A : Type 0} (codec : Codec A) where
  -- The token of a payload; `signOauthState` is this.
  unfoldable pub sign_token : A → String
  sign_token payload =
      let json = codec.stringify payload in
      Prim.Native.String.◌++◌ (codec.encode64 json)
        (Prim.Native.String.◌++◌ "." (codec.hmac_sign json))

  -- The payload of a token that is signed; `verifyOauthState` is this.
  unfoldable pub verify_token : String → Option A
  verify_token token =
      let payload_b64 = before_dot token in
      let sig = before_dot (after_dot token) in
      let json = codec.decode64 payload_b64 in
      let expected = hex_bytes (codes (codec.hmac_sign json)) in
      let actual = hex_bytes (codes sig) in
      if is_empty payload_b64 || is_empty sig
      then none
      else if not (timing_safe_equal expected actual)
      then none
      else codec.parse json

pub record SessionOptions : Type 0 where
  pub user_id : String
  pub wallet_id : String
  pub network : Option Network
  pub capabilities : Option (List String)
  pub agent_id : Option String
  pub ttl_seconds : Option ℕ
  pub auth_strategy : Option AuthStrategy
  pub client_id : Option String

-- `a ?? b`
abbrev pub or_else : {A : Type 0} → Option A → A → A
or_else none a = a
or_else (some b) a = b

abbrev pub session_of : SessionOptions → ℕ → String → SessionPayload
session_of opts now jti = record {
  sub = opts.user_id;
  exp = now + or_else opts.ttl_seconds 300;
  iat = now;
  jti = jti;
  caps = or_else opts.capabilities all_caps;
  wallet_id = opts.wallet_id;
  network = or_else opts.network testnet;
  agent_id = opts.agent_id;
  auth_strategy = opts.auth_strategy;
  client_id = opts.client_id;
}

abbrev pub DenyList : Type 0
DenyList = Dict ℕ

module _ (codec : Codec SessionPayload) where
  -- The clock in seconds and the random id are arguments.
  unfoldable pub create_session : SessionOptions → ℕ → String → String
  create_session opts now jti = sign_token codec (session_of opts now jti)

  unfoldable pub verify_session : DenyList → ℕ → String → Option SessionPayload
  verify_session deny_list now token = do
    payload ← verify_token codec token
    if ltb payload.exp now
        then none
        else if is_some (lookup payload.jti deny_list)
        then none
        else some payload

-- In memory, and in the file with the same entries.
unfoldable pub revoke_jti : String → ℕ → DenyList → DenyList
revoke_jti jti exp deny_list = insert jti exp deny_list

-- What a start reads back from the file.
unfoldable pub load_deny_list : ℕ → DenyList → DenyList → DenyList
load_deny_list now [] deny_list = deny_list
load_deny_list now ((jti, exp) ∷ saved) deny_list =
    load_deny_list now saved (if ltb now exp then insert jti exp deny_list else deny_list)

-- `caps.includes(cap)`
unfoldable pub includes : String → List String → Bool
includes cap [] = false
includes cap (c ∷ caps) = str_eq c cap || includes cap caps

unfoldable pub has_capability : SessionPayload → String → Bool
has_capability session cap = includes cap session.caps
