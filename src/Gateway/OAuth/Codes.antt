-- ===== src/Gateway/OAuth/Codes.antt =====
-- The clients and the authorization codes of src/gateway/oauth-provider.ts. The clock in seconds and
-- the random texts are arguments.
use eto_mcp.Prelude.{ℕ, ◌+◌, Bool, false, not, Option, none, some, List, [], ◌∷◌, String, ltb}
use eto_mcp.Prelude.Dict.{lookup, insert, remove}
use eto_mcp.Prelude.Result.{Result, ok, err, or_refuse, refuse_if, ◌>>=◌, ◌>>◌}
use eto_mcp.Prelude.Text.{str_eq}
use eto_mcp.Gateway.Session.{Codec, SessionPayload, siwe, or_else, create_session}
use eto_mcp.Gateway.OAuth.Store.{
  Writes, Run, after_write, Client, PendingCode, Provider, AuthConfig, GrantError, unknown_code,
  expired_code, wrong_client, redirect_mismatch, persist_clients, persist_pending_codes,
  persist_refresh_tokens,
}

pub record OAuthTokens : Type 0 where
  pub access_token : String
  pub expires_in : ℕ
  pub refresh_token : String
  pub scope : String

unfoldable pub register_client : String → String → ℕ → Writes → Provider → Run Client
register_client metadata client_id now writes s =
    let client : Client = record {
      metadata = metadata;
      client_id = client_id;
      client_id_issued_at = now;
    } in
    after_write
      (persist_clients writes
        (record s { live = record (s.live) { clients = insert client_id client s.live.clients } }))
      (λ t. (t, ok client))

pub record CodeParams : Type 0 where
  pub code_challenge : String
  pub client_id : String
  pub redirect_uri : String
  pub scopes : Option (List String)

-- The random code is the argument.
unfoldable pub issue_auth_code : String → CodeParams → String → ℕ → Writes → Provider → Run String
issue_auth_code address params code now writes s =
    let pending : PendingCode = record {
      address = address;
      code_challenge = params.code_challenge;
      client_id = params.client_id;
      redirect_uri = params.redirect_uri;
      scope = or_else params.scopes ("mcp:tools" ∷ []);
      exp = now + 600;
    } in
    after_write
      (persist_pending_codes writes (record s {
        live = record (s.live) { pending_codes = insert code pending s.live.pending_codes };
      }))
      (λ t. (t, ok code))

unfoldable pub challenge_for_authorization_code : String → Provider → Result GrantError String
challenge_for_authorization_code code s = do
  pending ← or_refuse (lookup code s.live.pending_codes) unknown_code
  ok pending.code_challenge

-- `scope.join(" ")`
abbrev pub join_scope : List String → String
join_scope [] = ""
join_scope (s ∷ []) = s
join_scope (s ∷ t ∷ more) =
    Prim.Native.String.◌++◌ s (Prim.Native.String.◌++◌ " " (join_scope (t ∷ more)))

-- The redirect of the request, when there is one, is that of the code.
abbrev pub other_redirect : Option String → PendingCode → Bool
other_redirect none pending = false
other_redirect (some uri) pending = not (str_eq uri pending.redirect_uri)

-- The checks of a code that is known; each of them burns it.
unfoldable pub check_code : String → Option String → ℕ → PendingCode → Result GrantError (Unit {0})
check_code client_id redirect_uri now pending = do
  refuse_if (ltb pending.exp now) expired_code
  refuse_if (not (str_eq pending.client_id client_id)) wrong_client
  refuse_if (other_redirect redirect_uri pending) redirect_mismatch

-- `pendingCodes.delete(code); persistPendingCodes();`
abbrev pub burn_code : String → Writes → Provider → Run (Unit {0})
burn_code code writes s =
    persist_pending_codes writes
      (record s { live = record (s.live) { pending_codes = remove code s.live.pending_codes } })

-- The random texts of one grant.
pub record Draws : Type 0 where
  pub jti : String
  pub refresh_token : String
  pub family_id : String

abbrev pub grant_code : String → PendingCode → Draws → Writes → Provider → Run (Unit {0})
grant_code client_id pending draws writes s = persist_refresh_tokens writes (record s {
  live = record (s.live) {
    refresh_tokens =
        insert draws.refresh_token
          (record {
            address = pending.address;
            client_id = client_id;
            scope = pending.scope;
            family_id = draws.family_id;
          })
          s.live.refresh_tokens;
  };
})

module _ (codec : Codec SessionPayload) (config : AuthConfig) where
  abbrev pub tokens_of : String → String → List String → String → String → ℕ → OAuthTokens
  tokens_of address client_id scope jti refresh_token now = record {
    access_token =
        create_session codec
          (record {
            user_id = address;
            wallet_id = address;
            network = some config.network;
            capabilities = none;
            agent_id = none;
            ttl_seconds = some config.session_ttl_seconds;
            auth_strategy = some siwe;
            client_id = some client_id;
          })
          now jti;
    expires_in = config.session_ttl_seconds;
    refresh_token = refresh_token;
    scope = join_scope scope;
  }

  abbrev pub exchange_pending :
      String
      → String
      → Draws
      → ℕ
      → PendingCode
      → Result GrantError (Unit {0})
      → Writes
      → Provider
      → Run OAuthTokens
  exchange_pending client_id code draws now pending (err e) writes s =
      after_write (burn_code code writes s) (λ t. (t, err e))
  exchange_pending client_id code draws now pending (ok x) writes s =
      after_write (burn_code code writes s) (λ t.
        after_write (grant_code client_id pending draws writes t) (λ u. (
          u,
          ok (tokens_of pending.address client_id pending.scope draws.jti draws.refresh_token now),
        )))

  abbrev pub exchange_code :
      String
      → String
      → Option String
      → Draws
      → ℕ
      → Option PendingCode
      → Writes
      → Provider
      → Run OAuthTokens
  exchange_code client_id code redirect_uri draws now none writes s = (s, err unknown_code)
  exchange_code client_id code redirect_uri draws now (some pending) writes s =
      exchange_pending client_id code draws now pending
        (check_code client_id redirect_uri now pending) writes s

  unfoldable pub exchange_authorization_code :
      String → String → Option String → Draws → ℕ → Writes → Provider → Run OAuthTokens
  exchange_authorization_code client_id code redirect_uri draws now writes s =
      exchange_code client_id code redirect_uri draws now (lookup code s.live.pending_codes) writes
        s
