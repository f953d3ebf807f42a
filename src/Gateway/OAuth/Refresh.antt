-- ===== src/Gateway/OAuth/Refresh.antt =====
-- The refresh tokens of src/gateway/oauth-provider.ts: their rotation, what is verified, and what is
-- revoked.
use eto_mcp.Prelude.{ℕ, not, Option, none, some, List, String, if◌then◌else◌}
use eto_mcp.Prelude.Dict.{lookup, insert}
use eto_mcp.Prelude.Result.{Result, ok, err, or_refuse, ◌>>=◌}
use eto_mcp.Prelude.Text.{str_eq}
use eto_mcp.Gateway.Session.{Codec, SessionPayload, or_else, verify_session, revoke_jti}
use eto_mcp.Gateway.OAuth.Store.{
  Writes, Run, after_write, persist_deny_list, RefreshEntry, RetiredEntry, Provider, AuthConfig,
  GrantError, token_reuse, invalid_refresh, invalid_token, persist_refresh_tokens,
  persist_retired_refresh, retire, revoke_family,
}
use eto_mcp.Gateway.OAuth.Codes.{OAuthTokens, Draws, tokens_of}

pub record AuthInfo : Type 0 where
  pub token : String
  pub client_id : String
  pub scopes : List String
  pub expires_at : ℕ

-- The old token is retired, and the new one is of the same family.
abbrev pub rotate : String → Draws → ℕ → RefreshEntry → Writes → Provider → Run (Unit {0})
rotate refresh_token draws now stored writes s =
    let retired = retire refresh_token stored.family_id now s.live in
    after_write
      (persist_refresh_tokens writes (record s {
        live = record retired {
          refresh_tokens = insert draws.refresh_token stored retired.refresh_tokens;
        };
      }))
      (persist_retired_refresh writes)

-- `revokeJti` of a session that verifies.
abbrev pub deny : Option SessionPayload → Writes → Provider → Run (Unit {0})
deny none writes s = (s, ok tt)
deny (some session) writes s = persist_deny_list writes (record s {
  live = record (s.live) { deny_list = revoke_jti session.jti session.exp s.live.deny_list };
})

module _ (codec : Codec SessionPayload) (config : AuthConfig) where
  abbrev pub exchange_stored :
      String → String → Draws → ℕ → Option RefreshEntry → Writes → Provider → Run OAuthTokens
  exchange_stored client_id refresh_token draws now none writes s = (s, err invalid_refresh)
  exchange_stored client_id refresh_token draws now (some stored) writes s =
      if not (str_eq stored.client_id client_id)
      then (s, err invalid_refresh)
      else after_write (rotate refresh_token draws now stored writes s) (λ t. (
        t,
        ok (
            tokens_of codec config stored.address client_id stored.scope draws.jti
              draws.refresh_token now),
      ))

  abbrev pub exchange_retired :
      String → String → Draws → ℕ → Option RetiredEntry → Writes → Provider → Run OAuthTokens
  exchange_retired client_id refresh_token draws now (some retired) writes s =
      after_write (revoke_family retired.family_id now writes s) (λ t. (t, err token_reuse))
  exchange_retired client_id refresh_token draws now none writes s =
      exchange_stored client_id refresh_token draws now (lookup refresh_token s.live.refresh_tokens)
        writes s

  unfoldable pub exchange_refresh_token :
      String → String → Draws → ℕ → Writes → Provider → Run OAuthTokens
  exchange_refresh_token client_id refresh_token draws now writes s =
      exchange_retired client_id refresh_token draws now
        (lookup refresh_token s.live.retired_refresh) writes s

  unfoldable pub verify_access_token : String → ℕ → Provider → Result GrantError AuthInfo
  verify_access_token token now s = do
    session ← or_refuse (verify_session codec s.live.deny_list now token) invalid_token
    ok (record {
      token = token;
      client_id = or_else session.client_id session.sub;
      scopes = session.caps;
      expires_at = session.exp;
    })

  abbrev pub revoke_entry : String → ℕ → Option RefreshEntry → Writes → Provider → Run (Unit {0})
  revoke_entry token now (some entry) writes s =
      after_write
        (persist_refresh_tokens writes
          (record s { live = retire token entry.family_id now s.live }))
        (persist_retired_refresh writes)
  revoke_entry token now none writes s =
      deny (verify_session codec s.live.deny_list now token) writes s

  unfoldable pub revoke_token : String → ℕ → Writes → Provider → Run (Unit {0})
  revoke_token token now writes s =
      revoke_entry token now (lookup token s.live.refresh_tokens) writes s
