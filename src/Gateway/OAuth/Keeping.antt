-- ===== src/Gateway/OAuth/Keeping.antt =====
-- A property of the tables in memory that every change of a call keeps is kept by any calls, whatever
-- writes fail.
use eto_mcp.Gateway.OAuth.Codes.{
  tokens_of, OAuthTokens, burn_code, grant_code, Draws, check_code, exchange_pending, exchange_code,
  register_client, issue_auth_code, exchange_authorization_code,
}
use eto_mcp.Prelude.{ℕ, ◌≡◌, false, Option, none, some, String, Bool-cases, Option-cases, inl, inr}
use eto_mcp.Prelude.Dict.{lookup, insert, remove}
use eto_mcp.Prelude.Result.{Result, ok, err}
use eto_mcp.Prelude.Text.{str_eq}
use eto_mcp.Gateway.Session.{Codec, SessionPayload, verify_session, revoke_jti}
use eto_mcp.Gateway.OAuth.Store.{
  RetiredEntry, token_reuse, Client, Provider, Tables, Client, PendingCode, RefreshEntry,
  AuthConfig, Writes, after_write, GrantError, revoke_family,
}
use eto_mcp.Gateway.OAuth.Refresh.{
  rotate, exchange_stored, exchange_retired, exchange_refresh_token, deny, revoke_entry,
  revoke_token,
}
use eto_mcp.Gateway.OAuth.Steps.{
  Transition, registered, issued, exchanged, refreshed, revoked, Transitions, done, and_then,
  IsDrawn, AllDrawn,
}
use eto_mcp.Gateway.OAuth.Changes.{
  IsKept, atomic_write-keeps, after_write-keeps, after_write-leads, refresh_files-keep,
  revoke_family-keeps,
}

module _ (codec : Codec SessionPayload) (config : AuthConfig) (F : String → Tables → Type 0)
    (P : Tables → Type 0) (kept : IsKept F P) where
  granted-keeps :
      (client_id : String) (draws : Draws) (pending : PendingCode) (writes : Writes) (t : Provider)
      → F draws.refresh_token t.live
      → P t.live
      → P (grant_code client_id pending draws writes t).0.live
  granted-keeps client_id draws pending writes t f h =
      let entry : RefreshEntry = record {
        address = pending.address;
        client_id = client_id;
        scope = pending.scope;
        family_id = draws.family_id;
      } in
      let live : Tables = record (t.live) {
        refresh_tokens = insert draws.refresh_token entry t.live.refresh_tokens;
      } in
      atomic_write-keeps P writes.refresh_tokens_written (record t { live = live })
        (record (t.saved) { refresh_tokens = live.refresh_tokens })
        (kept.grants draws.refresh_token entry t.live f h)

  pending-keeps :
      (client_id code : String) (draws : Draws) (now : ℕ) (pending : PendingCode)
      (checked : Result GrantError (Unit {0})) (writes : Writes) (s : Provider)
      → F draws.refresh_token s.live
      → P s.live
      → P (exchange_pending codec config client_id code draws now pending checked writes s).0.live
  pending-keeps client_id code draws now pending checked writes s f h =
      let Q : Tables → Type 0 = λ tables. F draws.refresh_token tables × P tables in
      let codes = remove code s.live.pending_codes in
      let burned : Q (burn_code code writes s).0.live =
        atomic_write-keeps Q writes.pending_codes_written
          (record s { live = record (s.live) { pending_codes = codes } })
          (record (s.saved) { pending_codes = codes })
          (
            kept.drawn draws.refresh_token s.live codes f,
            kept.others s.live s.live.clients codes s.live.deny_list h,
          ) in
      elim checked
        as (λ c.
          P (exchange_pending codec config client_id code draws now pending c writes s).0.live) [
            | err e ↦
                after_write-leads {A = OAuthTokens} Q P (burn_code code writes s) (λ t. (t, err e))
                  burned (λ t k. k.1) (λ t k. k.1)
            | ok u ↦
                let tokens =
                  tokens_of codec config pending.address client_id pending.scope draws.jti
                    draws.refresh_token now in
                after_write-leads {A = OAuthTokens} Q P (burn_code code writes s)
                  (λ t.
                    after_write (grant_code client_id pending draws writes t) (λ v. (v, ok tokens)))
                  burned (λ t k. k.1)
                  (λ t k.
                    after_write-keeps {A = OAuthTokens} P
                      (grant_code client_id pending draws writes t) (λ v. (v, ok tokens))
                      (granted-keeps client_id draws pending writes t (k.0) (k.1)) (λ v l. l))
          ]

  code-keeps :
      (client_id code : String) (redirect_uri : Option String) (draws : Draws) (now : ℕ)
      (found : Option PendingCode) (writes : Writes) (s : Provider)
      → F draws.refresh_token s.live
      → P s.live
      → P (exchange_code codec config client_id code redirect_uri draws now found writes s).0.live
  code-keeps client_id code redirect_uri draws now none writes s f h = h
  code-keeps client_id code redirect_uri draws now (some pending) writes s f h =
      pending-keeps client_id code draws now pending (check_code client_id redirect_uri now pending)
        writes s f h

  stored-keeps :
      (client_id token : String) (draws : Draws) (now : ℕ) (writes : Writes) (s : Provider)
      → F draws.refresh_token s.live × (str_eq token draws.refresh_token ≡ false)
      → P s.live
      → P
          (exchange_stored codec config client_id token draws now
            (lookup token s.live.refresh_tokens)
            writes
            s).0.live
  stored-keeps client_id token draws now writes s f h =
      elim (Option-cases (lookup token s.live.refresh_tokens)) [
        | inl unknown ↦ rw unknown h
        | inr (stored, known) ↦ elim (Bool-cases (str_eq stored.client_id client_id)) [
          | inl same ↦
              let tokens =
                tokens_of codec config stored.address client_id stored.scope draws.jti
                  draws.refresh_token now in
              rw (known, same)
                (after_write-keeps {A = OAuthTokens} P (rotate token draws now stored writes s)
                  (λ t. (t, ok tokens))
                  (refresh_files-keep P writes _
                    (kept.rotates token draws.refresh_token stored now s.live known (f.0) (f.1) h))
                  (λ t k. k))
          | inr other ↦ rw (known, other) h
        ]
      ]

  retired-keeps :
      (client_id token : String) (draws : Draws) (now : ℕ) (found : Option RetiredEntry)
      (writes : Writes) (s : Provider)
      → F draws.refresh_token s.live × (str_eq token draws.refresh_token ≡ false)
      → P s.live
      → P (exchange_retired codec config client_id token draws now found writes s).0.live
  retired-keeps client_id token draws now none writes s f h =
      stored-keeps client_id token draws now writes s f h
  retired-keeps client_id token draws now (some retired) writes s f h =
      after_write-keeps {A = OAuthTokens} P (revoke_family retired.family_id now writes s)
        (λ t. (t, err token_reuse))
        (revoke_family-keeps P retired.family_id now writes s
          (kept.families retired.family_id now s.live h))
        (λ t k. k)

  denied-keeps :
      (session : Option SessionPayload) (writes : Writes) (s : Provider)
      → P s.live
      → P (deny session writes s).0.live
  denied-keeps none writes s h = h
  denied-keeps (some session) writes s h =
      let list = revoke_jti session.jti session.exp s.live.deny_list in
      atomic_write-keeps P writes.deny_list_written
        (record s { live = record (s.live) { deny_list = list } })
        (record (s.saved) { deny_list = list })
        (kept.others s.live s.live.clients s.live.pending_codes list h)

  revoked-keeps :
      (token : String) (now : ℕ) (writes : Writes) (s : Provider)
      → P s.live
      → P (revoke_entry codec config token now (lookup token s.live.refresh_tokens) writes s).0.live
  revoked-keeps token now writes s h = elim (Option-cases (lookup token s.live.refresh_tokens)) [
    | inl unknown ↦
        rw unknown (denied-keeps (verify_session codec s.live.deny_list now token) writes s h)
    | inr (entry, known) ↦
        rw known (refresh_files-keep P writes _ (kept.retires token entry now s.live known h))
  ]

  step-keeps :
      (s t : Provider) (step : Transition codec config s t) → IsDrawn F step → P s.live → P t.live
  unfolding register_client issue_auth_code exchange_authorization_code exchange_refresh_token
      revoke_token
  step-keeps _ _ (registered metadata client_id now writes s) f h =
      after_write-keeps {A = Client} P _ _
        (atomic_write-keeps P writes.clients_written _ _
          (kept.others s.live _ s.live.pending_codes s.live.deny_list h))
        (λ t k. k)
  step-keeps _ _ (issued address params code now writes s) f h =
      after_write-keeps {A = String} P _ _
        (atomic_write-keeps P writes.pending_codes_written _ _
          (kept.others s.live s.live.clients _ s.live.deny_list h))
        (λ t k. k)
  step-keeps _ _ (exchanged client_id code redirect_uri draws now writes s) f h =
      code-keeps client_id code redirect_uri draws now (lookup code s.live.pending_codes) writes s f
        h
  step-keeps _ _ (refreshed client_id token draws now writes s) f h =
      retired-keeps client_id token draws now (lookup token s.live.retired_refresh) writes s f h
  step-keeps _ _ (revoked token now writes s) f h = revoked-keeps token now writes s h

  pub steps-keep :
      (s t : Provider) (steps : Transitions codec config s t)
      → AllDrawn F steps
      → P s.live
      → P t.live
  steps-keep _ _ (done s) f h = h
  steps-keep _ _ (and_then s t u steps step) f h =
      step-keeps t u step f.1 (steps-keep s t steps f.0 h)
