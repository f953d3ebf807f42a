-- ===== src/Gateway/OAuth/Saved.antt =====
-- The files of the tables, as long as the calls do not end with a write that failed.
use eto_mcp.Gateway.OAuth.Families.{retire_family-rest, retire_family-none}
use eto_mcp.Prelude.{
  ℕ, ◌≡◌, ◌≢◌, refl, sym, ◌∙◌, Bool, true, false, Option, none, some, String, Bool-cases, inl, inr,
  arith, ltb,
}
use eto_mcp.Prelude.Dict.{lookup}
use eto_mcp.Prelude.Result.{Result, ok, err, ok_ne_err}
use eto_mcp.Prelude.Text.{str_eq}
use eto_mcp.Gateway.Session.{Codec, SessionPayload, verify_session}
use eto_mcp.Gateway.OAuth.Store.{
  Client, Provider, Tables, PendingCode, RefreshEntry, RetiredEntry, AuthConfig, GrantError, Writes,
  Run, after_write, atomic_write, write_failed, token_reuse, retire_family, revoke_family,
  persist_refresh_tokens, persist_retired_refresh,
}
use eto_mcp.Gateway.OAuth.Codes.{
  Draws, OAuthTokens, tokens_of, burn_code, grant_code, check_code, exchange_pending, exchange_code,
  register_client, issue_auth_code, exchange_authorization_code,
}
use eto_mcp.Gateway.OAuth.Refresh.{
  rotate, exchange_stored, exchange_retired, exchange_refresh_token, deny, revoke_entry,
  revoke_token,
}
use eto_mcp.Gateway.OAuth.Steps.{
  Transition, registered, issued, exchanged, refreshed, revoked, Transitions, done, and_then,
  IsWritten, AllWritten,
}

-- The files have what the memory has.
abbrev pub IsSaved : Provider → Type 0
IsSaved s = s.saved ≡ s.live

-- They have it after a call that does not end with a write that failed.
abbrev IsSavedBy : {A : Type 0} → Run A → Type 0
IsSavedBy run = run.1 ≢ err write_failed → IsSaved run.0

-- The two files of refresh tokens, when the other tables are those of the files.
refresh_files-IsSavedBy :
    (writes : Writes) (s : Provider)
    → record (s.saved) {
      refresh_tokens = s.live.refresh_tokens;
      retired_refresh = s.live.retired_refresh;
    }
      ≡ s.live
    → IsSavedBy (after_write (persist_refresh_tokens writes s) (persist_retired_refresh writes))
refresh_files-IsSavedBy writes s same ne = elim (Bool-cases writes.refresh_tokens_written) [
  | inl w ↦ elim (Bool-cases writes.retired_refresh_written) [
    | inl v ↦ rw (w, v) same
    | inr f ↦ absurd (ne (rw (w, f)))
  ]
  | inr f ↦ absurd (ne (rw f))
]

one_write-IsSavedBy :
    (written : Bool) (s : Provider) (saved : Tables)
    → saved ≡ s.live
    → IsSavedBy (atomic_write written s saved)
one_write-IsSavedBy true s saved same ne = same
one_write-IsSavedBy false s saved same ne = absurd (ne refl)

then-IsSavedBy :
    {A : Type 0} (m : Run (Unit {0})) (rest : Provider → Run A)
    → IsSavedBy m
    → ((t : Provider) → IsSaved t → IsSavedBy (rest t))
    → IsSavedBy (after_write m rest)
then-IsSavedBy (s, ok u) rest h k ne = k s (h (λ same. ok_ne_err (sym same))) ne
then-IsSavedBy (s, err e) rest h k ne = h (λ same. ne (let it = same in cc))

revoke_family-IsSavedBy :
    (family_id : String) (now : ℕ) (writes : Writes) (s : Provider)
    → IsSaved s
    → IsSavedBy (revoke_family family_id now writes s)
unfolding revoke_family
revoke_family-IsSavedBy family_id now writes s h =
    let looped = retire_family family_id now s.live.refresh_tokens 0 s.live in
    elim (Bool-cases (ltb 0 looped.0)) [
      | inl found ↦ rw found (
          refresh_files-IsSavedBy writes (record s { live = looped.1 })
            (rw h (retire_family-rest family_id now s.live.refresh_tokens 0 s.live)))
      | inr nothing ↦ rw nothing (λ ne.
          h
          ∙ sym (
              retire_family-none family_id now s.live.refresh_tokens 0 s.live
                (ground (arith, nothing))))
    ]

module _ (codec : Codec SessionPayload) (config : AuthConfig) where
  burned-IsSavedBy :
      (code : String) (writes : Writes) (s : Provider)
      → IsSaved s
      → IsSavedBy (burn_code code writes s)
  burned-IsSavedBy code writes s h = one_write-IsSavedBy writes.pending_codes_written _ _ (rw h)

  pending-IsSavedBy :
      (client_id code : String) (draws : Draws) (now : ℕ) (pending : PendingCode)
      (checked : Result GrantError (Unit {0})) (writes : Writes) (s : Provider)
      → IsSaved s
      → IsSavedBy (exchange_pending codec config client_id code draws now pending checked writes s)
  pending-IsSavedBy client_id code draws now pending (err e) writes s h =
      then-IsSavedBy {A = OAuthTokens} (burn_code code writes s) (λ t. (t, err e))
        (burned-IsSavedBy code writes s h) (λ t k ne. k)
  pending-IsSavedBy client_id code draws now pending (ok u) writes s h =
      let tokens =
        tokens_of codec config pending.address client_id pending.scope draws.jti draws.refresh_token
          now in
      then-IsSavedBy {A = OAuthTokens} (burn_code code writes s)
        (λ t. after_write (grant_code client_id pending draws writes t) (λ v. (v, ok tokens)))
        (burned-IsSavedBy code writes s h)
        (λ t k.
          then-IsSavedBy {A = OAuthTokens} (grant_code client_id pending draws writes t)
            (λ v. (v, ok tokens)) (one_write-IsSavedBy writes.refresh_tokens_written _ _ (rw k))
            (λ v l ne. l))

  code-IsSavedBy :
      (client_id code : String) (redirect_uri : Option String) (draws : Draws) (now : ℕ)
      (found : Option PendingCode) (writes : Writes) (s : Provider)
      → IsSaved s
      → IsSavedBy (exchange_code codec config client_id code redirect_uri draws now found writes s)
  code-IsSavedBy client_id code redirect_uri draws now none writes s h = λ ne. h
  code-IsSavedBy client_id code redirect_uri draws now (some pending) writes s h =
      pending-IsSavedBy client_id code draws now pending
        (check_code client_id redirect_uri now pending) writes s h

  stored-IsSavedBy :
      (client_id token : String) (draws : Draws) (now : ℕ) (found : Option RefreshEntry)
      (writes : Writes) (s : Provider)
      → IsSaved s
      → IsSavedBy (exchange_stored codec config client_id token draws now found writes s)
  stored-IsSavedBy client_id token draws now none writes s h = λ ne. h
  stored-IsSavedBy client_id token draws now (some stored) writes s h =
      elim (Bool-cases (str_eq stored.client_id client_id)) [
        | inl same ↦
            let tokens =
              tokens_of codec config stored.address client_id stored.scope draws.jti
                draws.refresh_token now in
            rw same (
              then-IsSavedBy {A = OAuthTokens} (rotate token draws now stored writes s)
                (λ t. (t, ok tokens)) (refresh_files-IsSavedBy writes _ (rw h)) (λ t k ne. k))
        | inr other ↦ rw other (λ ne. h)
      ]

  retired-IsSavedBy :
      (client_id token : String) (draws : Draws) (now : ℕ) (found : Option RetiredEntry)
      (writes : Writes) (s : Provider)
      → IsSaved s
      → IsSavedBy (exchange_retired codec config client_id token draws now found writes s)
  retired-IsSavedBy client_id token draws now none writes s h =
      stored-IsSavedBy client_id token draws now (lookup token s.live.refresh_tokens) writes s h
  retired-IsSavedBy client_id token draws now (some retired) writes s h =
      then-IsSavedBy {A = OAuthTokens} (revoke_family retired.family_id now writes s)
        (λ t. (t, err token_reuse)) (revoke_family-IsSavedBy retired.family_id now writes s h)
        (λ t k ne. k)

  denied-IsSavedBy :
      (session : Option SessionPayload) (writes : Writes) (s : Provider)
      → IsSaved s
      → IsSavedBy (deny session writes s)
  denied-IsSavedBy none writes s h = λ ne. h
  denied-IsSavedBy (some session) writes s h =
      one_write-IsSavedBy writes.deny_list_written _ _ (rw h)

  revoked-IsSavedBy :
      (token : String) (now : ℕ) (found : Option RefreshEntry) (writes : Writes) (s : Provider)
      → IsSaved s
      → IsSavedBy (revoke_entry codec config token now found writes s)
  revoked-IsSavedBy token now none writes s h =
      denied-IsSavedBy (verify_session codec s.live.deny_list now token) writes s h
  revoked-IsSavedBy token now (some entry) writes s h = refresh_files-IsSavedBy writes _ (rw h)

  step-IsSaved :
      (s t : Provider) (step : Transition codec config s t) → IsWritten step → IsSaved s → IsSaved t
  unfolding register_client issue_auth_code exchange_authorization_code exchange_refresh_token
      revoke_token
  step-IsSaved _ _ (registered metadata client_id now writes s) ne h =
      then-IsSavedBy {A = Client} _ _ (one_write-IsSavedBy writes.clients_written _ _ (rw h))
        (λ t k ne'. k) ne
  step-IsSaved _ _ (issued address params code now writes s) ne h =
      then-IsSavedBy {A = String} _ _ (one_write-IsSavedBy writes.pending_codes_written _ _ (rw h))
        (λ t k ne'. k) ne
  step-IsSaved _ _ (exchanged client_id code redirect_uri draws now writes s) ne h =
      code-IsSavedBy client_id code redirect_uri draws now (lookup code s.live.pending_codes) writes
        s h ne
  step-IsSaved _ _ (refreshed client_id token draws now writes s) ne h =
      retired-IsSavedBy client_id token draws now (lookup token s.live.retired_refresh) writes s h
        ne
  step-IsSaved _ _ (revoked token now writes s) ne h =
      revoked-IsSavedBy token now (lookup token s.live.refresh_tokens) writes s h ne

-- When the files have what the memory has, they have it after any number of calls of which none ends
-- with a write that failed.
pub Transitions-IsSaved :
    (codec : Codec SessionPayload) (config : AuthConfig) (s t : Provider)
    (steps : Transitions codec config s t)
    → AllWritten steps
    → IsSaved s
    → IsSaved t
Transitions-IsSaved codec config _ _ (done s) ne h = h
Transitions-IsSaved codec config _ _ (and_then s t u steps step) ne h =
    step-IsSaved codec config t u step ne.1 (Transitions-IsSaved codec config s t steps ne.0 h)
