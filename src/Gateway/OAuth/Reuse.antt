-- ===== src/Gateway/OAuth/Reuse.antt =====
-- A refresh token that is used again: how it is answered, and what is left alive.
use eto_mcp.Prelude.{
  ℕ, ◌≡◌, ◌⊎◌, refl, Bool, true, false, Option, none, some, String, is_some, Bool-cases,
  Option-cases, inl, inr, arith, ltb,
}
use eto_mcp.Prelude.Dict.{lookup, insert}
use eto_mcp.Prelude.Result.{Result, ok, err, ok_ne_err}
use eto_mcp.Prelude.Text.{str_eq}
use eto_mcp.Gateway.Session.{Codec, SessionPayload}
use eto_mcp.Gateway.OAuth.Store.{
  Provider, Tables, RefreshEntry, RetiredEntry, AuthConfig, GrantError, Writes, Run, after_write,
  atomic_write, token_reuse, write_failed, retire, retire_family, revoke_family,
  persist_refresh_tokens, persist_retired_refresh,
}
use eto_mcp.Gateway.OAuth.Codes.{OAuthTokens, Draws}
use eto_mcp.Gateway.OAuth.Refresh.{rotate, exchange_stored, exchange_refresh_token}
use eto_mcp.Gateway.OAuth.Changes.{refresh_files-keep, after_write-keeps, revoke_family-keeps}

-- A reuse, or a write of the tables that failed after they were changed.
abbrev pub IsRefused : Result GrantError OAuthTokens → Type 0
IsRefused r = (r ≡ err token_reuse) ⊎ (r ≡ err write_failed)

abbrev IsWriteOnly : Run (Unit {0}) → Type 0
IsWriteOnly m = (m.1 ≡ ok tt) ⊎ (m.1 ≡ err write_failed)

atomic_write-IsWriteOnly :
    (written : Bool) (s : Provider) (saved : Tables) → IsWriteOnly (atomic_write written s saved)
atomic_write-IsWriteOnly true s saved = inl refl
atomic_write-IsWriteOnly false s saved = inr refl

after_write-IsWriteOnly :
    (m : Run (Unit {0})) (rest : Provider → Run (Unit {0}))
    → IsWriteOnly m
    → ((t : Provider) → IsWriteOnly (rest t))
    → IsWriteOnly (after_write m rest)
after_write-IsWriteOnly (s, ok u) rest h k = k s
after_write-IsWriteOnly (s, err e) rest (inl h) k = absurd (ok_ne_err h)
after_write-IsWriteOnly (s, err e) rest (inr h) k = inr h

revoke_family-IsWriteOnly :
    (family_id : String) (now : ℕ) (writes : Writes) (s : Provider)
    → IsWriteOnly (revoke_family family_id now writes s)
unfolding revoke_family
revoke_family-IsWriteOnly family_id now writes s =
    let looped = retire_family family_id now s.live.refresh_tokens 0 s.live in
    let after : Provider = record s { live = looped.1 } in
    elim (Bool-cases (ltb 0 looped.0)) [
      | inl found ↦ rw found (
          after_write-IsWriteOnly (persist_refresh_tokens writes after)
            (persist_retired_refresh writes)
            (atomic_write-IsWriteOnly writes.refresh_tokens_written _ _)
            (λ t. atomic_write-IsWriteOnly writes.retired_refresh_written _ _))
      | inr nothing ↦ rw nothing (inl refl)
    ]

reuse_after :
    (m : Run (Unit {0})) → IsWriteOnly m → IsRefused (after_write m (λ t. (t, err token_reuse))).1
reuse_after (s, ok u) h = inl refl
reuse_after (s, err e) (inl h) = absurd (ok_ne_err h)
reuse_after (s, err e) (inr h) = inr (let it = h in cc)

module _ (codec : Codec SessionPayload) (config : AuthConfig) where
  pub retired-IsRefused :
      (client_id token : String) (draws : Draws) (now : ℕ) (writes : Writes) (s : Provider)
      → is_some (lookup token s.live.retired_refresh) ≡ true
      → IsRefused (exchange_refresh_token codec config client_id token draws now writes s).1
  unfolding exchange_refresh_token
  retired-IsRefused client_id token draws now writes s h =
      elim (Option-cases (lookup token s.live.retired_refresh)) [
        | inl unknown ↦ absurd (ground (arith, h, unknown))
        | inr (retired, known) ↦ rw known (
            reuse_after (revoke_family retired.family_id now writes s)
              (revoke_family-IsWriteOnly retired.family_id now writes s))
      ]

  -- The tables in memory after a token is used again are those of the loop over its family.
  pub reused :
      (client_id token : String) (draws : Draws) (now : ℕ) (writes : Writes) (s : Provider)
      (retired : RetiredEntry)
      → lookup token s.live.retired_refresh ≡ some retired
      → (exchange_refresh_token codec config client_id token draws now writes s).0.live
        ≡ (retire_family retired.family_id now s.live.refresh_tokens 0 s.live).1
  unfolding exchange_refresh_token
  reused client_id token draws now writes s retired known =
      let looped = retire_family retired.family_id now s.live.refresh_tokens 0 s.live in
      rw known (
        after_write-keeps {A = OAuthTokens} (λ (tables : Tables). tables ≡ looped.1)
          (revoke_family retired.family_id now writes s) (λ t. (t, err token_reuse))
          (revoke_family-keeps (λ (tables : Tables). tables ≡ looped.1) retired.family_id now writes
            s refl)
          (λ t k. k))

  abbrev pub rotated : String → Draws → ℕ → RefreshEntry → Tables → Tables
  rotated token draws now stored tables =
      let retired = retire token stored.family_id now tables in
      record retired { refresh_tokens = insert draws.refresh_token stored retired.refresh_tokens }

  -- What a refresh that answers with tokens did.
  stored_refreshed :
      (client_id token : String) (draws : Draws) (now : ℕ) (writes : Writes) (s : Provider)
      (tokens : OAuthTokens) (found : Option RefreshEntry)
      → (exchange_stored codec config client_id token draws now found writes s).1 ≡ ok tokens
      → (stored : RefreshEntry) × (found ≡ some stored)
        × ((exchange_stored codec config client_id token draws now found writes s).0.live
            ≡ rotated token draws now stored s.live)
  stored_refreshed client_id token draws now writes s tokens none h = cc
  stored_refreshed client_id token draws now writes s tokens (some stored) h =
      elim (Bool-cases (str_eq stored.client_id client_id)) [
        | inl same ↦ (
          stored,
          refl,
          rw same (
              after_write-keeps {A = OAuthTokens}
                (λ (tables : Tables). tables ≡ rotated token draws now stored s.live)
                (rotate token draws now stored writes s) _
                (refresh_files-keep
                  (λ (tables : Tables). tables ≡ rotated token draws now stored s.live) writes _
                  refl)
                (λ t k. k)),
        )
        | inr other ↦ absurd (ok_ne_err (rw other at h))
      ]

  after_not_ok :
      (m : Run (Unit {0})) (e : GrantError) (tokens : OAuthTokens)
      → ¬ ((after_write m (λ t. (t, err e))).1 ≡ ok tokens)
  after_not_ok (s, ok u) e tokens h = ok_ne_err h
  after_not_ok (s, err f) e tokens h = ok_ne_err h

  pub refreshed :
      (client_id token : String) (draws : Draws) (now : ℕ) (writes : Writes) (s : Provider)
      (tokens : OAuthTokens)
      → (exchange_refresh_token codec config client_id token draws now writes s).1 ≡ ok tokens
      → (stored : RefreshEntry) × (lookup token s.live.refresh_tokens ≡ some stored)
        × ((exchange_refresh_token codec config client_id token draws now writes s).0.live
            ≡ rotated token draws now stored s.live)
  unfolding exchange_refresh_token
  refreshed client_id token draws now writes s tokens h =
      elim (Option-cases (lookup token s.live.retired_refresh)) [
        | inl fresh ↦
            let (stored, known, live) =
              stored_refreshed client_id token draws now writes s tokens
                (lookup token s.live.refresh_tokens) (rw fresh at h) in
            (stored, known, rw fresh live)
        | inr (retired, known) ↦ absurd (
            after_not_ok (revoke_family retired.family_id now writes s) token_reuse tokens
              (rw known at h))
      ]
