-- ===== src/Gateway/OAuth/Steps.antt =====
-- The calls that change the tables, as steps: in the source none of them waits, so they do not
-- interleave. A start is not among them.
use eto_mcp.Prelude.{ℕ, ◌≡◌, ◌≢◌, false, Option, String}
use eto_mcp.Prelude.Result.{err}
use eto_mcp.Prelude.Text.{str_eq}
use eto_mcp.Gateway.Session.{Codec, SessionPayload}
use eto_mcp.Gateway.OAuth.Store.{Provider, Tables, AuthConfig, Writes, write_failed}
use eto_mcp.Gateway.OAuth.Codes.{
  Draws, CodeParams, register_client, issue_auth_code, exchange_authorization_code,
}
use eto_mcp.Gateway.OAuth.Refresh.{exchange_refresh_token, revoke_token}

pub data Transition (codec : Codec SessionPayload) (config : AuthConfig)
    : Provider → Provider → Type 0 where
  registered :
      (metadata client_id : String) (now : ℕ) (writes : Writes) (s : Provider)
      → Transition codec config s (register_client metadata client_id now writes s).0
  issued :
      (address : String) (params : CodeParams) (code : String) (now : ℕ) (writes : Writes)
      (s : Provider)
      → Transition codec config s (issue_auth_code address params code now writes s).0
  exchanged :
      (client_id code : String) (redirect_uri : Option String) (draws : Draws) (now : ℕ)
      (writes : Writes) (s : Provider)
      → Transition codec config s
          (exchange_authorization_code codec config client_id code redirect_uri draws now writes
            s).0
  refreshed :
      (client_id token : String) (draws : Draws) (now : ℕ) (writes : Writes) (s : Provider)
      → Transition codec config s
          (exchange_refresh_token codec config client_id token draws now writes s).0
  revoked :
      (token : String) (now : ℕ) (writes : Writes) (s : Provider)
      → Transition codec config s (revoke_token codec config token now writes s).0

pub data Transitions (codec : Codec SessionPayload) (config : AuthConfig)
    : Provider → Provider → Type 0 where
  done : (s : Provider) → Transitions codec config s s
  and_then :
      (s t u : Provider)
      → Transitions codec config s t
      → Transition codec config t u
      → Transitions codec config s u

-- The random refresh token of a call is as F wants it, and is not the token that is refreshed.
abbrev pub IsDrawn :
    (F : String → Tables → Type 0) {codec : Codec SessionPayload} {config : AuthConfig}
    {s t : Provider}
    → Transition codec config s t
    → Type 0
IsDrawn F (exchanged client_id code redirect_uri draws now writes s) = F draws.refresh_token s.live
IsDrawn F (refreshed client_id token draws now writes s) =
    F draws.refresh_token s.live × (str_eq token draws.refresh_token ≡ false)
IsDrawn F step = Unit {0}

abbrev pub AllDrawn :
    (F : String → Tables → Type 0) {codec : Codec SessionPayload} {config : AuthConfig}
    {s t : Provider}
    → Transitions codec config s t
    → Type 0
AllDrawn F (done s) = Unit {0}
AllDrawn F (and_then s t u steps step) = AllDrawn F steps × IsDrawn F step

-- The call does not end with a write that failed.
abbrev pub IsWritten :
    {codec : Codec SessionPayload} {config : AuthConfig} {s t : Provider}
    → Transition codec config s t
    → Type 0
IsWritten {codec} {config} (registered metadata client_id now writes s) =
    (register_client metadata client_id now writes s).1 ≢ err write_failed
IsWritten {codec} {config} (issued address params code now writes s) =
    (issue_auth_code address params code now writes s).1 ≢ err write_failed
IsWritten {codec} {config} (exchanged client_id code redirect_uri draws now writes s) =
    (exchange_authorization_code codec config client_id code redirect_uri draws now writes s).1
    ≢ err write_failed
IsWritten {codec} {config} (refreshed client_id token draws now writes s) =
    (exchange_refresh_token codec config client_id token draws now writes s).1 ≢ err write_failed
IsWritten {codec} {config} (revoked token now writes s) =
    (revoke_token codec config token now writes s).1 ≢ err write_failed

abbrev pub AllWritten :
    {codec : Codec SessionPayload} {config : AuthConfig} {s t : Provider}
    → Transitions codec config s t
    → Type 0
AllWritten (done s) = Unit {0}
AllWritten (and_then s t u steps step) = AllWritten steps × IsWritten step
