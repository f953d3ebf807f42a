-- ===== src/Gateway/OAuth/Tests.antt =====
-- The OAuth provider at concrete inputs.
use eto_mcp.Prelude.{◌≡◌, refl, sym, ◌∙◌, true, false, none, some, [], ◌∷◌, is_some}
use eto_mcp.Prelude.Dict.{lookup, insert, remove}
use eto_mcp.Prelude.Result.{ok, err, ok_ne_err}
use eto_mcp.Gateway.Fixtures.{plain_codec}
use eto_mcp.Gateway.Session.{testnet}
use eto_mcp.Gateway.OAuth.Store.{Tables, Provider, AuthConfig, RefreshEntry, Writes, write_failed}
use eto_mcp.Gateway.OAuth.Codes.{
  Draws, CodeParams, OAuthTokens, check_code, exchange_authorization_code, issue_auth_code,
  tokens_of,
}
use eto_mcp.Gateway.OAuth.Refresh.{exchange_refresh_token}
use eto_mcp.Gateway.OAuth.Reuse.{IsRefused}
use eto_mcp.Gateway.OAuth.Replayed.{IsFamilyDead, exchange_refresh_token_replayed}
use eto_mcp.Gateway.OAuth.Steps.{Transitions, done, and_then, issued, exchanged, refreshed}
use eto_mcp.Gateway.OAuth.Saved.{IsSaved, Transitions-IsSaved}
use eto_mcp.Gateway.OAuth.Disjoint.{IsDisjoint, Transitions-IsDisjoint}

abbrev config : AuthConfig
config = record { network = testnet; session_ttl_seconds = 60; refresh_ttl_seconds = 86400 }

abbrev tables : Tables
tables = record {
  clients = [];
  pending_codes = [];
  refresh_tokens = [];
  retired_refresh = [];
  deny_list = [];
}

abbrev start : Provider
start = record { live = tables; saved = tables }

abbrev written : Writes
written = record {
  clients_written = true;
  pending_codes_written = true;
  refresh_tokens_written = true;
  retired_refresh_written = true;
  deny_list_written = true;
}

-- A full disk at the second file of a rotation.
abbrev half_written : Writes
half_written = record written { retired_refresh_written = false }

abbrev params : CodeParams
params = record {
  code_challenge = "challenge";
  client_id = "cursor";
  redirect_uri = "http://localhost/";
  scopes = none;
}

abbrev with_code : Provider
with_code = (issue_auth_code "alice" params "code" 1000 written start).0

abbrev first : Draws
first = record { jti = "j1"; refresh_token = "r1"; family_id = "f1" }

abbrev second : Draws
second = record { jti = "j2"; refresh_token = "r2"; family_id = "f2" }

abbrev third : Draws
third = record { jti = "j3"; refresh_token = "r3"; family_id = "f3" }

abbrev granted : Provider
granted =
    (exchange_authorization_code plain_codec config "cursor" "code" none first 1001 written
      with_code).0

abbrev refreshed_once : Provider
refreshed_once =
    (exchange_refresh_token plain_codec config "cursor" "r1" second 2000 written granted).0

-- Another login in between.
abbrev later : Provider
later = (issue_auth_code "bob" params "code2" 2500 written refreshed_once).0

abbrev in_between : Transitions plain_codec config refreshed_once later
in_between =
    and_then refreshed_once refreshed_once later (done refreshed_once)
      (issued "bob" params "code2" 2500 written refreshed_once)

abbrev tokens : OAuthTokens
tokens = tokens_of plain_codec config "alice" "cursor" ("mcp:tools" ∷ []) "j2" "r2" 2000

rotated_once :
    (exchange_refresh_token plain_codec config "cursor" "r1" second 2000 written granted).1
    ≡ ok tokens
unfolding exchange_refresh_token exchange_authorization_code issue_auth_code lookup insert remove
    check_code
rotated_once = refl

-- The answer is lost, the tables in memory are those of a rotation, and their files differ.
half_rotated :
    (exchange_refresh_token plain_codec config "cursor" "r1" second 2000 half_written granted).1
    ≡ err write_failed
unfolding exchange_refresh_token exchange_authorization_code issue_auth_code lookup insert remove
    check_code
half_rotated = refl

granted_unretired : is_some (lookup "r2" granted.live.retired_refresh) ≡ false
unfolding exchange_authorization_code issue_auth_code lookup insert remove check_code
granted_unretired = refl

start_unretired : is_some (lookup "r1" with_code.live.retired_refresh) ≡ false
unfolding issue_auth_code lookup
start_unretired = refl

start-IsDisjoint : IsDisjoint start.live
unfolding lookup
start-IsDisjoint t alive = refl

abbrev login : Transitions plain_codec config start granted
login =
    and_then start with_code granted
      (and_then start start with_code (done start)
        (issued "alice" params "code" 1000 written start))
      (exchanged "cursor" "code" none first 1001 written with_code)

granted-IsDisjoint : IsDisjoint granted.live
granted-IsDisjoint =
    Transitions-IsDisjoint plain_codec config start granted login ((tt, tt), start_unretired)
      start-IsDisjoint

exchange_refresh_token_replayed_example :
    let replay = exchange_refresh_token plain_codec config "thief" "r1" third 3000 written later in
    IsRefused replay.1
    × IsRefused
        (exchange_refresh_token plain_codec config "cursor" "r2" third 3001 written replay.0).1
    × ((stored : RefreshEntry) × (lookup "r1" granted.live.refresh_tokens ≡ some stored)
        × IsFamilyDead stored.family_id replay.0.live)
exchange_refresh_token_replayed_example =
    exchange_refresh_token_replayed plain_codec config "cursor" "r1" second 2000 written granted
      tokens granted-IsDisjoint granted_unretired refl rotated_once later in_between (tt, tt)
      "thief" "cursor" third third 3000 3001 written written

abbrev calls : Transitions plain_codec config start refreshed_once
calls =
    and_then start granted refreshed_once login
      (refreshed "cursor" "r1" second 2000 written granted)

code_issued : ¬ ((issue_auth_code "alice" params "code" 1000 written start).1 ≡ err write_failed)
unfolding issue_auth_code
code_issued e = ok_ne_err (sym e)

Transitions-IsDisjoint_example : IsDisjoint refreshed_once.live
Transitions-IsDisjoint_example =
    Transitions-IsDisjoint plain_codec config start refreshed_once calls
      (((tt, tt), start_unretired), (granted_unretired, refl)) start-IsDisjoint

code_exchanged : ¬ (
    (exchange_authorization_code plain_codec config "cursor" "code" none first 1001 written
      with_code).1
    ≡ err write_failed)
unfolding exchange_authorization_code issue_auth_code lookup insert remove check_code
code_exchanged e = ok_ne_err (sym e)

token_refreshed : ¬ (
    (exchange_refresh_token plain_codec config "cursor" "r1" second 2000 written granted).1
    ≡ err write_failed)
token_refreshed e = ok_ne_err (sym e ∙ rotated_once)

Transitions-IsSaved_example : IsSaved refreshed_once
Transitions-IsSaved_example =
    Transitions-IsSaved plain_codec config start refreshed_once calls
      (((tt, code_issued), code_exchanged), token_refreshed) refl
