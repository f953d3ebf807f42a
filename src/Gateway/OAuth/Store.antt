-- ===== src/Gateway/OAuth/Store.antt =====
-- The tables of src/gateway/oauth-provider.ts in memory (live), each with its file (saved). A write
-- of a file may fail, which leaves the file as it was, and throws after the memory was changed.
-- Families of refresh tokens are retired here, and `load_all` is a start.
use eto_mcp.Prelude.{
  ℕ, suc, ◌+◌, Bool, true, List, [], ◌∷◌, String, ltb, if◌then◌else◌, Option, false,
}
use eto_mcp.Prelude.Dict.{Dict, insert, remove}
use eto_mcp.Prelude.Text.{str_eq}
use eto_mcp.Prelude.Result.{Result, ok, err}
use eto_mcp.Gateway.Session.{or_else, Network, DenyList, load_deny_list}

-- What the client said of itself is kept as it is.
pub record Client : Type 0 where
  pub metadata : String
  pub client_id : String
  pub client_id_issued_at : ℕ

pub record PendingCode : Type 0 where
  pub address : String
  pub code_challenge : String
  pub client_id : String
  pub redirect_uri : String
  pub scope : List String
  pub exp : ℕ

pub record RefreshEntry : Type 0 where
  pub address : String
  pub client_id : String
  pub scope : List String
  pub family_id : String

pub record RetiredEntry : Type 0 where
  pub family_id : String
  pub retired_at : ℕ

pub record Tables : Type 0 where
  pub clients : Dict Client
  pub pending_codes : Dict PendingCode
  pub refresh_tokens : Dict RefreshEntry
  pub retired_refresh : Dict RetiredEntry
  pub deny_list : DenyList

pub record Provider : Type 0 where
  pub live : Tables
  pub saved : Tables

pub record AuthConfig : Type 0 where
  pub network : Network
  pub session_ttl_seconds : ℕ
  pub refresh_ttl_seconds : ℕ

pub data GrantError : Type 0 where
  unknown_code : GrantError
  expired_code : GrantError
  wrong_client : GrantError
  redirect_mismatch : GrantError
  token_reuse : GrantError
  invalid_refresh : GrantError
  invalid_token : GrantError
  write_failed : GrantError

-- Which of the files a call manages to write.
pub record Writes : Type 0 where
  pub clients_written : Bool
  pub pending_codes_written : Bool
  pub refresh_tokens_written : Bool
  pub retired_refresh_written : Bool
  pub deny_list_written : Bool

-- The tables that a call leaves, and its answer or what it throws.
abbrev pub Run : Type 0 → Type 0
Run A = Provider × Result GrantError A

-- What comes after a write runs unless the write throws.
abbrev pub after_write : {A : Type 0} → Run (Unit {0}) → (Provider → Run A) → Run A
after_write (s, ok u) rest = rest s
after_write (s, err e) rest = (s, err e)

-- `atomicWriteJson`
abbrev pub atomic_write : Bool → Provider → Tables → Run (Unit {0})
atomic_write true s saved = (record s { saved = saved }, ok tt)
atomic_write false s saved = (s, err write_failed)

abbrev pub persist_clients : Writes → Provider → Run (Unit {0})
persist_clients writes s =
    atomic_write writes.clients_written s (record (s.saved) { clients = s.live.clients })

abbrev pub persist_pending_codes : Writes → Provider → Run (Unit {0})
persist_pending_codes writes s =
    atomic_write writes.pending_codes_written s
      (record (s.saved) { pending_codes = s.live.pending_codes })

abbrev pub persist_refresh_tokens : Writes → Provider → Run (Unit {0})
persist_refresh_tokens writes s =
    atomic_write writes.refresh_tokens_written s
      (record (s.saved) { refresh_tokens = s.live.refresh_tokens })

abbrev pub persist_retired_refresh : Writes → Provider → Run (Unit {0})
persist_retired_refresh writes s =
    atomic_write writes.retired_refresh_written s
      (record (s.saved) { retired_refresh = s.live.retired_refresh })

abbrev pub persist_deny_list : Writes → Provider → Run (Unit {0})
persist_deny_list writes s =
    atomic_write writes.deny_list_written s (record (s.saved) { deny_list = s.live.deny_list })

-- `refreshTokens.delete` and `retiredRefresh.set`
abbrev pub retire : String → String → ℕ → Tables → Tables
retire token family_id now tables = record tables {
  refresh_tokens = remove token tables.refresh_tokens;
  retired_refresh =
      insert token (record { family_id = family_id; retired_at = now }) tables.retired_refresh;
}

-- The loop of `revokeFamily` over the entries, with the count of those that it retired.
unfoldable pub retire_family : String → ℕ → Dict RefreshEntry → ℕ → Tables → ℕ × Tables
retire_family family_id now [] n tables = (n, tables)
retire_family family_id now ((token, entry) ∷ more) n tables =
    if str_eq entry.family_id family_id
    then retire_family family_id now more (suc n) (retire token family_id now tables)
    else retire_family family_id now more n tables

unfoldable pub revoke_family : String → ℕ → Writes → Provider → Run (Unit {0})
revoke_family family_id now writes s =
    let done = retire_family family_id now s.live.refresh_tokens 0 s.live in
    let after = record s { live = done.1 } in
    if ltb 0 done.0
    then after_write (persist_refresh_tokens writes after) (persist_retired_refresh writes)
    else (after, ok tt)

-- The entries of a file that a start keeps, in a Map.
abbrev pub load_entries : {A : Type 0} → (A → Bool) → Dict A → Dict A → Dict A
load_entries keep [] d = d
load_entries keep ((k, v) ∷ saved) d = load_entries keep saved (if keep v then insert k v d else d)

-- An entry in a file, which has no family when an older version wrote it.
pub record SavedEntry : Type 0 where
  pub address : String
  pub client_id : String
  pub scope : List String
  pub family_id : Option String

pub record Files : Type 0 where
  pub clients : Dict Client
  pub pending_codes : Dict PendingCode
  pub refresh_tokens : Dict SavedEntry
  pub retired_refresh : Dict RetiredEntry
  pub deny_list : DenyList

-- The refresh tokens of a file, with the random family of one that has none.
abbrev pub load_refresh :
    (String → String) → Dict SavedEntry → Dict RefreshEntry → Dict RefreshEntry
load_refresh random_family [] d = d
load_refresh random_family ((token, v) ∷ saved) d = load_refresh random_family saved (
    insert token
      (record {
        address = v.address;
        client_id = v.client_id;
        scope = v.scope;
        family_id = or_else v.family_id (random_family token);
      })
      d)

-- What a start reads. The cutoff of retired tokens is written without a negative number.
unfoldable pub load_all : AuthConfig → ℕ → (String → String) → Files → Tables
load_all config now random_family files = record {
  clients = load_entries (λ (c : Client). true) files.clients [];
  pending_codes = load_entries (λ (p : PendingCode). ltb now p.exp) files.pending_codes [];
  refresh_tokens = load_refresh random_family files.refresh_tokens [];
  retired_refresh =
      load_entries (λ (r : RetiredEntry). ltb now (r.retired_at + config.refresh_ttl_seconds))
        files.retired_refresh [];
  deny_list = load_deny_list now files.deny_list [];
}
