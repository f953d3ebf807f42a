-- ===== src/Gateway/OAuth/Changes.antt =====
-- A property of the tables in memory goes through the writes of a call, whether they succeed or fail.
use eto_mcp.Prelude.{ℕ, ◌≡◌, Bool, true, false, some, String, Bool-cases, inl, inr, ltb}
use eto_mcp.Prelude.Dict.{Dict, lookup, insert}
use eto_mcp.Prelude.Result.{ok, err}
use eto_mcp.Prelude.Text.{str_eq}
use eto_mcp.Gateway.Session.{DenyList}
use eto_mcp.Gateway.OAuth.Store.{
  Client, Provider, Tables, Client, PendingCode, RefreshEntry, Writes, Run, after_write,
  atomic_write, persist_refresh_tokens, persist_retired_refresh, retire, retire_family,
  revoke_family,
}

-- What the changes of the tables keep; F is what is wanted of a random token.
pub record IsKept (F : String → Tables → Type 0) (P : Tables → Type 0) : Type 0 where
  pub others :
      (tables : Tables) (clients : Dict Client) (codes : Dict PendingCode) (denied : DenyList)
      → P tables
      → P (record tables { clients = clients; pending_codes = codes; deny_list = denied })
  pub drawn :
      (token : String) (tables : Tables) (codes : Dict PendingCode)
      → F token tables
      → F token (record tables { pending_codes = codes })
  pub retires :
      (token : String) (entry : RefreshEntry) (now : ℕ) (tables : Tables)
      → lookup token tables.refresh_tokens ≡ some entry
      → P tables
      → P (retire token entry.family_id now tables)
  pub families :
      (family_id : String) (now : ℕ) (tables : Tables)
      → P tables
      → P (retire_family family_id now tables.refresh_tokens 0 tables).1
  pub grants :
      (token : String) (entry : RefreshEntry) (tables : Tables)
      → F token tables
      → P tables
      → P (record tables { refresh_tokens = insert token entry tables.refresh_tokens })
  pub rotates :
      (old token : String) (entry : RefreshEntry) (now : ℕ) (tables : Tables)
      → lookup old tables.refresh_tokens ≡ some entry
      → F token tables
      → str_eq old token ≡ false
      → P tables
      → P (record (retire old entry.family_id now tables) {
        refresh_tokens = insert token entry (retire old entry.family_id now tables).refresh_tokens;
      })

pub atomic_write-keeps :
    (P : Tables → Type 0) (written : Bool) (s : Provider) (saved : Tables)
    → P s.live
    → P (atomic_write written s saved).0.live
atomic_write-keeps P true s saved h = h
atomic_write-keeps P false s saved h = h

pub after_write-keeps :
    {A : Type 0} (P : Tables → Type 0) (m : Run (Unit {0})) (rest : Provider → Run A)
    → P m.0.live
    → ((t : Provider) → P t.live → P (rest t).0.live)
    → P (after_write m rest).0.live
after_write-keeps P (s, ok u) rest h k = k s h
after_write-keeps P (s, err e) rest h k = h

pub after_write-leads :
    {A : Type 0} (Q P : Tables → Type 0) (m : Run (Unit {0})) (rest : Provider → Run A)
    → Q m.0.live
    → ((t : Provider) → Q t.live → P t.live)
    → ((t : Provider) → Q t.live → P (rest t).0.live)
    → P (after_write m rest).0.live
after_write-leads Q P (s, ok u) rest h k l = l s h
after_write-leads Q P (s, err e) rest h k l = k s h

pub refresh_files-keep :
    (P : Tables → Type 0) (writes : Writes) (s : Provider)
    → P s.live
    → P (after_write (persist_refresh_tokens writes s) (persist_retired_refresh writes)).0.live
refresh_files-keep P writes s h =
    after_write-keeps {A = Unit {0}} P (persist_refresh_tokens writes s)
      (persist_retired_refresh writes)
      (atomic_write-keeps P writes.refresh_tokens_written s
        (record (s.saved) { refresh_tokens = s.live.refresh_tokens }) h)
      (λ t k.
        atomic_write-keeps P writes.retired_refresh_written t
          (record (t.saved) { retired_refresh = t.live.retired_refresh }) k)

pub revoke_family-keeps :
    (P : Tables → Type 0) (family_id : String) (now : ℕ) (writes : Writes) (s : Provider)
    → P (retire_family family_id now s.live.refresh_tokens 0 s.live).1
    → P (revoke_family family_id now writes s).0.live
unfolding revoke_family
revoke_family-keeps P family_id now writes s h =
    let looped = retire_family family_id now s.live.refresh_tokens 0 s.live in
    elim (Bool-cases (ltb 0 looped.0)) [
      | inl found ↦ rw found (refresh_files-keep P writes (record s { live = looped.1 }) h)
      | inr nothing ↦ rw nothing h
    ]
