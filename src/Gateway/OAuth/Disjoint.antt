-- ===== src/Gateway/OAuth/Disjoint.antt =====
-- No refresh token is alive and retired at once, when the random tokens are new.
use eto_mcp.Prelude.{
  ℕ, suc, ◌≡◌, true, false, String, [], ◌∷◌, is_some, Bool-cases, inl, inr, arith,
}
use eto_mcp.Prelude.Dict.{Dict, lookup, insert, lookup-remove, lookup-insert}
use eto_mcp.Prelude.Text.{str_eq, str_eq_iff}
use eto_mcp.Gateway.Session.{Codec, SessionPayload}
use eto_mcp.Gateway.OAuth.Store.{
  Provider, Tables, RefreshEntry, RetiredEntry, AuthConfig, retire, retire_family,
}
use eto_mcp.Gateway.OAuth.Steps.{Transitions, AllDrawn}
use eto_mcp.Gateway.OAuth.Keeping.{steps-keep}
use eto_mcp.Gateway.OAuth.Changes.{IsKept}

abbrev pub IsDisjoint : Tables → Type 0
IsDisjoint tables =
    (t : String)
    → is_some (lookup t tables.refresh_tokens) ≡ true
    → is_some (lookup t tables.retired_refresh) ≡ false

-- The token was never retired.
abbrev pub IsUnretired : String → Tables → Type 0
IsUnretired token tables = is_some (lookup token tables.retired_refresh) ≡ false

pub retire-IsDisjoint :
    (token family_id : String) (now : ℕ) (tables : Tables)
    → IsDisjoint tables
    → IsDisjoint (retire token family_id now tables)
retire-IsDisjoint token family_id now tables h t alive =
    let gone : RetiredEntry = record { family_id = family_id; retired_at = now } in
    ground (
      arith,
      lookup-remove token t tables.refresh_tokens,
      lookup-insert token t gone tables.retired_refresh,
      h t,
      alive,
    )

pub retire_family-IsDisjoint :
    (family_id : String) (now : ℕ) (rest : Dict RefreshEntry) (n : ℕ) (tables : Tables)
    → IsDisjoint tables
    → IsDisjoint (retire_family family_id now rest n tables).1
unfolding retire_family
retire_family-IsDisjoint family_id now [] n tables h = h
retire_family-IsDisjoint family_id now ((token, entry) ∷ rest) n tables h =
    elim (Bool-cases (str_eq entry.family_id family_id)) [
      | inl same ↦ rw same (
          retire_family-IsDisjoint family_id now rest (suc n) (retire token family_id now tables)
            (retire-IsDisjoint token family_id now tables h))
      | inr other ↦ rw other (retire_family-IsDisjoint family_id now rest n tables h)
    ]

-- A new token that is not retired.
pub insert-IsDisjoint :
    (token : String) (entry : RefreshEntry) (tables : Tables)
    → IsDisjoint tables
    → is_some (lookup token tables.retired_refresh) ≡ false
    → IsDisjoint (record tables { refresh_tokens = insert token entry tables.refresh_tokens })
insert-IsDisjoint token entry tables h fresh t alive = ground (
  arith,
  lookup-insert token t entry tables.refresh_tokens,
  str_eq_iff token t,
  h t,
  fresh,
  alive,
)

-- A new token next to one that is retired for it.
pub IsUnretired-after :
    (old token family_id : String) (now : ℕ) (tables : Tables)
    → str_eq old token ≡ false
    → IsUnretired token tables
    → IsUnretired token (retire old family_id now tables)
IsUnretired-after old token family_id now tables other h =
    let gone : RetiredEntry = record { family_id = family_id; retired_at = now } in
    ground (arith, lookup-insert old token gone tables.retired_refresh, other, h)

IsDisjoint-kept : IsKept IsUnretired IsDisjoint
IsDisjoint-kept = record {
  others = λ tables clients codes denied h. h;
  drawn = λ token tables codes h. h;
  retires = λ token entry now tables known h. retire-IsDisjoint token entry.family_id now tables h;
  families = λ family_id now tables h.
      retire_family-IsDisjoint family_id now tables.refresh_tokens 0 tables h;
  grants = λ token entry tables fresh h. insert-IsDisjoint token entry tables h fresh;
  rotates = λ old token entry now tables known fresh other h.
      insert-IsDisjoint token entry (retire old entry.family_id now tables)
        (retire-IsDisjoint old entry.family_id now tables h)
        (IsUnretired-after old token entry.family_id now tables other fresh);
}

-- When no refresh token is alive and retired, none is after any number of calls, whatever writes
-- fail in them, if the refresh tokens that they draw were never retired and are not the token that is
-- refreshed.
pub Transitions-IsDisjoint :
    (codec : Codec SessionPayload) (config : AuthConfig) (s t : Provider)
    (steps : Transitions codec config s t)
    → AllDrawn IsUnretired steps
    → IsDisjoint s.live
    → IsDisjoint t.live
Transitions-IsDisjoint codec config s t steps fresh h =
    steps-keep codec config IsUnretired IsDisjoint IsDisjoint-kept s t steps fresh h
