-- ===== src/Gateway/OAuth/Replayed.antt =====
-- A refresh token that was refreshed and is used again later.
use eto_mcp.Prelude.{ℕ, ◌≡◌, true, false, some, String, is_some, inl, inr, arith}
use eto_mcp.Prelude.Dict.{lookup, remove, lookup-insert_self}
use eto_mcp.Prelude.Result.{ok}
use eto_mcp.Prelude.Text.{str_eq, str_eq_iff}
use text.Mathlib.TextPositions.{eq_refl}
use eto_mcp.Gateway.Session.{Codec, SessionPayload}
use eto_mcp.Gateway.OAuth.Store.{
  Provider, Tables, RefreshEntry, RetiredEntry, AuthConfig, Writes, retire, retire_family,
}
use eto_mcp.Gateway.OAuth.Codes.{OAuthTokens, Draws}
use eto_mcp.Gateway.OAuth.Refresh.{exchange_refresh_token}
use eto_mcp.Gateway.OAuth.Families.{
  retire_family-clears, retire_family-keeps, retire_family-retires,
}
use eto_mcp.Gateway.OAuth.Steps.{Transitions, AllDrawn}
use eto_mcp.Gateway.OAuth.Keeping.{steps-keep}
use eto_mcp.Gateway.OAuth.Disjoint.{
  IsDisjoint, IsUnretired, retire-IsDisjoint, insert-IsDisjoint, IsUnretired-after,
}
use eto_mcp.Gateway.OAuth.Replay.{IsUnknown, IsHeir, IsRotated, IsRotated-kept}
use eto_mcp.Gateway.OAuth.Reuse.{IsRefused, retired-IsRefused, reused, refreshed, rotated}

rotated-IsRotated :
    (codec : Codec SessionPayload) (config : AuthConfig) (token : String) (draws : Draws) (now : ℕ)
    (stored : RefreshEntry) (tables : Tables)
    → IsDisjoint tables
    → IsUnretired draws.refresh_token tables
    → str_eq token draws.refresh_token ≡ false
    → IsRotated stored.family_id token draws.refresh_token
        (rotated codec config token draws now stored tables)
rotated-IsRotated codec config token draws now stored tables apart fresh other =
    let gone : RetiredEntry = record { family_id = stored.family_id; retired_at = now } in
    (
      (
        insert-IsDisjoint draws.refresh_token stored (retire token stored.family_id now tables)
            (retire-IsDisjoint token stored.family_id now tables apart)
            (IsUnretired-after token draws.refresh_token stored.family_id now tables other fresh),
        (gone, lookup-insert_self token gone tables.retired_refresh, eq_refl stored.family_id),
      ),
      inr (
        stored,
        lookup-insert_self draws.refresh_token stored (remove token tables.refresh_tokens),
        eq_refl stored.family_id,
      ),
    )

-- One family, by two of its members.
same_family : (f g h : String) → str_eq f g ≡ true → str_eq h g ≡ true → str_eq f h ≡ true
same_family f g h p q = ground (arith, str_eq_iff f g, str_eq_iff h g, str_eq_iff f h, p, q)

module _ (family_id old heir : String) where
  heir_retired :
      (found : String) (now : ℕ) (tables : Tables)
      → str_eq found family_id ≡ true
      → IsHeir family_id old heir tables
      → is_some
          (lookup heir (retire_family found now tables.refresh_tokens 0 tables).1.retired_refresh)
        ≡ true
  heir_retired found now tables kin (inl retired) =
      retire_family-keeps found now tables.refresh_tokens 0 tables heir retired
  heir_retired found now tables kin (inr (e, alive, same)) =
      retire_family-retires found now tables.refresh_tokens 0 tables heir e alive
        (same_family e.family_id family_id found same kin)

  family_dead :
      (found : String) (now : ℕ) (tables : Tables) (t : String) (e : RefreshEntry)
      → str_eq found family_id ≡ true
      → lookup t (retire_family found now tables.refresh_tokens 0 tables).1.refresh_tokens ≡ some e
      → str_eq e.family_id family_id ≡ false
  family_dead found now tables t e kin alive =
      let dead =
        retire_family-clears found now tables.refresh_tokens 0 tables (λ u f known same. known) t e
          alive in
      ground (
        arith,
        dead,
        kin,
        str_eq_iff found family_id,
        str_eq_iff e.family_id family_id,
        str_eq_iff e.family_id found,
      )

-- No token of the family is alive.
abbrev pub IsFamilyDead : String → Tables → Type 0
IsFamilyDead family_id tables =
    (t : String) (e : RefreshEntry)
    → lookup t tables.refresh_tokens ≡ some e
    → str_eq e.family_id family_id ≡ false

-- When a token was refreshed and is used again, by whomever, after any number of other calls without a
-- restart between them, whatever writes fail, then the answer is a reuse, no token of its family is
-- alive afterwards, and the token that the refresh gave out is dead: its next use is answered with a
-- reuse too. In place of a reuse it may be a failed write that is reported. The tokens that are drawn
-- are new, and no token was alive and retired at once.
pub exchange_refresh_token_replayed :
    (codec : Codec SessionPayload) (config : AuthConfig) (client_id token : String) (draws : Draws)
    (now : ℕ) (writes : Writes) (s : Provider) (tokens : OAuthTokens)
    → IsDisjoint s.live
    → IsUnretired draws.refresh_token s.live
    → str_eq token draws.refresh_token ≡ false
    → (exchange_refresh_token codec config client_id token draws now writes s).1 ≡ ok tokens
    → (u : Provider)
      (calls : Transitions codec config
        (exchange_refresh_token codec config client_id token draws now writes s).0
        u)
    → AllDrawn IsUnknown calls
    → (thief victim : String) (draws' draws'' : Draws) (now' now'' : ℕ) (writes' writes'' : Writes)
    → let replay = exchange_refresh_token codec config thief token draws' now' writes' u in
      IsRefused replay.1
      × IsRefused
          (exchange_refresh_token codec config victim draws.refresh_token draws'' now'' writes''
            replay.0).1
      × ((stored : RefreshEntry) × (lookup token s.live.refresh_tokens ≡ some stored)
          × IsFamilyDead stored.family_id replay.0.live)
exchange_refresh_token_replayed codec config client_id token draws now writes s tokens apart fresh
      other h u calls drawn thief victim draws' draws'' now' now'' writes' writes'' =
    let (stored, known, live) =
      refreshed codec config client_id token draws now writes s tokens h in
    let heir = draws.refresh_token in
    let at_first : IsRotated stored.family_id token heir
        (exchange_refresh_token codec config client_id token draws now writes s).0.live =
      rw live (rotated-IsRotated codec config token draws now stored s.live apart fresh other) in
    let later : IsRotated stored.family_id token heir u.live =
      steps-keep codec config IsUnknown (IsRotated stored.family_id token heir)
        (IsRotated-kept stored.family_id token heir)
        (exchange_refresh_token codec config client_id token draws now writes s).0 u calls drawn
        at_first in
    let ((disjoint, (r, retired, kin)), succeeds) = later in
    let looped = reused codec config thief token draws' now' writes' u r retired in
    (
      retired-IsRefused codec config thief token draws' now' writes' u (rw retired),
      retired-IsRefused codec config victim heir draws'' now'' writes''
          (exchange_refresh_token codec config thief token draws' now' writes' u).0
          (rw looped
            (heir_retired stored.family_id token heir r.family_id now' u.live kin succeeds)),
      (
        stored,
        known,
        λ t e alive.
            family_dead stored.family_id token heir r.family_id now' u.live t e kin
              (rw looped at alive),
      ),
    )
