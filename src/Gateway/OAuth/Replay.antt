-- ===== src/Gateway/OAuth/Replay.antt =====
-- A refresh token that is used again after any calls: its family is dead afterwards.
use eto_mcp.Prelude.{
  ℕ, suc, ◌≡◌, ◌⊎◌, true, false, none, some, String, [], ◌∷◌, is_some, Bool-cases, Option-cases,
  inl, inr, arith,
}
use eto_mcp.Prelude.Dict.{Dict, lookup, insert, lookup-remove, lookup-insert}
use eto_mcp.Prelude.Text.{str_eq, str_eq_iff}
use eto_mcp.Gateway.OAuth.Store.{Tables, RefreshEntry, RetiredEntry, retire, retire_family}
use eto_mcp.Gateway.OAuth.Changes.{IsKept}
use eto_mcp.Gateway.OAuth.Disjoint.{
  IsDisjoint, retire-IsDisjoint, retire_family-IsDisjoint, insert-IsDisjoint, IsUnretired-after,
}

-- The token is in neither table.
abbrev pub IsUnknown : String → Tables → Type 0
IsUnknown token tables =
    (is_some (lookup token tables.retired_refresh) ≡ false)
    × (is_some (lookup token tables.refresh_tokens) ≡ false)

module _ (family_id old heir : String) where
  -- The old token is retired for its family, and its heir is retired, or alive in that family.
  abbrev pub IsGone : Tables → Type 0
  IsGone tables =
      (r : RetiredEntry) × (lookup old tables.retired_refresh ≡ some r)
      × (str_eq r.family_id family_id ≡ true)

  abbrev pub IsHeir : Tables → Type 0
  IsHeir tables =
      (is_some (lookup heir tables.retired_refresh) ≡ true)
      ⊎ ((e : RefreshEntry) × (lookup heir tables.refresh_tokens ≡ some e)
          × (str_eq e.family_id family_id ≡ true))

  abbrev pub IsRotated : Tables → Type 0
  IsRotated tables = (IsDisjoint tables × IsGone tables) × IsHeir tables

  retire-IsHeir :
      (token family : String) (now : ℕ) (tables : Tables)
      → IsHeir tables
      → IsHeir (retire token family now tables)
  retire-IsHeir token family now tables h =
      let gone : RetiredEntry = record { family_id = family; retired_at = now } in
      elim (Bool-cases (str_eq token heir)) [
        | inl same ↦
            inl (ground (arith, lookup-insert token heir gone tables.retired_refresh, same))
        | inr other ↦ elim h [
          | inl retired ↦
              inl (
                ground
                  (arith, lookup-insert token heir gone tables.retired_refresh, other, retired))
          | inr (e, alive, kin) ↦
              inr (
                e,
                ground (arith, lookup-remove token heir tables.refresh_tokens, other, alive),
                kin,
              )
        ]
      ]

  -- An old token that is not alive is not retired again.
  retire-IsGone :
      (token family : String) (now : ℕ) (tables : Tables)
      → str_eq token old ≡ false
      → IsGone tables
      → IsGone (retire token family now tables)
  retire-IsGone token family now tables other (r, known, kin) =
      let gone : RetiredEntry = record { family_id = family; retired_at = now } in
      (r, ground (arith, lookup-insert token old gone tables.retired_refresh, other, known), kin)

  retire_family-IsHeir :
      (family : String) (now : ℕ) (rest : Dict RefreshEntry) (n : ℕ) (tables : Tables)
      → IsHeir tables
      → IsHeir (retire_family family now rest n tables).1
  unfolding retire_family
  retire_family-IsHeir family now [] n tables h = h
  retire_family-IsHeir family now ((token, entry) ∷ rest) n tables h =
      elim (Bool-cases (str_eq entry.family_id family)) [
        | inl same ↦ rw same (
            retire_family-IsHeir family now rest (suc n) (retire token family now tables)
              (retire-IsHeir token family now tables h))
        | inr other ↦ rw other (retire_family-IsHeir family now rest n tables h)
      ]

  head_apart :
      (token : String) (entry : RefreshEntry) (rest : Dict RefreshEntry)
      → lookup old ((token, entry) ∷ rest) ≡ none
      → (str_eq token old ≡ false) × (lookup old rest ≡ none)
  unfolding lookup
  head_apart token entry rest h = ground (arith, h)

  retire_family-IsGone :
      (family : String) (now : ℕ) (rest : Dict RefreshEntry) (n : ℕ) (tables : Tables)
      → lookup old rest ≡ none
      → IsGone tables
      → IsGone (retire_family family now rest n tables).1
  unfolding retire_family
  retire_family-IsGone family now [] n tables apart h = h
  retire_family-IsGone family now ((token, entry) ∷ rest) n tables apart h =
      let (other_token, later) = head_apart token entry rest apart in
      elim (Bool-cases (str_eq entry.family_id family)) [
        | inl same ↦ rw same (
            retire_family-IsGone family now rest (suc n) (retire token family now tables) later
              (retire-IsGone token family now tables other_token h))
        | inr other ↦ rw other (retire_family-IsGone family now rest n tables later h)
      ]

  -- The old token is not alive.
  old_dead :
      (tables : Tables)
      → IsDisjoint tables
      → IsGone tables
      → lookup old tables.refresh_tokens ≡ none
  old_dead tables apart (r, known, kin) = elim (Option-cases (lookup old tables.refresh_tokens)) [
    | inl dead ↦ dead
    | inr (e, alive) ↦ absurd (ground (arith, apart old (rw alive), known))
  ]

  alive_apart :
      (token : String) (entry : RefreshEntry) (tables : Tables)
      → lookup token tables.refresh_tokens ≡ some entry
      → lookup old tables.refresh_tokens ≡ none
      → str_eq token old ≡ false
  alive_apart token entry tables alive dead = ground (arith, str_eq_iff token old, alive, dead)

  unknown_apart :
      (token : String) (entry : RefreshEntry) (tables : Tables)
      → IsUnknown token tables
      → IsHeir tables
      → IsHeir (record tables { refresh_tokens = insert token entry tables.refresh_tokens })
  unknown_apart token entry tables fresh (inl retired) = inl retired
  unknown_apart token entry tables (unretired, dead) (inr (e, alive, kin)) = inr (
    e,
    ground (
      arith,
      lookup-insert token heir entry tables.refresh_tokens,
      str_eq_iff token heir,
      dead,
      alive,
    ),
    kin,
  )

  IsUnknown-after :
      (other token family : String) (now : ℕ) (tables : Tables)
      → str_eq other token ≡ false
      → IsUnknown token tables
      → IsUnknown token (retire other family now tables)
  IsUnknown-after other token family now tables apart (unretired, dead) = (
    IsUnretired-after other token family now tables apart unretired,
    ground (arith, lookup-remove other token tables.refresh_tokens, dead),
  )

  retire-IsRotated :
      (token : String) (entry : RefreshEntry) (now : ℕ) (tables : Tables)
      → lookup token tables.refresh_tokens ≡ some entry
      → IsRotated tables
      → IsRotated (retire token entry.family_id now tables)
  retire-IsRotated token entry now tables alive ((apart, gone), h) = (
    (
      retire-IsDisjoint token entry.family_id now tables apart,
      retire-IsGone token entry.family_id now tables
          (alive_apart token entry tables alive (old_dead tables apart gone)) gone,
    ),
    retire-IsHeir token entry.family_id now tables h,
  )

  insert-IsRotated :
      (token : String) (entry : RefreshEntry) (tables : Tables)
      → IsUnknown token tables
      → IsRotated tables
      → IsRotated (record tables { refresh_tokens = insert token entry tables.refresh_tokens })
  insert-IsRotated token entry tables fresh ((apart, gone), h) = (
    (insert-IsDisjoint token entry tables apart (fresh.0), gone),
    unknown_apart token entry tables fresh h,
  )

  pub IsRotated-kept : IsKept IsUnknown IsRotated
  IsRotated-kept = record {
    others = λ tables clients codes denied h. h;
    drawn = λ token tables codes h. h;
    retires = retire-IsRotated;
    families = λ family now tables h. (
      (
        retire_family-IsDisjoint family now tables.refresh_tokens 0 tables (h.0.0),
        retire_family-IsGone family now tables.refresh_tokens 0 tables
            (old_dead tables (h.0.0) (h.0.1)) (h.0.1),
      ),
      retire_family-IsHeir family now tables.refresh_tokens 0 tables (h.1),
    );
    grants = insert-IsRotated;
    rotates = λ other token entry now tables alive fresh apart h.
        insert-IsRotated token entry (retire other entry.family_id now tables)
          (IsUnknown-after other token entry.family_id now tables apart fresh)
          (retire-IsRotated other entry now tables alive h);
  }
