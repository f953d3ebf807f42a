-- ===== src/Gateway/OAuth/Families.antt =====
-- The loop of `revokeFamily`: what it leaves alive, and what it retires.
use eto_mcp.Prelude.{
  ℕ, suc, ◌≡◌, true, false, some, String, [], ◌∷◌, is_some, Bool-cases, inl, inr, arith, ◌≤◌, refl,
}
use eto_mcp.Prelude.Dict.{Dict, lookup, lookup-remove, lookup-insert}
use eto_mcp.Prelude.Text.{str_eq}
use eto_mcp.Gateway.OAuth.Store.{Tables, RefreshEntry, retire, retire_family}

module _ (family_id : String) (now : ℕ) where
  -- The entries of the family that are alive are among those that the loop has still to look at.
  abbrev pub IsAhead : Dict RefreshEntry → Tables → Type 0
  IsAhead more tables =
      (t : String) (e : RefreshEntry)
      → lookup t tables.refresh_tokens ≡ some e
      → str_eq e.family_id family_id ≡ true
      → lookup t more ≡ some e

  retire-IsAhead :
      (token : String) (entry : RefreshEntry) (more : Dict RefreshEntry) (tables : Tables)
      → IsAhead ((token, entry) ∷ more) tables
      → IsAhead more (retire token family_id now tables)
  unfolding lookup
  retire-IsAhead token entry more tables h t e alive same =
      ground (arith, h t e, lookup-remove token t tables.refresh_tokens, alive, same)

  skipped-IsAhead :
      (token : String) (entry : RefreshEntry) (more : Dict RefreshEntry) (tables : Tables)
      → str_eq entry.family_id family_id ≡ false
      → IsAhead ((token, entry) ∷ more) tables
      → IsAhead more tables
  unfolding lookup
  skipped-IsAhead token entry more tables other h t e alive same =
      ground (arith, h t e alive same, other, same)

  loop_retires :
      (token : String) (entry : RefreshEntry) (more : Dict RefreshEntry) (n : ℕ) (tables : Tables)
      → str_eq entry.family_id family_id ≡ true
      → retire_family family_id now ((token, entry) ∷ more) n tables
        ≡ retire_family family_id now more (suc n) (retire token family_id now tables)
  unfolding retire_family
  loop_retires token entry more n tables same = rw same

  loop_skips :
      (token : String) (entry : RefreshEntry) (more : Dict RefreshEntry) (n : ℕ) (tables : Tables)
      → str_eq entry.family_id family_id ≡ false
      → retire_family family_id now ((token, entry) ∷ more) n tables
        ≡ retire_family family_id now more n tables
  unfolding retire_family
  loop_skips token entry more n tables other = rw other

  -- Nothing of the family is alive after the loop.
  pub retire_family-clears :
      (more : Dict RefreshEntry) (n : ℕ) (tables : Tables)
      → IsAhead more tables
      → (t : String) (e : RefreshEntry)
      → lookup t (retire_family family_id now more n tables).1.refresh_tokens ≡ some e
      → str_eq e.family_id family_id ≡ false
  unfolding retire_family lookup
  retire_family-clears [] n tables h t e alive = ground (arith, h t e alive)
  retire_family-clears ((token, entry) ∷ more) n tables h t e alive =
      elim (Bool-cases (str_eq entry.family_id family_id)) [
        | inl same ↦
            retire_family-clears more (suc n) (retire token family_id now tables)
              (retire-IsAhead token entry more tables h) t e
              (rw (← loop_retires token entry more n tables same) alive)
        | inr other ↦
            retire_family-clears more n tables (skipped-IsAhead token entry more tables other h) t e
              (rw (← loop_skips token entry more n tables other) alive)
      ]

  -- What is retired stays so.
  pub retire_family-keeps :
      (more : Dict RefreshEntry) (n : ℕ) (tables : Tables) (t : String)
      → is_some (lookup t tables.retired_refresh) ≡ true
      → is_some (lookup t (retire_family family_id now more n tables).1.retired_refresh) ≡ true
  unfolding retire_family
  retire_family-keeps [] n tables t h = h
  retire_family-keeps ((token, entry) ∷ more) n tables t h =
      elim (Bool-cases (str_eq entry.family_id family_id)) [
        | inl same ↦ rw (loop_retires token entry more n tables same) (
            retire_family-keeps more (suc n) (retire token family_id now tables) t (
              ground (
                arith,
                lookup-insert token t (record { family_id = family_id; retired_at = now })
                    tables.retired_refresh,
                h,
              )))
        | inr other ↦
            rw (loop_skips token entry more n tables other) (retire_family-keeps more n tables t h)
      ]

  -- A token of the family is retired.
  pub retire_family-retires :
      (more : Dict RefreshEntry) (n : ℕ) (tables : Tables) (t : String) (e : RefreshEntry)
      → lookup t more ≡ some e
      → str_eq e.family_id family_id ≡ true
      → is_some (lookup t (retire_family family_id now more n tables).1.retired_refresh) ≡ true
  unfolding lookup
  retire_family-retires [] n tables t e h same = cc
  retire_family-retires ((token, entry) ∷ more) n tables t e h same =
      elim (Bool-cases (str_eq token t)) [
        | inl here ↦ rw (loop_retires token entry more n tables (ground (arith, h, same, here))) (
            retire_family-keeps more (suc n) (retire token family_id now tables) t (
              ground (
                arith,
                lookup-insert token t (record { family_id = family_id; retired_at = now })
                    tables.retired_refresh,
                here,
              )))
        | inr further ↦ elim (Bool-cases (str_eq entry.family_id family_id)) [
          | inl as_well ↦ rw (loop_retires token entry more n tables as_well) (
              retire_family-retires more (suc n) (retire token family_id now tables) t e
                (ground (arith, h, further)) same)
          | inr other ↦
              rw (loop_skips token entry more n tables other)
                (retire_family-retires more n tables t e (ground (arith, h, further)) same)
        ]
      ]

-- The loop changes the two tables of refresh tokens only, and none when it finds none.
pub retire_family-rest :
    (family_id : String) (now : ℕ) (rest : Dict RefreshEntry) (n : ℕ) (tables : Tables)
    → record tables {
      refresh_tokens = (retire_family family_id now rest n tables).1.refresh_tokens;
      retired_refresh = (retire_family family_id now rest n tables).1.retired_refresh;
    }
      ≡ (retire_family family_id now rest n tables).1
unfolding retire_family
retire_family-rest family_id now [] n tables = refl
retire_family-rest family_id now ((token, entry) ∷ rest) n tables =
    elim (Bool-cases (str_eq entry.family_id family_id)) [
      | inl same ↦
          rw same
            (retire_family-rest family_id now rest (suc n) (retire token family_id now tables))
      | inr other ↦ rw other (retire_family-rest family_id now rest n tables)
    ]

retire_family-count :
    (family_id : String) (now : ℕ) (rest : Dict RefreshEntry) (n : ℕ) (tables : Tables)
    → n ≤ (retire_family family_id now rest n tables).0
unfolding retire_family
retire_family-count family_id now [] n tables = omega arith
retire_family-count family_id now ((token, entry) ∷ rest) n tables =
    let found =
      retire_family-count family_id now rest (suc n) (retire token family_id now tables) in
    ground (arith, found, retire_family-count family_id now rest n tables)

pub retire_family-none :
    (family_id : String) (now : ℕ) (rest : Dict RefreshEntry) (n : ℕ) (tables : Tables)
    → (retire_family family_id now rest n tables).0 ≡ n
    → (retire_family family_id now rest n tables).1 ≡ tables
unfolding retire_family
retire_family-none family_id now [] n tables h = refl
retire_family-none family_id now ((token, entry) ∷ rest) n tables h =
    let found =
      retire_family-count family_id now rest (suc n) (retire token family_id now tables) in
    ground (arith, found, retire_family-none family_id now rest n tables, h)
