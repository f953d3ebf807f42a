-- ===== src/Bank/Ledger/Persistence.antt =====
-- What `persist` writes, `open` reads back.
use eto_mcp.Prelude.Result.{err}
use eto_mcp.Prelude.{
  arith, none, ◌<◌, ℕ, ◌≡◌, refl, ◌≤◌, some, List, [], ◌∷◌, All, le→leb, Option-cases, inl, inr,
}
use eto_mcp.Bank.Ledger.Steps.{commit_inv, credit_snapshot_inv}
use eto_mcp.Prelude.Dict.{lookup, lookup-insert_self, Dict}
use eto_mcp.Bank.Ledger.{
  credit_snapshot, corrupt_schema, contents, ok, true, Ledger, Bool, Number, String, Mutation,
  open_ledger, commit, credit, LedgerSnapshot, RampEvent, RampDirection, onramp, offramp,
}
use eto_mcp.Prelude.Json.{Json}
use eto_mcp.Prelude.Number.{nat, max_safe, safe_cents}
use eto_mcp.Bank.Ledger.Schema.{
  encode, decode, encode_event, encode_events, encode_accounts, decode_event, decode_events,
  decode_accounts, decode_direction, encode_direction,
}
use eto_mcp.Bank.Ledger.Validity.{IsValid, IsValidEvent, IsValidAccounts}

safe_cents_of_le : (n : ℕ) → n ≤ max_safe → safe_cents (nat n) ≡ some n
safe_cents_of_le n h = rw (le→leb n max_safe h)

decode_accounts-encode_accounts :
    (d : Dict ℕ) → IsValidAccounts d → decode_accounts (encode_accounts d) ≡ some d
unfolding decode_accounts
decode_accounts-encode_accounts [] h = refl
decode_accounts-encode_accounts ((k, v) ∷ d) (p, q, h) =
    rw (p, safe_cents_of_le v q, decode_accounts-encode_accounts d h)

decode_direction-encode_direction :
    (d : RampDirection) → decode_direction (encode_direction d) ≡ some d
decode_direction-encode_direction onramp = refl
decode_direction-encode_direction offramp = refl

-- The fields in front of the memo are found in front of any rest.
decode_event-encode_event :
    (e : RampEvent) → IsValidEvent e → decode_event (encode_event e) ≡ some e
unfolding decode_event
decode_event-encode_event e h = elim (Option-cases e.memo) [
  | inl none_given ↦ rw (
    none_given,
    h.has_id,
    decode_direction-encode_direction e.direction,
    h.has_account,
    safe_cents_of_le e.amount_cents h.safe,
    h.has_eusd,
    ← none_given,
  )
  | inr (memo, given) ↦ rw (
    given,
    h.has_id,
    decode_direction-encode_direction e.direction,
    h.has_account,
    safe_cents_of_le e.amount_cents h.safe,
    h.has_eusd,
  )
]

decode_events-encode_events :
    (es : List RampEvent) → All IsValidEvent es → decode_events (encode_events es) ≡ some es
unfolding decode_events
decode_events-encode_events [] h = refl
decode_events-encode_events (e ∷ es) (p, h) =
    rw (decode_event-encode_event e p, decode_events-encode_events es h)

-- A valid snapshot is read back as it was written.
pub decode-encode : (s : LedgerSnapshot) → IsValid s → decode (encode s) ≡ some s
unfolding decode encode
decode-encode s h = rw (
  decode_accounts-encode_accounts s.accounts h.accounts,
  decode_events-encode_events s.ramps h.ramps,
)

-- If a method succeeds and leaves a valid snapshot, it has written a file from which opening gives
-- the same instance again.
pub open_ledger-commit :
    {A : Type 0} (mutation : Mutation A) (persisted p : Bool) (l l' : Ledger) (answer : A)
    → commit persisted mutation l ≡ (ok answer, l')
    → IsValid l'.snap
    → (json : Json) × (l'.file ≡ some json) × (open_ledger (contents (some json)) p ≡ ok l')
unfolding open_ledger
open_ledger-commit mutation persisted p l l' answer e h =
    let (done, ran, wrote) = commit_inv mutation persisted l l' answer e in
    (encode l'.snap, wrote, ground (arith, decode-encode l'.snap h))

-- One balance above the safe integers spoils the whole file.
decode_accounts_unsafe :
    (k : String) (v : ℕ) (d : Dict ℕ)
    → lookup k d ≡ some v
    → max_safe < v
    → decode_accounts (encode_accounts d) ≡ none
unfolding decode_accounts lookup
decode_accounts_unsafe k v [] e h = cc
decode_accounts_unsafe k v ((j, w) ∷ d) e h = ground (arith, decode_accounts_unsafe k v d)

decode_unsafe :
    (k : String) (v : ℕ) (s : LedgerSnapshot)
    → lookup k s.accounts ≡ some v
    → max_safe < v
    → decode (encode s) ≡ none
unfolding decode encode
decode_unsafe k v s e h = rw (decode_accounts_unsafe k v s.accounts e h)

-- A credit that succeeds with a balance past the safe integers has written a file that does not open.
pub credit_overflow :
    (k : String) (n : Number) (l l' : Ledger) (next : ℕ) (p : Bool)
    → credit k n true l ≡ (ok next, l')
    → max_safe < next
    → (json : Json) × (l'.file ≡ some json)
      × (open_ledger (contents (some json)) p ≡ err corrupt_schema)
unfolding credit open_ledger
credit_overflow k n l l' next p e h =
    let (done, ran, wrote) = commit_inv (credit_snapshot k n) true l l' next e in
    let c = credit_snapshot_inv k n l.snap l'.snap next ran in
    let found : lookup k l'.snap.accounts ≡ some next =
      rw c.written (lookup-insert_self k next l.snap.accounts) in
    (encode l'.snap, wrote, rw (decode_unsafe k next l'.snap found h, open_ledger))
