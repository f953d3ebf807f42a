-- ===== src/Bank/Ledger/Validity.antt =====
-- When a snapshot passes its own schema, and which operations keep it so.
use eto_mcp.Prelude.{
  ℕ, String, false, ◌≡◌, ◌≤◌, some, [], ◌∷◌, arith, All, All-append, Option-cases, inl, inr,
  or_default, ◌+◌,
}
use eto_mcp.Prelude.Number.{Number, max_safe, safe_cents, f64_exact}
use eto_mcp.Prelude.Result.{ok}
use eto_mcp.Prelude.Text.{is_empty}
use eto_mcp.Prelude.Dict.{Dict, lookup, insert}
use eto_mcp.Bank.Ledger.Steps.{record_ramp_snapshot_inv}
use eto_mcp.Bank.Ledger.{
  LedgerSnapshot, RampEvent, RampArgs, RampDirection, onramp, offramp, balance, withdrawn, ramped,
  credit_snapshot, debit_snapshot, record_ramp_snapshot,
}

abbrev pub IsValidAccounts : Dict ℕ → Type 0
IsValidAccounts [] = Unit
IsValidAccounts ((k, v) ∷ d) = (is_empty k ≡ false) × (v ≤ max_safe) × IsValidAccounts d

pub record IsValidEvent (e : RampEvent) : Type 0 where
  pub has_id : is_empty e.id ≡ false
  pub has_account : is_empty e.account_id ≡ false
  pub safe : e.amount_cents ≤ max_safe
  pub has_eusd : is_empty e.eusd_amount ≡ false

pub record IsValid (s : LedgerSnapshot) : Type 0 where
  pub accounts : IsValidAccounts s.accounts
  pub ramps : All IsValidEvent s.ramps

pub insert-IsValidAccounts :
    (k : String) (v : ℕ) (d : Dict ℕ)
    → is_empty k ≡ false
    → v ≤ max_safe
    → IsValidAccounts d
    → IsValidAccounts (insert k v d)
unfolding insert
insert-IsValidAccounts k v [] p q h = (p, q, tt)
insert-IsValidAccounts k v ((j, w) ∷ d) p q h = ground (arith, insert-IsValidAccounts k v d p q h.2)

lookup-le-max_safe :
    (k : String) (d : Dict ℕ) (v : ℕ) → IsValidAccounts d → lookup k d ≡ some v → v ≤ max_safe
unfolding lookup
lookup-le-max_safe k [] v h e = cc
lookup-le-max_safe k ((j, w) ∷ d) v h e = ground (arith, lookup-le-max_safe k d v h.2)

pub balance-le-max_safe : (k : String) (s : LedgerSnapshot) → IsValid s → balance k s ≤ max_safe
unfolding balance
balance-le-max_safe k s h = elim (Option-cases (lookup k s.accounts)) [
  | inl e ↦ rw e (omega arith)
  | inr (v, e) ↦ rw e (lookup-le-max_safe k s.accounts v h.accounts e)
]

pub safe_cents_bound : (n : Number) (c : ℕ) → safe_cents n ≡ some c → c ≤ max_safe
safe_cents_bound n c h = ground arith

pub credit_snapshot-IsValid :
    (k : String) (n : Number) (s s' : LedgerSnapshot) (next : ℕ)
    → IsValid s
    → credit_snapshot k n s ≡ ok (next, s')
    → next ≤ max_safe
    → IsValid s'
unfolding credit_snapshot
credit_snapshot-IsValid k n s s' next h e q =
    ground (arith, insert-IsValidAccounts k next s.accounts)

withdrawn-le :
    (k : String) (c : ℕ) (s : LedgerSnapshot) (next : ℕ)
    → IsValid s
    → withdrawn k c s ≡ ok next
    → next ≤ max_safe
unfolding withdrawn
withdrawn-le k c s next h e =
    ground (arith, balance-le-max_safe k s h, f64_exact (Prim.Native.Nat.◌-◌ (balance k s) c))

pub debit_snapshot-IsValid :
    (k : String) (n : Number) (s s' : LedgerSnapshot) (next : ℕ)
    → IsValid s
    → debit_snapshot k n s ≡ ok (next, s')
    → IsValid s'
unfolding debit_snapshot
debit_snapshot-IsValid k n s s' next h e = ground (
  arith,
  withdrawn-le k (or_default (safe_cents n) 0) s next h,
  insert-IsValidAccounts k next s.accounts,
)

ramped-le :
    (d : RampDirection) (k : String) (c : ℕ) (s : LedgerSnapshot) (next : ℕ)
    → IsValid s
    → balance k s + c ≤ max_safe
    → ramped d k c s ≡ ok next
    → next ≤ max_safe
unfolding ramped
ramped-le onramp k c s next h q e = ground (arith, f64_exact (balance k s + c))
ramped-le offramp k c s next h q e = withdrawn-le k c s next h e

-- A ramp that is recorded keeps a valid snapshot valid, if its id is not empty and the sum of
-- balance and amount is safe.
pub record_ramp_snapshot-IsValid :
    (args : RampArgs) (id : String) (now : ℕ) (s s' : LedgerSnapshot) (event : RampEvent)
    → IsValid s
    → record_ramp_snapshot args id now s ≡ ok (event, s')
    → is_empty id ≡ false
    → balance args.account_id s + event.amount_cents ≤ max_safe
    → IsValid s'
record_ramp_snapshot-IsValid args id now s s' event h e p q =
    let r = record_ramp_snapshot_inv args id now s s' event e in
    let sum : balance args.account_id s + r.cents ≤ max_safe = ground (arith, r.is_event) in
    let le = ramped-le args.direction args.account_id r.cents s r.next h sum r.moved in
    let safe = safe_cents_bound args.amount_cents r.cents r.checked in
    rw (r.written, r.is_event)
      (record {
        accounts = insert-IsValidAccounts args.account_id r.next s.accounts r.named le h.accounts;
        ramps =
            All-append IsValidEvent s.ramps _ h.ramps (
              record { has_id = p; has_account = r.named; safe = safe; has_eusd = r.has_eusd },
              tt,
            );
      })
