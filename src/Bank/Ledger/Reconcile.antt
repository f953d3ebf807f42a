-- ===== src/Bank/Ledger/Reconcile.antt =====
-- Balances against the recorded ramps.
use eto_mcp.Prelude.Result.{Result-cases, ok}
use eto_mcp.Bank.Ledger.Steps.{record_ramp_snapshot_inv, Ramped}
use eto_mcp.Bank.Ledger.{
  record_ramp_snapshot, record_ramp, Ledger, LedgerSnapshot, RampEvent, RampArgs, RampDirection,
  onramp, offramp, RampFilter, balance, ramped, matches, same_direction,
}
use eto_mcp.Prelude.{
  inr, ◌⊎◌, inl, or_default, ◌&&◌, ◌-◌, ap, if◌then◌else◌, arith, [], ◌∷◌, ◌++◌, ◌≤◌, ◌≡◌, select,
  some, ℕ, ◌+◌, List, Bool, String,
}
use eto_mcp.Prelude.Number.{safe_cents, f64_exact, max_safe}
use eto_mcp.Prelude.Dict.{lookup-insert, insert}
use eto_mcp.Prelude.Text.{str_eq_iff, str_eq}

abbrev pub cents_of : List RampEvent → ℕ
cents_of [] = 0
cents_of (e ∷ es) = e.amount_cents + cents_of es

-- `{ accountId: k, direction: d }`
abbrev pub filter_of : String → RampDirection → RampFilter
filter_of k d = record { account_id = some k; direction = some d }

-- What the ledger lists for one account and direction, in cents.
abbrev pub ramp_sum : String → RampDirection → LedgerSnapshot → ℕ
ramp_sum k d s = cents_of (select (matches (filter_of k d)) s.ramps)

cents_of-select_snoc :
    (p : RampEvent → Bool) (es : List RampEvent) (e : RampEvent)
    → cents_of (select p (es ++ e ∷ []))
      ≡ cents_of (select p es) + (if p e then e.amount_cents else 0)
cents_of-select_snoc p [] e = ground arith
cents_of-select_snoc p (x ∷ es) e = ground (arith, cents_of-select_snoc p es e)

pub balance-insert :
    (a k : String) (v : ℕ) (s s' : LedgerSnapshot)
    → s'.accounts ≡ insert a v s.accounts
    → balance k s' ≡ (if str_eq a k then v else balance k s)
unfolding balance
balance-insert a k v s s' h = rw h (rw lookup-insert (ground arith))

-- Every account holds what was ramped in less what was ramped out.
abbrev pub IsReconciled : LedgerSnapshot → Type 0
IsReconciled s = (k : String) → balance k s + ramp_sum k offramp s ≡ ramp_sum k onramp s

ramp_sum-snoc :
    (k : String) (d : RampDirection) (s s' : LedgerSnapshot) (e : RampEvent)
    → s'.ramps ≡ s.ramps ++ e ∷ []
    → ramp_sum k d s'
      ≡ ramp_sum k d s
        + (if str_eq e.account_id k && same_direction e.direction d then e.amount_cents else 0)
ramp_sum-snoc k d s s' e h = rw h (cents_of-select_snoc (matches (filter_of k d)) s.ramps e)

-- What a ramp adds to the account, or takes from it.
abbrev inflow : RampDirection → ℕ → ℕ
inflow onramp c = c
inflow offramp c = 0

abbrev outflow : RampDirection → ℕ → ℕ
outflow onramp c = 0
outflow offramp c = c

ramped_moves :
    (d : RampDirection) (k : String) (c : ℕ) (s : LedgerSnapshot) (next : ℕ)
    → ramped d k c s ≡ ok next
    → balance k s + c ≤ max_safe
    → next + outflow d c ≡ balance k s + inflow d c
unfolding ramped
ramped_moves onramp k c s next e q = ground (arith, f64_exact (balance k s + c))
ramped_moves offramp k c s next e q = ground (arith, f64_exact (balance k s - c))

-- Below 2^53 cents a recorded ramp keeps the accounts reconciled.
pub Ramped-IsReconciled :
    (args : RampArgs) (id : String) (now : ℕ) (s s' : LedgerSnapshot) (event : RampEvent)
    → IsReconciled s
    → balance args.account_id s + event.amount_cents ≤ max_safe
    → Ramped args id now s event s'
    → IsReconciled s'
Ramped-IsReconciled args id now s s' event h q r k =
    let sum : balance args.account_id s + r.cents ≤ max_safe = ground (arith, r.is_event) in
    ground (
      arith,
      h k,
      ramped_moves args.direction args.account_id r.cents s r.next r.moved sum,
      balance-insert args.account_id k r.next s s' (ap (λ t. t.accounts) r.written),
      ramp_sum-snoc k onramp s s' event (ap (λ t. t.ramps) r.written),
      ramp_sum-snoc k offramp s s' event (ap (λ t. t.ramps) r.written),
      str_eq_iff args.account_id k,
    )

-- A sequence of calls of `recordRamp`, each with the id and time drawn for it and the outcome of
-- its write; a call that throws is skipped by its caller.
pub record RampCall : Type 0 where
  pub args : RampArgs
  pub id : String
  pub now : ℕ
  pub persisted : Bool

unfoldable pub record_ramps : List RampCall → Ledger → Ledger
record_ramps [] l = l
record_ramps (c ∷ cs) l = record_ramps cs (record_ramp c.args c.id c.now c.persisted l).1

-- The cents that the calls ask for.
abbrev pub requested : List RampCall → ℕ
requested [] = 0
requested (c ∷ cs) = or_default (safe_cents c.args.amount_cents) 0 + requested cs

record_ramp-snap :
    (c : RampCall) (l : Ledger)
    → let l' = (record_ramp c.args c.id c.now c.persisted l).1 in
      (l'.snap ≡ l.snap) ⊎ ((event : RampEvent) × Ramped c.args c.id c.now l.snap event l'.snap)
unfolding record_ramp
record_ramp-snap c l = elim (Result-cases (record_ramp_snapshot c.args c.id c.now l.snap)) [
  | inl (failed, q) ↦ inl (ground arith)
  | inr ((event, s), q) ↦
      inr (event, record_ramp_snapshot_inv c.args c.id c.now l.snap _ event (ground arith))
]

balance-Ramped-le :
    (args : RampArgs) (id : String) (now : ℕ) (s s' : LedgerSnapshot) (event : RampEvent)
    (k : String)
    → balance args.account_id s + event.amount_cents ≤ max_safe
    → Ramped args id now s event s'
    → balance k s' ≤ balance k s + event.amount_cents
balance-Ramped-le args id now s s' event k q r =
    let sum : balance args.account_id s + r.cents ≤ max_safe = ground (arith, r.is_event) in
    ground (
      arith,
      ramped_moves args.direction args.account_id r.cents s r.next r.moved sum,
      balance-insert args.account_id k r.next s s' (ap (λ t. t.accounts) r.written),
      str_eq_iff args.account_id k,
    )

-- Whatever ramps are recorded, and whichever writes fail, reconciled accounts stay reconciled, if
-- each balance and all that is asked for together are a safe integer.
pub record_ramps-IsReconciled :
    (cs : List RampCall) (l : Ledger)
    → IsReconciled l.snap
    → ((k : String) → balance k l.snap + requested cs ≤ max_safe)
    → IsReconciled (record_ramps cs l).snap
unfolding record_ramps
record_ramps-IsReconciled [] l h q = h
record_ramps-IsReconciled (c ∷ cs) l h q =
    let l' = (record_ramp c.args c.id c.now c.persisted l).1 in
    elim (record_ramp-snap c l) [
      | inl same ↦ record_ramps-IsReconciled cs l' (rw same h) (λ k. rw same (omega (arith, q k)))
      | inr (event, r) ↦
          let amount : event.amount_cents ≡ or_default (safe_cents c.args.amount_cents) 0 =
            rw r.checked (ap (λ t. t.amount_cents) r.is_event) in
          let sum : balance c.args.account_id l.snap + event.amount_cents ≤ max_safe =
            omega (arith, q c.args.account_id, amount) in
          record_ramps-IsReconciled cs l'
            (Ramped-IsReconciled c.args c.id c.now l.snap l'.snap event h sum r)
            (λ k. omega (
              arith,
              q k,
              amount,
              balance-Ramped-le c.args c.id c.now l.snap l'.snap event k sum r,
            ))
    ]
