-- ===== src/Bank/Ledger/Schema.antt =====
-- The JSON of a snapshot in mock-usd-ledger.ts: what `persist` writes, and what the zod schema
-- `zLedgerSnapshot` accepts when `open` reads it back.
use eto_mcp.Prelude.{ℕ, String, Option, none, some, List, [], ◌∷◌, if◌then◌else◌, ◌==◌}
use eto_mcp.Prelude.Number.{nat, safe_cents}
use eto_mcp.Prelude.Text.{is_empty, str_eq}
use eto_mcp.Prelude.Dict.{Dict}
use eto_mcp.Prelude.Json.{Json, num, str, arr, obj, Items, nil, cons, Fields, end, field, member}
use eto_mcp.Bank.Ledger.Snapshot.{RampDirection, onramp, offramp, RampEvent, LedgerSnapshot}

abbrev pub encode_direction : RampDirection → Json
encode_direction onramp = str "onramp"
encode_direction offramp = str "offramp"

-- `JSON.stringify` leaves an absent memo out.
abbrev pub encode_memo : Option String → Fields → Fields
encode_memo none rest = rest
encode_memo (some memo) rest = field "memo" (str memo) rest

abbrev pub encode_event : RampEvent → Json
encode_event e = obj (
    field "id" (str e.id) (
      field "direction" (encode_direction e.direction) (
        field "accountId" (str e.account_id) (
          field "amountCents" (num (nat e.amount_cents)) (
            field "eusdAmount" (str e.eusd_amount)
              (encode_memo e.memo (field "createdAt" (num (nat e.created_at)) end)))))))

abbrev pub encode_events : List RampEvent → Items
encode_events [] = nil
encode_events (e ∷ es) = cons (encode_event e) (encode_events es)

abbrev pub encode_accounts : Dict ℕ → Fields
encode_accounts [] = end
encode_accounts ((k, v) ∷ d) =
    field k (obj (field "balanceCents" (num (nat v)) end)) (encode_accounts d)

unfoldable pub encode : LedgerSnapshot → Json
encode s = obj (
    field "version" (num (nat 1)) (
      field "accounts" (obj (encode_accounts s.accounts))
        (field "ramps" (arr (encode_events s.ramps)) end)))

infixl 5 ◌>>=◌
abbrev pub ◌>>=◌ {ℓ κ} : {A : Type ℓ} {B : Type κ} → Option A → (A → Option B) → Option B
none >>= k = none
some a >>= k = k a

-- `zCents`
abbrev pub decode_cents : Json → Option ℕ
decode_cents (num n) = safe_cents n
decode_cents _ = none

-- `z.string().min(1)`
abbrev pub decode_text : Json → Option String
decode_text (str s) = if is_empty s then none else some s
decode_text _ = none

abbrev pub decode_direction : Json → Option RampDirection
decode_direction (str s) =
    if str_eq s "onramp" then some onramp else if str_eq s "offramp" then some offramp else none
decode_direction _ = none

-- `z.string().optional()`
abbrev pub decode_memo : Option Json → Option (Option String)
decode_memo none = some none
decode_memo (some (str s)) = some (some s)
decode_memo (some _) = none

-- `z.number().int().nonnegative()`
abbrev pub decode_time : Json → Option ℕ
decode_time (num (nat n)) = some n
decode_time _ = none

abbrev pub decode_event_fields : Fields → Option RampEvent
decode_event_fields fs = do
  id ← member "id" fs >>= decode_text
  direction ← member "direction" fs >>= decode_direction
  account_id ← member "accountId" fs >>= decode_text
  amount_cents ← member "amountCents" fs >>= decode_cents
  eusd_amount ← member "eusdAmount" fs >>= decode_text
  memo ← decode_memo (member "memo" fs)
  created_at ← member "createdAt" fs >>= decode_time
  some (record {
    id = id;
    direction = direction;
    account_id = account_id;
    amount_cents = amount_cents;
    eusd_amount = eusd_amount;
    memo = memo;
    created_at = created_at;
  })

-- `zRampEvent`
unfoldable pub decode_event : Json → Option RampEvent
decode_event (obj fs) = decode_event_fields fs
decode_event _ = none

unfoldable pub decode_events : Items → Option (List RampEvent)
decode_events nil = some []
decode_events (cons v vs) = do e ← decode_event v; es ← decode_events vs; some (e ∷ es)

abbrev pub decode_account : Json → Option ℕ
decode_account (obj fs) = member "balanceCents" fs >>= decode_cents
decode_account _ = none

-- `z.record(zAccountId, z.object({ balanceCents: zCents }))`
unfoldable pub decode_accounts : Fields → Option (Dict ℕ)
decode_accounts end = some []
decode_accounts (field k v fs) = do
  account ← if is_empty k then none else some k
  balance ← decode_account v
  rest ← decode_accounts fs
  some ((account, balance) ∷ rest)

abbrev pub decode_version : Json → Option (Unit {0})
decode_version (num (nat n)) = if n == 1 then some tt else none
decode_version _ = none

abbrev pub decode_accounts_json : Json → Option (Dict ℕ)
decode_accounts_json (obj fs) = decode_accounts fs
decode_accounts_json _ = none

abbrev pub decode_ramps_json : Json → Option (List RampEvent)
decode_ramps_json (arr vs) = decode_events vs
decode_ramps_json _ = none

abbrev decode_fields : Fields → Option LedgerSnapshot
decode_fields fs = do
  _ ← member "version" fs >>= decode_version
  accounts ← member "accounts" fs >>= decode_accounts_json
  ramps ← member "ramps" fs >>= decode_ramps_json
  some (record { accounts = accounts; ramps = ramps })

-- `zLedgerSnapshot.safeParse`
unfoldable pub decode : Json → Option LedgerSnapshot
decode (obj fs) = decode_fields fs
decode _ = none
