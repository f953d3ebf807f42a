-- ===== src/Effects.antt =====
-- A handler's run: a history of the calls of its injected dependencies, the latest first, and
-- exceptions. What a dependency answers may depend on the whole history; `none` is a call that
-- throws. A call stands in the history with its answer.
use eto_mcp.Prelude.{Option, none, some, Bool, true, false, List, ◌∷◌}
use eto_mcp.Prelude.Result.{Result, ok, err}

-- What ends a handler: its own rejection, or an error that it lets through.
pub data Failure (R : Type 0) : Type 0 where
  rejected : R → Failure R
  uncaught : Failure R

abbrev pub Action : Type 0 → Type 0 → Type 0 → Type 0
Action E R A = List E → Result (Failure R) A × List E

module _ {E R A : Type 0} where
  abbrev pub pure : A → Action E R A
  pure a log = (ok a, log)

  -- `throw new Rejected(r)`
  abbrev pub reject : R → Action E R A
  reject r log = (err (rejected r), log)

  -- The guards at the head of a handler touch nothing.
  abbrev pub check : Result R A → Action E R A
  check (ok a) log = (ok a, log)
  check (err r) log = (err (rejected r), log)

  -- An awaited call, entered in the history with its answer.
  abbrev pub attempt : (List E → Option A) → (Option A → E) → Action E R (Option A)
  attempt answer entry log = (ok (answer log), entry (answer log) ∷ log)

  -- `try { … } catch { throw new Rejected(r) }`
  abbrev pub or_reject : Option A → R → Action E R A
  or_reject none r log = (err (rejected r), log)
  or_reject (some a) r log = (ok a, log)

  -- A call outside any `try`.
  abbrev pub or_throw : Option A → Action E R A
  or_throw none log = (err uncaught, log)
  or_throw (some a) log = (ok a, log)

-- What follows a step that has ended.
abbrev pub continue :
    {E R A B : Type 0}
    → Result (Failure R) A × List E
    → (A → Action E R B)
    → Result (Failure R) B × List E
continue (ok a, log) f = f a log
continue (err e, log) f = (err e, log)

infixl 5 ◌>>=◌ ◌>>◌
abbrev pub ◌>>=◌ : {E R A B : Type 0} → Action E R A → (A → Action E R B) → Action E R B
◌>>=◌ m f log = continue (m log) f

abbrev pub ◌>>◌ : {E R B : Type 0} → Action E R (Unit {0}) → Action E R B → Action E R B
m >> k = m >>= λ _. k

abbrev pub reject_if : {E R : Type 0} → Bool → R → Action E R (Unit {0})
reject_if true r log = (err (rejected r), log)
reject_if false r log = (ok tt, log)
