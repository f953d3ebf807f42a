-- ===== src/Bank/Wire/Escrow.antt =====
-- What a wire leaves in escrow, for any request.
use eto_mcp.Prelude.{refl, [], ◌∷◌, none, ◌⊎◌, inr, arith, ◌≡◌, inl, ◌+◌, some, ℕ, List}
use eto_mcp.Prelude.Result.{err, ok, Result, Result-cases}
use eto_mcp.Bank.Wire.{
  WireRequest, Platform, WireDeps, WireEvent, WireReason, WireOutcome, locked, released, refunded,
  validate, execute_wire, refund_args, lock_failed, release_failed, RefundArgs,
}
use eto_mcp.Bank.Wire.Settlement.{Settles, execute_wire-Settles, execute_wire_refused}
use eto_mcp.Effects.{Failure, rejected, uncaught}

-- What the calls that succeeded have put into escrow, and taken out of it.
abbrev pub paid_in : List WireEvent → ℕ
paid_in [] = 0
paid_in (locked args (some _) ∷ log) = args.amount + args.fee + paid_in log
paid_in (_ ∷ log) = paid_in log

abbrev pub paid_out : List WireEvent → ℕ
paid_out [] = 0
paid_out (released args (some _) ∷ log) = args.amount + paid_out log
paid_out (refunded args (some _) ∷ log) = args.amount + args.fee + paid_out log
paid_out (_ ∷ log) = paid_out log

-- The change of the escrow, by how the wire ended.
abbrev pub Leaves :
    List WireEvent → Result (Failure WireReason) WireOutcome × List WireEvent → Type 0
Leaves log (ok out, after) =
    (paid_in after ≡ paid_in log + out.amount + out.fee)
    × (paid_out after ≡ paid_out log + out.amount)
Leaves log (err e, after) =
    ((paid_in after + paid_out log ≡ paid_in log + paid_out after))
    ⊎ ((args : RefundArgs) × (rest : List WireEvent) × (after ≡ refunded args none ∷ rest)
        × (paid_in after ≡ paid_in log + args.amount + args.fee)
        × (paid_out after ≡ paid_out log))

Settles-Leaves :
    (platform : Platform) (req : WireRequest) (deps : WireDeps) (amount : ℕ) (log : List WireEvent)
    (result : Result (Failure WireReason) WireOutcome × List WireEvent)
    → Settles platform req deps amount log result
    → Leaves log result
Settles-Leaves platform req deps amount log (ok out, after) ((sig, e), a, f) =
    rw (e, a, f) (omega arith, omega arith)
Settles-Leaves platform req deps amount log (err (rejected lock_failed), after) e =
    rw e (inl (omega arith))
Settles-Leaves platform req deps amount log (err (rejected release_failed), after) (sig, none, e) =
    rw e (inr (refund_args platform req deps amount, _, refl, omega arith, refl))
Settles-Leaves platform req deps amount log (err (rejected release_failed), after)
      (sig, some _, e) =
    rw e (inl (omega arith))
Settles-Leaves platform req deps amount log (err (rejected _), after) e = rw e (inl (omega arith))
Settles-Leaves platform req deps amount log (err uncaught, after) e = absurd e

-- For any request: a success leaves its fee in escrow and has paid out the amount. A failure leaves
-- what was in escrow before, unless its last call is a refund that failed: then amount and fee stay
-- in escrow.
pub execute_wire-Leaves :
    (platform : Platform) (req : WireRequest) (deps : WireDeps) (log : List WireEvent)
    → Leaves log (execute_wire platform req deps log)
execute_wire-Leaves platform req deps log = elim (Result-cases (validate req)) [
  | inl (r, e) ↦ rw (execute_wire_refused platform req deps 0 log r e) (inl (omega arith))
  | inr (amount, e) ↦
      Settles-Leaves platform req deps amount log _
        (execute_wire-Settles platform req deps amount log e)
]
