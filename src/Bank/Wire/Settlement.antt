-- ===== src/Bank/Wire/Settlement.antt =====
-- Which calls a wire makes, in which order and for which amounts, by how it ended.
use eto_mcp.Prelude.{refl, none, inr, ◌∷◌, inl, some, Option-cases, String, ◌≡◌, Option, List, ℕ}
use eto_mcp.Prelude.Result.{err, ok, Result}
use eto_mcp.Bank.Wire.{
  WireRequest, Platform, WireDeps, WireEvent, WireReason, WireOutcome, Receipt, locked, released,
  refunded, validate, execute_wire, lock_args, release_args, refund_args, lock_failed,
  release_failed,
}
use eto_mcp.Effects.{Failure, rejected, uncaught}

module _ (platform : Platform) (req : WireRequest) (deps : WireDeps) (amount : ℕ)
    (log : List WireEvent) where
  abbrev pub lock_entry : Option String → WireEvent
  lock_entry = locked (lock_args platform req deps amount)

  abbrev pub release_entry : Option Receipt → WireEvent
  release_entry = released (release_args platform req deps amount)

  abbrev pub refund_entry : Option String → WireEvent
  refund_entry = refunded (refund_args platform req deps amount)

  -- The history of calls, by how the request ended.
  abbrev pub Settles : Result (Failure WireReason) WireOutcome × List WireEvent → Type 0
  Settles (ok out, after) =
      ((sig : String) × (after ≡ release_entry (some out.receipt) ∷ lock_entry (some sig) ∷ log))
      × (out.amount ≡ amount)
      × (out.fee ≡ deps.fee_for req.kind amount)
  Settles (err (rejected lock_failed), after) = after ≡ lock_entry none ∷ log
  Settles (err (rejected release_failed), after) =
      (sig : String) × (refund : Option String) × (after
        ≡ refund_entry refund ∷ release_entry none ∷ lock_entry (some sig) ∷ log)
  Settles (err (rejected _), after) = after ≡ log
  Settles (err uncaught, after) = ⊥

  -- For a request that the guards accept: a success has locked amount and fee and then released the
  -- amount. A release that fails is followed by one refund of amount and fee. A failed lock is the
  -- last call made, another rejection makes no call, and no error is let through.
  pub execute_wire-Settles : validate req ≡ ok amount → Settles (execute_wire platform req deps log)
  unfolding execute_wire
  execute_wire-Settles h =
      elim (Option-cases (deps.lock_escrow log (lock_args platform req deps amount))) [
        | inl e ↦ rw (h, e, execute_wire) refl
        | inr (sig, e) ↦
            elim (Option-cases (
              deps.release_escrow (lock_entry (some sig) ∷ log)
                (release_args platform req deps amount))) [
                  | inl e1 ↦ rw (h, e, e1, execute_wire) (sig, _, refl)
                  | inr (receipt, e1) ↦ rw (h, e, e1, execute_wire) ((sig, refl), refl, refl)
                ]
      ]

  pub execute_wire_refused :
      (r : WireReason)
      → validate req ≡ err r
      → execute_wire platform req deps log ≡ (err (rejected r), log)
  unfolding execute_wire
  execute_wire_refused r h = rw h
