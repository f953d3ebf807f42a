-- ===== src/Bank/Ledger/Serial.antt =====
-- However calls interleave on the queue, they take effect one after the other, in the order in
-- which they were submitted.
use eto_mcp.Bank.Ledger.Queue.{
  here, idle, next, Reach, written, begin, settle, submit, Step, Queue, Op, Reply, start, settled,
  writing, call, finish, run_calls,
}
use eto_mcp.Prelude.{◌∙◌, sym, ap, none, some, Option, refl, [], ◌∷◌, arith, ◌++◌, ◌≡◌, Bool, List}
use mathlib.Core.List.{append_assoc}
use eto_mcp.Bank.Ledger.{Ledger, LedgerSnapshot, commit, credit, debit, record_ramp}

-- A method is its first part, then the end of its write.
call-start_settled :
    (op : Op) (p : Bool) (l : Ledger) (r : Reply) → start op l ≡ settled r → call op p l ≡ (r, l)
unfolding start call credit debit record_ramp commit
call-start_settled (Op.get_balance k) p l r e = ground arith
call-start_settled (Op.credit k n) p l r e = ground arith
call-start_settled (Op.debit k n) p l r e = ground arith
call-start_settled (Op.record_ramp a i t) p l r e = ground arith
call-start_settled (Op.list_ramps f) p l r e = ground arith

call-start_writing :
    (op : Op) (p : Bool) (l : Ledger) (r : Reply) (s : LedgerSnapshot)
    → start op l ≡ writing r s
    → call op p l ≡ finish r p (record l { snap = s })
unfolding start call credit debit record_ramp commit
call-start_writing (Op.get_balance k) p l r s e = ground arith
call-start_writing (Op.credit k n) p l r s e = ground arith
call-start_writing (Op.debit k n) p l r s e = ground arith
call-start_writing (Op.record_ramp a i t) p l r s e = ground arith
call-start_writing (Op.list_ramps f) p l r s e = ground arith

run_calls-snoc :
    (cs : List (Op × Bool)) (op : Op) (p : Bool) (l : Ledger)
    → let (rs, l') = run_calls cs l in
      let (r, l'') = call op p l' in run_calls (cs ++ (op, p) ∷ []) l ≡ (rs ++ r ∷ [], l'')
unfolding run_calls
run_calls-snoc [] op p l = refl
run_calls-snoc ((o, b) ∷ cs) op p l = rw (run_calls-snoc cs op p (call o b l).1)

run_calls-snoc_call :
    (cs : List (Op × Bool)) (op : Op) (p : Bool) (l l'' : Ledger) (r : Reply)
    → call op p (run_calls cs l).1 ≡ (r, l'')
    → run_calls (cs ++ (op, p) ∷ []) l ≡ ((run_calls cs l).0 ++ r ∷ [], l'')
run_calls-snoc_call cs op p l l'' r e = rw (run_calls-snoc cs op p l, e)

-- Between the ledger l that the settled calls leave and the instance: nothing, or one call whose
-- snapshot is in memory and not yet in the file.
abbrev pub InFlight : Option (Op × Reply) → Ledger → Ledger → Type 0
InFlight none l now = now ≡ l
InFlight (some (op, r)) l now = (start op l ≡ writing r now.snap) × (now.file ≡ l.file)

abbrev pub in_flight : Option (Op × Reply) → List Op
in_flight none = []
in_flight (some (op, r)) = op ∷ []

abbrev pub ops : List (Op × Bool) → List Op
ops [] = []
ops ((op, p) ∷ cs) = op ∷ ops cs

pub record IsSerial (l : Ledger) (q : Queue) : Type 0 where
  pub answers : (run_calls q.calls l).0 ≡ q.replies
  pub state : InFlight q.running (run_calls q.calls l).1 q.ledger
  pub order : q.submitted ≡ ops q.calls ++ (in_flight q.running ++ q.waiting)

ops-snoc :
    (cs : List (Op × Bool)) (op : Op) (p : Bool) (w : List Op)
    → ops (cs ++ (op, p) ∷ []) ++ w ≡ ops cs ++ (op ∷ w)
ops-snoc [] op p w = refl
ops-snoc ((o, b) ∷ cs) op p w = rw (ops-snoc cs op p w)

Step-IsSerial : (l : Ledger) {q q' : Queue} → Step q q' → IsSerial l q → IsSerial l q'
Step-IsSerial l (submit q op) h = record {
  answers = h.answers;
  state = h.state;
  order = rw h.order (simp append_assoc);
}
Step-IsSerial l (settle q {op} {rest} {r} p idle waits e) h =
    let same : q.ledger ≡ (run_calls q.calls l).1 = rw idle at h.state in
    let called = call-start_settled op p (run_calls q.calls l).1 r (rw same at e) in
    let ran = run_calls-snoc_call q.calls op p l _ r called in
    record {
      answers = rw (ran, h.answers);
      state = rw (idle, ran) same;
      order = rw (h.order, idle, waits, ops-snoc);
    }
Step-IsSerial l (begin q {op} {rest} {r} {s} idle waits e) h =
    let same : q.ledger ≡ (run_calls q.calls l).1 = rw idle at h.state in
    record {
      answers = h.answers;
      state = (rw same at e, ap (λ t. t.file) same);
      order = rw (h.order, idle, waits);
    }
Step-IsSerial l (written q {op} {r} p busy) h =
    let flight : (start op (run_calls q.calls l).1 ≡ writing r q.ledger.snap)
        × (q.ledger.file ≡ (run_calls q.calls l).1.file) =
      rw busy at h.state in
    let whole : record (run_calls q.calls l).1 { snap = q.ledger.snap } ≡ q.ledger =
      λ i. record { snap = q.ledger.snap; file = sym flight.1 i } in
    let called =
      call-start_writing op p (run_calls q.calls l).1 r q.ledger.snap flight.0
      ∙ ap (finish r p) whole in
    let ran = run_calls-snoc_call q.calls op p l _ _ called in
    record { answers = rw (ran, h.answers); state = rw ran; order = rw (h.order, busy, ops-snoc) }

Reach-IsSerial : (l : Ledger) {q q' : Queue} → IsSerial l q → Reach q q' → IsSerial l q'
Reach-IsSerial l h here = h
Reach-IsSerial l h (next r st) = Step-IsSerial l st (Reach-IsSerial l h r)

-- In every state that the queue reaches, the settled calls have the answers of uninterrupted
-- methods run one after the other in the order of submission, and the ledger is theirs, but for
-- at most one call whose write is in flight.
pub queue-IsSerial : (l : Ledger) {q : Queue} → Reach (idle l) q → IsSerial l q
unfolding run_calls
queue-IsSerial l r = Reach-IsSerial l (record { answers = refl; state = refl; order = refl }) r
