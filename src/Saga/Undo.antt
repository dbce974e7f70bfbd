-- ===== src/Saga/Undo.antt =====
-- What a run of `execute_with_compensation` (infra/plugins/transaction/coordinator.py) completes
-- and undoes.
use mathlib.Core.List.{append_assoc, append-nil, reverse-cons}
use fastapi_infra.Common.{
  string_eq, String, Bool, false, ◌||◌, some, is_some, List, [], ◌∷◌, ◌++◌, map, reverse, contains,
  contains-append, keep_if, ◌≡◌, refl, sym, subst, ◌⊎◌, arith, Option-cases, inl, inr, is_empty,
}
use fastapi_infra.Common.Int.{ℤ}
use fastapi_infra.Common.Result.{Result, ok, err, >>=-eq-ok}
use fastapi_infra.Saga.{
  Operation, OperationFailure, TransactionResult, Progress, Report, no_progress, compensate_one,
  compensate_each, compensate, add_done, add_failed, give_up, execute_operation,
  validate_operations, execute_each, after, execute_with_compensation,
}

abbrev pub failure_names : {E : Type 0} → List (OperationFailure E) → List String
failure_names = map (λ f. f.operation)

failure_names-append :
    {E : Type 0} (xs ys : List (OperationFailure E)) (n : String)
    → contains (failure_names (xs ++ ys)) n
      ≡ (contains (failure_names xs) n || contains (failure_names ys) n)
failure_names-append [] ys n = refl
failure_names-append (x ∷ xs) ys n = ground (arith, failure_names-append xs ys n)

-- Undone, or reported as not undone.
abbrev pub attempted : {E : Type 0} → Report E → String → Bool
attempted (done, failures) n = contains done n || contains (failure_names failures) n

module _ {E A W : Type 0} where
  abbrev pub has_undo : Operation E A W → Bool
  has_undo op = is_some op.compensate

  abbrev pub names : List (Operation E A W) → List String
  names = map (λ op. op.name)

  -- The names of the steps that can be undone.
  abbrev pub undoable : List (Operation E A W) → List String
  undoable ops = names (keep_if has_undo ops)

  undoable-append :
      (xs ys : List (Operation E A W)) (n : String)
      → contains (undoable (xs ++ ys)) n ≡ (contains (undoable xs) n || contains (undoable ys) n)
  undoable-append [] ys n = refl
  undoable-append (x ∷ xs) ys n = ground (arith, undoable-append xs ys n)

  undoable-reverse :
      (xs : List (Operation E A W)) (n : String)
      → contains (undoable (reverse xs)) n ≡ contains (undoable xs) n
  undoable-reverse [] n = refl
  undoable-reverse (x ∷ xs) n =
      ground
        (arith, reverse-cons x xs, undoable-append (reverse xs) (x ∷ []) n, undoable-reverse xs n)

  compensate_one-attempted :
      (op : Operation E A W) (report : Report E) (w : W) (n : String)
      → attempted (compensate_one op report w).0 n
        ≡ (attempted report n || contains (undoable (op ∷ [])) n)
  unfolding compensate_one
  compensate_one-attempted op (done, failures) w n = elim (Option-cases op.compensate) [
    | inl h ↦ ground arith
    | inr (undo, h) ↦ elim (Option-cases (undo w).0) [
      | inl fine ↦ ground (arith, contains-append done (op.name ∷ []) n)
      | inr (e, bad) ↦
          ground (
            arith,
            failure_names-append failures (record { operation = op.name; error = e } ∷ []) n,
          )
    ]
  ]

  compensate_each-attempted :
      (ops : List (Operation E A W)) (report : Report E) (w : W) (n : String)
      → attempted (compensate_each ops report w).0 n
        ≡ (attempted report n || contains (undoable ops) n)
  unfolding compensate_each
  compensate_each-attempted [] report w n = ground arith
  compensate_each-attempted (op ∷ ops) report w n =
      let (report', w') = compensate_one op report w in
      ground (
        arith,
        compensate_each-attempted ops report' w' n,
        compensate_one-attempted op report w n,
        undoable-append (op ∷ []) ops n,
      )

  compensate-attempted :
      (ops : List (Operation E A W)) (w : W) (n : String)
      → attempted (compensate ops w).0 n ≡ contains (undoable ops) n
  unfolding compensate
  compensate-attempted ops w n =
      ground (arith, compensate_each-attempted (reverse ops) ([], []) w n, undoable-reverse ops n)

  -- A run that stopped at a failure: the steps before it ran, those behind it did not, and what
  -- was undone, or reported as not undone, is what could be undone.
  abbrev pub IsUndone : List (Operation E A W) → Progress E A W → TransactionResult E A → Type 0
  IsUndone ops p r =
      (front back : List (Operation E A W)) × (bad : Operation E A W) × (e : E) × (ops
        ≡ front ++ bad ∷ back)
      × (r.success ≡ false)
      × (r.completed_operations ≡ p.completed ++ names front)
      × (r.failed_operations ≡ p.failed ++ record { operation = bad.name; error = e } ∷ [])
      × (r.error ≡ some e)
      × ((n : String)
          → attempted (r.compensated_operations, r.compensation_failures) n
            ≡ (contains (undoable p.compensation_stack) n || contains (undoable front) n))

  -- A run to the end.
  abbrev pub IsDone : List (Operation E A W) → Progress E A W → TransactionResult E A → Type 0
  IsDone ops p r =
      (r.success ≡ is_empty p.failed)
      × (r.completed_operations ≡ p.completed ++ names ops)
      × (r.failed_operations ≡ p.failed)
      × (r.compensated_operations ≡ [])
      × (r.compensation_failures ≡ [])

  cons-IsUndone :
      (op : Operation E A W) (a : A) (ops : List (Operation E A W)) (p : Progress E A W)
      (r : TransactionResult E A)
      → IsUndone ops (add_done op a p) r
      → IsUndone (op ∷ ops) p r
  cons-IsUndone op a ops p r (front, back, bad, e, split, failure, ran, lost, why, undone) = (
    op ∷ front,
    back,
    bad,
    e,
    ground arith,
    failure,
    ground (arith, append_assoc p.completed (op.name ∷ []) (names front)),
    lost,
    why,
    λ n. ground (arith, undone n, undoable-append p.compensation_stack (op ∷ []) n),
  )

  give_up-IsUndone :
      (op : Operation E A W) (ops : List (Operation E A W)) (p : Progress E A W) (e : E) (w : W)
      → IsUndone (op ∷ ops) p (give_up (add_failed op e p) e w).0
  unfolding give_up
  give_up-IsUndone op ops p e w = (
    [],
    ops,
    op,
    e,
    refl,
    refl,
    sym (append-nil p.completed),
    refl,
    refl,
    λ n. ground (arith, compensate-attempted p.compensation_stack w n),
  )

  after-outcome :
      (op : Operation E A W) (ops : List (Operation E A W)) (p : Progress E A W)
      (rest : Progress E A W → W → TransactionResult E A × W) (o : Result E A × W)
      → ((q : Progress E A W) (w : W) → IsDone ops q (rest q w).0 ⊎ IsUndone ops q (rest q w).0)
      → IsDone (op ∷ ops) p (after false op p rest o).0
        ⊎ IsUndone (op ∷ ops) p (after false op p rest o).0
  unfolding after
  after-outcome op ops p rest (ok a, w) next = elim (next (add_done op a p) w) [
    | inl (fine, ran, lost, undone, missed) ↦ inl (
      fine,
      ground (arith, append_assoc p.completed (op.name ∷ []) (names ops)),
      lost,
      undone,
      missed,
    )
    | inr undone ↦ inr (cons-IsUndone op a ops p (rest (add_done op a p) w).0 undone)
  ]
  after-outcome op ops p rest (err e, w) next = inr (give_up-IsUndone op ops p e w)

module _ {E A W : Type 0} (wait_for : ℤ → (W → Result E A × W) → W → Result E A × W) where
  run-outcome :
      (ops : List (Operation E A W)) (p : Progress E A W) (w : W)
      → IsDone ops p (execute_each wait_for false ops p w).0
        ⊎ IsUndone ops p (execute_each wait_for false ops p w).0
  unfolding execute_each
  run-outcome [] p w = inl (refl, sym (append-nil p.completed), refl, refl, refl)
  run-outcome (op ∷ ops) p w =
      after-outcome op ops p (execute_each wait_for false ops) (execute_operation wait_for op w)
        (run-outcome ops)

  -- Without `continue_on_error`, a transaction whose operations are valid either succeeds with
  -- every operation completed and none undone, or fails: then the completed operations are those
  -- before the first failure, that failure is the one reported, and the operations undone, or
  -- reported as not undone, are the completed ones that have a compensation.
  pub execute_with_compensation-outcome :
      (ops : List (Operation E A W)) (w w' : W) (r : TransactionResult E A)
      → execute_with_compensation wait_for ops false w ≡ ok (r, w')
      → IsDone ops no_progress r ⊎ IsUndone ops no_progress r
  unfolding execute_with_compensation
  execute_with_compensation-outcome ops w w' r h =
      let (u, valid, same) = >>=-eq-ok (validate_operations ops) _ h in
      subst (λ t. IsDone ops no_progress t ⊎ IsUndone ops no_progress t)
        {x = (execute_each wait_for false ops no_progress w).0} {y = r} (ground arith)
        (run-outcome ops no_progress w)
