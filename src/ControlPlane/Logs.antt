-- ===== src/ControlPlane/Logs.antt =====
-- The tables of sqlite_workflow_store.cpp as logs: numbered from one, without a gap.
use mathlib.Core.List.{map-append}
use mathlib.Core.Option.{some-injective}
use task_orchestrator.Base.{
  ℕ, zero, suc, ◌≤◌, eqb, ◌≡◌, refl, sym, ap, subst, ◌∙◌, String, ◌==◌, eq_iff, eq_refl, false, not,
  ◌&&◌, List, [], ◌∷◌, ◌++◌, map, keep_if, find_if, some, All, All-append, All-mono, inl, inr,
  arith, Bool-cases, if◌then◌else◌,
}
use task_orchestrator.ControlPlane.Messages.{WorkflowRecord}
use task_orchestrator.ControlPlane.Store.{
  Row, SqliteWorkflowStore, insert_or_replace, of_workflow, upsert_row, upsert_workflow,
  get_workflow, has_id,
}

-- 1, 2, ..., n.
abbrev pub numbers : ℕ → List ℕ
numbers zero = []
numbers (suc n) = numbers n ++ suc n ∷ []

-- The numbers of a workflow's rows, in the order in which they were written.
abbrev pub IsLog : {M : Type 0} → (M → ℕ) → String → ℕ → List (Row M) → Type 0
IsLog number id n rows = map number (of_workflow id rows) ≡ numbers n

numbers-le : (n : ℕ) → All (λ k. k ≤ n) (numbers n)
numbers-le zero = tt
numbers-le (suc n) =
    All-append (λ k. k ≤ suc n) (numbers n) (suc n ∷ [])
      (All-mono (λ k. k ≤ n) (λ k. k ≤ suc n) (numbers n) (λ k h. omega arith) (numbers-le n))
      (omega arith, tt)

module _ {M : Type 0} (number : M → ℕ) (id : String) where
  of_workflow-append :
      (rows : List (Row M)) (r : Row M)
      → r.workflow_id ≡ id
      → of_workflow id (rows ++ r ∷ []) ≡ of_workflow id rows ++ r.message ∷ []
  of_workflow-append [] r e = rw (e, eq_refl id) refl
  of_workflow-append (x ∷ rows) r e = elim (Bool-cases (x.workflow_id == id)) [
    | inl h ↦ rw h (ap (λ l. x.message ∷ l) (of_workflow-append rows r e))
    | inr h ↦ rw h (of_workflow-append rows r e)
  ]

  -- No row goes where the number is new.
  abbrev others : ℕ → List (Row M) → List (Row M)
  others n rows = keep_if (λ r. not (r.workflow_id == id && eqb (number r.message) n)) rows

  of_workflow-others :
      (n : ℕ) (rows : List (Row M))
      → All (λ k. eqb k n ≡ false) (map number (of_workflow id rows))
      → of_workflow id (others n rows) ≡ of_workflow id rows
  of_workflow-others n [] a = refl
  of_workflow-others n (x ∷ rows) a = elim (Bool-cases (x.workflow_id == id)) [
    | inl h ↦
        let a' : All (λ k. eqb k n ≡ false) (number x.message ∷ map number (of_workflow id rows)) =
          rw h at a in
        rw (h, a'.0, h) (ap (λ l. x.message ∷ l) (of_workflow-others n rows a'.1))
    | inr h ↦ rw (h, h) (of_workflow-others n rows (rw h at a))
  ]

  -- The numbers of a log are below the next one.
  log-fresh :
      (n k : ℕ) (rows : List (Row M))
      → IsLog number id n rows
      → k ≡ suc n
      → All (λ j. eqb j k ≡ false) (map number (of_workflow id rows))
  log-fresh n k rows log next = subst (All (λ j. eqb j k ≡ false)) (sym log) (
      All-mono (λ j. j ≤ n) (λ j. eqb j k ≡ false) (numbers n) (λ j h. ground (arith, h, next))
        (numbers-le n))

  -- The next row of a log is appended to it.
  pub of_workflow-insert_or_replace :
      (n : ℕ) (rows : List (Row M)) (boot_id : String) (m : M)
      → IsLog number id n rows
      → number m ≡ suc n
      → of_workflow id (
          insert_or_replace
            (λ r. r.workflow_id == id && eqb (number r.message) (number m))
            (record { workflow_id = id; boot_id = boot_id; message = m })
            rows)
        ≡ of_workflow id rows ++ m ∷ []
  of_workflow-insert_or_replace n rows boot_id m log next =
      let row : Row M = record { workflow_id = id; boot_id = boot_id; message = m } in
      rw
        (
          of_workflow-append (others (number m) rows) row refl,
          of_workflow-others (number m) rows (log-fresh n (number m) rows log next),
        )
        refl

  pub insert_or_replace-IsLog :
      (n : ℕ) (rows : List (Row M)) (boot_id : String) (m : M)
      → IsLog number id n rows
      → number m ≡ suc n
      → IsLog number id (number m) (
          insert_or_replace
            (λ r. r.workflow_id == id && eqb (number r.message) (number m))
            (record { workflow_id = id; boot_id = boot_id; message = m })
            rows)
  insert_or_replace-IsLog n rows boot_id m log next =
      subst
        (λ k.
          map number (
            of_workflow id (
              others (number m) rows
              ++ (record { workflow_id = id; boot_id = boot_id; message = m }) ∷ []))
          ≡ numbers k)
        (sym next)
        (rw (of_workflow-insert_or_replace n rows boot_id m log next)
          (map-append number (of_workflow id rows) (m ∷ []) ∙ rw (log, next) refl))

module _ {C : Type 0} where
  upsert_row-find :
      (w : WorkflowRecord C) (rows : List (WorkflowRecord C)) (id : String)
      → find_if (has_id id) (upsert_row w rows)
        ≡ (if w.summary.workflow_id == id then some w else find_if (has_id id) rows)
  unfolding upsert_row
  upsert_row-find w [] id = refl
  upsert_row-find w (r ∷ rows) id = ground (
    arith,
    eq_iff w.summary.workflow_id id,
    eq_iff r.summary.workflow_id id,
    eq_iff r.summary.workflow_id w.summary.workflow_id,
    upsert_row-find w rows id,
  )

  pub get_workflow-upsert_workflow :
      (w : WorkflowRecord C) (store : SqliteWorkflowStore C) (id : String)
      → get_workflow id (upsert_workflow w store)
        ≡ (if w.summary.workflow_id == id then some w else get_workflow id store)
  unfolding get_workflow upsert_workflow
  get_workflow-upsert_workflow w store id = upsert_row-find w store.workflow_records id

  -- A record is found under its own id.
  find-has_id :
      (rows : List (WorkflowRecord C)) (id : String) {w : WorkflowRecord C}
      → find_if (has_id id) rows ≡ some w
      → w.summary.workflow_id ≡ id
  find-has_id [] id h = cc
  find-has_id (r ∷ rows) id {w} h = elim (Bool-cases (has_id id r)) [
    | inl e ↦
        let hit : some r ≡ some w = rw e at h in
        subst (λ (x : WorkflowRecord C). x.summary.workflow_id ≡ id) (some-injective r w hit)
          ((eq_iff r.summary.workflow_id id).0 e)
    | inr e ↦ find-has_id rows id (rw e at h)
  ]

  pub get_workflow-id :
      (store : SqliteWorkflowStore C) (id : String) {w : WorkflowRecord C}
      → get_workflow id store ≡ some w
      → w.summary.workflow_id ≡ id
  unfolding get_workflow
  get_workflow-id store id h = find-has_id store.workflow_records id h
