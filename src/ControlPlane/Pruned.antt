-- ===== src/ControlPlane/Pruned.antt =====
-- sqlite_workflow_store.cpp: what prune_stale_boot_data deletes and what it leaves.
use task_orchestrator.Base.{
  ℕ, ◌+◌, ◌≤◌, ℤ, ltb_ℤ, ◌≡◌, refl, sym, ◌⊎◌, inl, inr, ◌==◌, eq_refl, Bool, false, not, List, [],
  ◌∷◌, length, some, keep_if, In, subst, arith, Bool-cases, Option-cases, ◌↔◌, eq_iff, none,
}
use task_orchestrator.ControlPlane.Messages.{
  WorkflowSummary, WorkflowRecord, WorkflowEventRecord, WorkflowPlanVersion, AuditEntry,
}
use task_orchestrator.ControlPlane.Store.{Row, IdempotencyRow, SqliteWorkflowStore, get_workflow}
use task_orchestrator.ControlPlane.Storage.{
  is_stale, StoragePruneResult, is_below, prune_stale_boot_data, stale_event, stale_plan,
  stale_audit, stale_key,
}

module _ {A : Type 0} (p : A → Bool) where
  length-split :
      (xs : List A) → length xs ≡ length (keep_if (λ x. not (p x)) xs) + length (keep_if p xs)
  length-split [] = refl
  length-split (x ∷ xs) = ground (arith, length-split xs)

  In-keep_if : (x : A) (xs : List A) → p x ≡ false → In x xs → In x (keep_if (λ x. not (p x)) xs)
  In-keep_if x (y ∷ ys) h (inl e) = rw (subst (λ z. p z ≡ false) (sym e) h) (inl e)
  In-keep_if x (y ∷ ys) h (inr m) = elim (Bool-cases (p y)) [
    | inl e ↦ rw e (In-keep_if x ys h m)
    | inr e ↦ rw e (inr (In-keep_if x ys h m))
  ]
  In-keep_if x [] h m = elim m [ ]

  keep_if-In : (x : A) (xs : List A) → In x (keep_if (λ x. not (p x)) xs) → In x xs × (p x ≡ false)
  keep_if-In x [] m = absurd m
  keep_if-In x (y ∷ ys) m = elim (Bool-cases (p y)) [
    | inl e ↦ let (there, out) = keep_if-In x ys (rw e at m) in (inr there, out)
    | inr e ↦
        let m' : In x (y ∷ keep_if (λ x. not (p x)) ys) = rw e at m in
        elim m' [
          | inl same ↦ (inl same, subst (λ z. p z ≡ false) same e)
          | inr later ↦ let (there, out) = keep_if-In x ys later in (inr there, out)
        ]
  ]

module _ {C : Type 0} (before : ℤ) (store : SqliteWorkflowStore C) where
  abbrev pub pruned : SqliteWorkflowStore C
  pruned = (prune_stale_boot_data before store).0

  abbrev pub result : StoragePruneResult
  result = (prune_stale_boot_data before store).1

  -- A row that is not to go: written in this boot, not recorded before the time, or the newest.
  abbrev pub IsRetained : {M : Type 0} → (M → ℕ) → (M → ℤ) → (WorkflowSummary → ℕ) → Row M → Type 0
  IsRetained number recorded_at count r =
      (r.boot_id ≡ store.current_boot_id)
      ⊎ ((ltb_ℤ (recorded_at r.message) before ≡ false)
          ⊎ ((w : WorkflowRecord C) × (get_workflow r.workflow_id store ≡ some w)
              × (count w.summary ≤ number r.message)))

  IsRetained-is_stale :
      {M : Type 0} (number : M → ℕ) (recorded_at : M → ℤ) (count : WorkflowSummary → ℕ) (r : Row M)
      → IsRetained number recorded_at count r
      → is_stale number recorded_at count before store r ≡ false
  unfolding is_stale
  IsRetained-is_stale number recorded_at count r (inl e) =
      rw (e, eq_refl store.current_boot_id) refl
  IsRetained-is_stale number recorded_at count r (inr (inl e)) =
      elim (Bool-cases (r.boot_id == store.current_boot_id)) [
        | inl b ↦ rw b refl
        | inr b ↦ rw (b, e) refl
      ]
  IsRetained-is_stale number recorded_at count r (inr (inr (w, found, newest))) =
      let below : is_below count (number r.message) (get_workflow r.workflow_id store) ≡ false =
        rw found (ground (arith, newest)) in
      elim (Bool-cases (r.boot_id == store.current_boot_id)) [
        | inl b ↦ rw b refl
        | inr b ↦ elim (Bool-cases (ltb_ℤ (recorded_at r.message) before)) [
          | inl t ↦ rw (b, t) below
          | inr t ↦ rw (b, t) refl
        ]
      ]

  -- A row of the pruned table: a row of the table that is retained, or has no record.
  abbrev pub IsLeft :
      {M : Type 0} → (M → ℕ) → (M → ℤ) → (WorkflowSummary → ℕ) → Row M → List (Row M) → Type 0
  IsLeft number recorded_at count r rows =
      In r rows
      × (IsRetained number recorded_at count r ⊎ (get_workflow r.workflow_id store ≡ none))

  module _ {M : Type 0} (number : M → ℕ) (recorded_at : M → ℤ) (count : WorkflowSummary → ℕ) where
    abbrev stale : Row M → Bool
    stale = is_stale number recorded_at count before store

    is_stale-IsLeft :
        (r : Row M) (rows : List (Row M))
        → stale r ≡ false
        → In r rows
        → IsLeft number recorded_at count r rows
    unfolding is_stale
    is_stale-IsLeft r rows h m = elim (Bool-cases (r.boot_id == store.current_boot_id)) [
      | inl b ↦ (m, inl (inl ((eq_iff r.boot_id store.current_boot_id).0 b)))
      | inr b ↦ elim (Bool-cases (ltb_ℤ (recorded_at r.message) before)) [
        | inr t ↦ (m, inl (inr (inl t)))
        | inl t ↦ elim (Option-cases (get_workflow r.workflow_id store)) [
          | inl missing ↦ (m, inr missing)
          | inr (w, found) ↦
              let below : is_below count (number r.message) (some w) ≡ false =
                rw (b, t, found) at h in
              (m, inl (inr (inr (w, found, ground (arith, below)))))
        ]
      ]
    ]

    missing-is_stale : (r : Row M) → get_workflow r.workflow_id store ≡ none → stale r ≡ false
    unfolding is_stale
    missing-is_stale r missing = elim (Bool-cases (r.boot_id == store.current_boot_id)) [
      | inl b ↦ rw b refl
      | inr b ↦ elim (Bool-cases (ltb_ℤ (recorded_at r.message) before)) [
        | inl t ↦ rw (b, t, missing) refl
        | inr t ↦ rw (b, t) refl
      ]
    ]

    keep_if-IsLeft :
        (rows : List (Row M)) (r : Row M)
        → In r (keep_if (λ r. not (stale r)) rows) ↔ IsLeft number recorded_at count r rows
    keep_if-IsLeft rows r = (
      λ m. let (there, kept) = keep_if-In stale r rows m in is_stale-IsLeft r rows kept there,
      λ (m, why).
          In-keep_if stale r rows
            (elim why [
              | inl retained ↦ IsRetained-is_stale number recorded_at count r retained
              | inr missing ↦ missing-is_stale r missing
            ])
            m,
    )

  -- A key of the pruned table: one of the table that was written in this boot, or not before the
  -- time.
  abbrev pub IsLeftKey : IdempotencyRow → Type 0
  IsLeftKey r =
      In r store.idempotency_records
      × ((r.boot_id ≡ store.current_boot_id) ⊎ (ltb_ℤ r.message.recorded_at_unix_ms before ≡ false))

  keep_if-IsLeftKey :
      (r : IdempotencyRow)
      → In r (keep_if (λ r. not (stale_key before store r)) store.idempotency_records) ↔ IsLeftKey r
  keep_if-IsLeftKey r = (
    λ m.
        let (there, kept) = keep_if-In (stale_key before store) r store.idempotency_records m in
        (
          there,
          elim (Bool-cases (r.boot_id == store.current_boot_id)) [
            | inl b ↦ inl ((eq_iff r.boot_id store.current_boot_id).0 b)
            | inr b ↦ inr (rw b at kept)
          ],
        ),
    λ (m, why).
        In-keep_if (stale_key before store) r store.idempotency_records
          (elim why [
            | inl own ↦ rw (own, eq_refl store.current_boot_id) refl
            | inr recent ↦ ground (arith, recent)
          ])
          m,
  )

  -- After prune_stale_boot_data the events, plan versions and audit entries stored are exactly
  -- those that were stored and were written in this boot, or not recorded before the time, or have
  -- a number that is not below what their workflow's record counts, or belong to a workflow
  -- without a record; the idempotency keys are exactly those that were written in this boot or not
  -- recorded before the time; and of each table as many rows are gone as it reports.
  pub prune_stale_boot_data-exact :
      ((r : Row WorkflowEventRecord)
        → In r pruned.workflow_events
          ↔ IsLeft WorkflowEventRecord.sequence WorkflowEventRecord.recorded_at_unix_ms
              WorkflowSummary.total_event_count r store.workflow_events)
      × ((r : Row WorkflowPlanVersion)
          → In r pruned.workflow_plan_versions
            ↔ IsLeft WorkflowPlanVersion.version WorkflowPlanVersion.recorded_at_unix_ms
                WorkflowSummary.latest_plan_version r store.workflow_plan_versions)
      × ((r : Row AuditEntry)
          → In r pruned.workflow_audit_entries
            ↔ IsLeft AuditEntry.sequence AuditEntry.recorded_at_unix_ms
                WorkflowSummary.total_audit_entry_count r store.workflow_audit_entries)
      × ((r : IdempotencyRow) → In r pruned.idempotency_records ↔ IsLeftKey r)
      × (length store.workflow_events ≡ length pruned.workflow_events + result.pruned_event_rows)
      × (length store.workflow_plan_versions
          ≡ length pruned.workflow_plan_versions + result.pruned_plan_version_rows)
      × (length store.workflow_audit_entries
          ≡ length pruned.workflow_audit_entries + result.pruned_audit_entry_rows)
      × (length store.idempotency_records
          ≡ length pruned.idempotency_records + result.pruned_idempotency_rows)
  unfolding prune_stale_boot_data
  prune_stale_boot_data-exact = (
    keep_if-IsLeft WorkflowEventRecord.sequence WorkflowEventRecord.recorded_at_unix_ms
        WorkflowSummary.total_event_count store.workflow_events,
    keep_if-IsLeft WorkflowPlanVersion.version WorkflowPlanVersion.recorded_at_unix_ms
        WorkflowSummary.latest_plan_version store.workflow_plan_versions,
    keep_if-IsLeft AuditEntry.sequence AuditEntry.recorded_at_unix_ms
        WorkflowSummary.total_audit_entry_count store.workflow_audit_entries,
    keep_if-IsLeftKey,
    length-split (stale_event before store) store.workflow_events,
    length-split (stale_plan before store) store.workflow_plan_versions,
    length-split (stale_audit before store) store.workflow_audit_entries,
    length-split (stale_key before store) store.idempotency_records,
  )
