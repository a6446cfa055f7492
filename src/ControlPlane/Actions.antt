-- ===== src/ControlPlane/Actions.antt =====
-- control_plan_service.cpp: what an operator's actions leave in the store, on both of their branches.
use task_orchestrator.Base.{
  ℕ, suc, ℤ, ◌≡◌, refl, sym, ap, subst, ◌⊎◌, inl, inr, String, ◌==◌, eqb, ◌&&◌, true, Option, none,
  some, is_some, arith, Option-cases, >>=-some,
}
use task_orchestrator.ControlPlane.Messages.{
  WorkflowLifecycleState, paused, cancelled, WorkflowRecord, AuditEntry, ActionRequest,
  WorkflowActionResponse,
}
use task_orchestrator.ControlPlane.Store.{
  SqliteWorkflowStore, insert_or_replace, upsert_workflow, get_workflow, is_referenced,
  write_audit_entry,
}
use task_orchestrator.ControlPlane.Service.{
  ControlPlanService, publish_workflow_update, with_store, read_clock, not_found, action_failed,
  action_done, with_state, counting_audit, audit_of, resumed_state, record_audit, on_workflow,
  change_state, pause_workflow, resume_workflow, cancel_workflow,
}
use task_orchestrator.ControlPlane.Logs.{insert_or_replace-IsLog, get_workflow-id}
use task_orchestrator.ControlPlane.Persisted.{AreLogs, IsLogged}
use task_orchestrator.ControlPlane.Recorded.{
  publish_workflow_update-store, publish_workflow_update-runtime, upsert_workflow-IsLogged,
}
use task_orchestrator.ControlPlane.Consistent.{IsConsistent, IsConsistent-IsLogged}

module _ {C : Type 0} (id : String) where
  abbrev written : AuditEntry → SqliteWorkflowStore C → SqliteWorkflowStore C
  written entry store = record store {
    workflow_audit_entries =
        insert_or_replace (λ r. r.workflow_id == id && eqb r.message.sequence entry.sequence)
          (record { workflow_id = id; boot_id = store.current_boot_id; message = entry })
          store.workflow_audit_entries;
  }

  write_audit_entry-some :
      (entry : AuditEntry) (store : SqliteWorkflowStore C)
      → is_referenced id store ≡ true
      → write_audit_entry id entry store ≡ some (written entry store)
  unfolding write_audit_entry
  write_audit_entry-some entry store referenced = rw referenced refl

  written-AreLogs :
      (entry : AuditEntry) (store : SqliteWorkflowStore C) {audits events plans : ℕ}
      → AreLogs id events plans audits store
      → entry.sequence ≡ suc audits
      → AreLogs id events plans entry.sequence (written entry store)
  written-AreLogs entry store {audits} logs next = record {
    of_events = logs.of_events;
    of_plans = logs.of_plans;
    of_audits =
        insert_or_replace-IsLog AuditEntry.sequence id audits store.workflow_audit_entries
          store.current_boot_id entry logs.of_audits next;
  }

module _ {R C : Type 0} where
  pub record_audit-some :
      (id : String) (entry : AuditEntry) (w : WorkflowRecord C) (s : ControlPlanService R C)
      → IsLogged id w s.store
      → entry.sequence ≡ suc (w.summary.total_audit_entry_count)
      → (s' : ControlPlanService R C) × (record_audit id entry w s ≡ some s')
        × IsLogged id (counting_audit entry.sequence w) s'.store
        × (s'.runtime ≡ s.runtime)
  unfolding record_audit get_workflow
  record_audit-some id entry w s h next =
      let w1 = counting_audit entry.sequence w in
      let s1 = with_store (upsert_workflow w1 (written id entry s.store)) s in
      (
        publish_workflow_update id s1,
        >>=-some (write_audit_entry id entry s.store) _
            (write_audit_entry-some id entry s.store (ap is_some h.found)) refl,
        subst (IsLogged id w1) (sym (publish_workflow_update-store id s1)) (
            upsert_workflow-IsLogged id w1 (written id entry s.store)
              (get_workflow-id s.store id h.found) (written-AreLogs id entry s.store h.logs next)),
        publish_workflow_update-runtime id s1,
      )

module _ {R C : Type 0} (id : String) (s : ControlPlanService R C) where
  -- The record w was changed into w': its state is another, and one audit entry more is stored.
  pub record IsChanged (state : WorkflowLifecycleState) (w w' : WorkflowRecord C)
      (s' : ControlPlanService R C) : Type 0 where
    pub logged : IsLogged id w' s'.store
    pub new_state : w'.summary.state ≡ state
    pub new_audits : w'.summary.total_audit_entry_count ≡ suc (w.summary.total_audit_entry_count)
    pub same_events : w'.summary.total_event_count ≡ w.summary.total_event_count
    pub same_plans : w'.summary.latest_plan_version ≡ w.summary.latest_plan_version
    pub same_config : w'.config ≡ w.config
    pub same_runtime : s'.runtime ≡ s.runtime

  abbrev pub Changes :
      WorkflowLifecycleState
      → WorkflowRecord C
      → Option (ControlPlanService R C × WorkflowActionResponse C)
      → Type 0
  Changes state w result =
      (s' : ControlPlanService R C) × (w' : WorkflowRecord C) × (result ≡ some (s', action_done w'))
      × IsChanged state w w' s'

  -- An action on the record of the workflow: where there is none it fails and changes nothing.
  abbrev pub Acts :
      (WorkflowRecord C → WorkflowLifecycleState)
      → Option (ControlPlanService R C × WorkflowActionResponse C)
      → Type 0
  Acts state result =
      ((get_workflow id s.store ≡ none) × (result ≡ some (s, action_failed not_found)))
      ⊎ ((w : WorkflowRecord C) × (get_workflow id s.store ≡ some w) × Changes (state w) w result)

module _ {R C : Type 0} (id : String)
    (act : WorkflowRecord C
      → ControlPlanService R C
      → Option (ControlPlanService R C × WorkflowActionResponse C))
    (s : ControlPlanService R C) where
  pub on_workflow_missing :
      get_workflow id s.store ≡ none → on_workflow id act s ≡ some (s, action_failed not_found)
  unfolding on_workflow
  on_workflow_missing e = rw (e, on_workflow) refl

  pub on_workflow_found :
      {w : WorkflowRecord C} → get_workflow id s.store ≡ some w → on_workflow id act s ≡ act w s
  unfolding on_workflow
  on_workflow_found e = rw (e, on_workflow) refl

module _ {R C : Type 0} (clock : ℕ → ℤ) where
  change_state-Changes :
      (state : WorkflowLifecycleState) (action default : String) (request : ActionRequest)
      (w : WorkflowRecord C) (s : ControlPlanService R C)
      → IsLogged request.workflow_id w s.store
      → Changes request.workflow_id s state w (change_state clock state action default request w s)
  unfolding change_state
  change_state-Changes state action default request w s h =
      let id = request.workflow_id in
      let (now, s1) = read_clock clock s in
      let w1 = with_state state now w in
      let s2 = with_store (upsert_workflow w1 s1.store) s1 in
      let (then_, s3) = read_clock clock s2 in
      let entry = audit_of request.actor action request.reason default then_ w1 in
      let (s4, e, h4, r) =
        record_audit-some id entry w1 s3
          (upsert_workflow-IsLogged id w1 s.store (get_workflow-id s.store id h.found) h.logs)
          (omega arith) in
      (
        s4,
        counting_audit entry.sequence w1,
        >>=-some (record_audit id entry w1 s3) _ e refl,
        record {
          logged = h4;
          new_state = refl;
          new_audits = omega arith;
          same_events = refl;
          same_plans = refl;
          same_config = refl;
          same_runtime = r;
        },
      )

  on_workflow-Acts :
      (state : WorkflowRecord C → WorkflowLifecycleState) (action default : String)
      (request : ActionRequest) (s : ControlPlanService R C)
      → IsConsistent request.workflow_id s.store
      → Acts request.workflow_id s state (
          on_workflow request.workflow_id
            (λ w. change_state clock (state w) action default request w)
            s)
  unfolding on_workflow
  on_workflow-Acts state action default request s h =
      let id = request.workflow_id in
      let act : WorkflowRecord C
          → ControlPlanService R C
          → Option (ControlPlanService R C × WorkflowActionResponse C) =
        λ w. change_state clock (state w) action default request w in
      elim (Option-cases (get_workflow id s.store)) [
        | inl e ↦ inl (e, on_workflow_missing id act s e)
        | inr (w, e) ↦ inr (
          w,
          e,
          subst (Changes id s (state w) w) (sym (on_workflow_found id act s e)) (
              change_state-Changes (state w) action default request w s
                (IsConsistent-IsLogged id s.store e h)),
        )
      ]

  pub pause_workflow-Acts :
      (request : ActionRequest) (s : ControlPlanService R C)
      → IsConsistent request.workflow_id s.store
      → Acts request.workflow_id s (λ w. paused) (pause_workflow clock request s)
  unfolding pause_workflow
  pause_workflow-Acts request s h =
      on_workflow-Acts (λ w. paused) "pause" "Workflow paused from the control plane." request s h

  pub resume_workflow-Acts :
      (request : ActionRequest) (s : ControlPlanService R C)
      → IsConsistent request.workflow_id s.store
      → Acts request.workflow_id s resumed_state (resume_workflow clock request s)
  unfolding resume_workflow
  resume_workflow-Acts request s h =
      on_workflow-Acts resumed_state "resume" "Workflow resumed from the control plane." request s h

  pub cancel_workflow-Acts :
      (request : ActionRequest) (s : ControlPlanService R C)
      → IsConsistent request.workflow_id s.store
      → Acts request.workflow_id s (λ w. cancelled) (cancel_workflow clock request s)
  unfolding cancel_workflow
  cancel_workflow-Acts request s h =
      on_workflow-Acts (λ w. cancelled) "cancel" "Workflow cancelled from the control plane."
        request s h

  -- Pausing, resuming and cancelling a workflow fails and changes nothing where it has no record;
  -- else it gives the record its new state, keeps the counts of events and plan versions, stores
  -- one audit entry more, and leaves the workflow consistent and the runtime as it is. Where the
  -- workflow is consistent before.
  pub actions-Acts :
      (request : ActionRequest) (s : ControlPlanService R C)
      → IsConsistent request.workflow_id s.store
      → Acts request.workflow_id s (λ w. paused) (pause_workflow clock request s)
        × Acts request.workflow_id s resumed_state (resume_workflow clock request s)
        × Acts request.workflow_id s (λ w. cancelled) (cancel_workflow clock request s)
  actions-Acts request s h = (
    pause_workflow-Acts request s h,
    resume_workflow-Acts request s h,
    cancel_workflow-Acts request s h,
  )
