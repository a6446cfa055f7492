-- ===== src/ControlPlane/Intervened.antt =====
-- control_plan_service.cpp: a manual intervention comes to its end on every branch.
use task_orchestrator.Base.{
  ℕ, ℤ, ◌≡◌, refl, sym, subst, inl, inr, String, Option, some, Option-cases, >>=-some, arith,
}
use task_orchestrator.PlanDiff.{RuntimeApiResponse}
use task_orchestrator.ControlPlane.Messages.{
  WorkflowRecord, WorkflowActionResponse, SubmitWorkflowRequest, ReorchestrateRequest,
  ManualInterventionRequest,
}
use task_orchestrator.ControlPlane.Store.{get_workflow}
use task_orchestrator.ControlPlane.Service.{
  WorkflowRuntimeService, ControlPlanService, record_audit, read_clock, audit_of, not_found,
  action_failed,
}
use task_orchestrator.ControlPlane.Streams.{stream_reorchestrate}
use task_orchestrator.ControlPlane.Events.{consume_final_response}
use task_orchestrator.ControlPlane.Calls.{
  reorchestrate, reorchestrate_request, intervention_response, intervene, apply_manual_intervention,
}
use task_orchestrator.ControlPlane.Consistent.{
  IsConsistent, IsConsistent-IsLogged, IsLogged-IsConsistent, stream_reorchestrate-Ends,
}
use task_orchestrator.ControlPlane.Actions.{
  record_audit-some, on_workflow_missing, on_workflow_found,
}

module _ {R C A O : Type 0} (clock : ℕ → ℤ) (runtime : WorkflowRuntimeService R C A O)
    (fingerprint_submit : SubmitWorkflowRequest C A → String)
    (fingerprint_reorchestrate : ReorchestrateRequest A O → String) where
  reorchestrate-some :
      (request : ReorchestrateRequest A O) (s : ControlPlanService R C)
      → IsConsistent request.workflow_id s.store
      → (s' : ControlPlanService R C) × (response : RuntimeApiResponse) × (reorchestrate clock
            runtime fingerprint_submit fingerprint_reorchestrate request s
          ≡ some (s', response))
        × IsConsistent request.workflow_id s'.store
  unfolding reorchestrate
  reorchestrate-some request s h =
      let (s', events, e, h', _) =
        stream_reorchestrate-Ends clock runtime fingerprint_submit fingerprint_reorchestrate request
          s h in
      (
        s',
        consume_final_response events,
        >>=-some
            (stream_reorchestrate clock runtime fingerprint_submit fingerprint_reorchestrate request
              s)
            _ e refl,
        h',
      )

  -- An intervention that comes to its end, with the workflow as it is stored then, if it is.
  abbrev pub Intervenes :
      String → Option (ControlPlanService R C × WorkflowActionResponse C) → Type 0
  Intervenes id result =
      (s' : ControlPlanService R C) × (response : WorkflowActionResponse C) × (result
        ≡ some (s', response))
      × IsConsistent id s'.store
      × (response.workflow ≡ get_workflow id s'.store)

  intervene-Intervenes :
      (request : ManualInterventionRequest A O) (w : WorkflowRecord C) (s : ControlPlanService R C)
      → get_workflow request.workflow_id s.store ≡ some w
      → IsConsistent request.workflow_id s.store
      → Intervenes request.workflow_id
          (intervene clock runtime fingerprint_submit fingerprint_reorchestrate request w s)
  unfolding intervene
  intervene-Intervenes request w s found h =
      let id = request.workflow_id in
      let (now, s1) = read_clock clock s in
      let entry =
        audit_of request.actor "manual_intervention" request.note "Manual intervention applied." now
          w in
      let (s2, e2, h2, _) =
        record_audit-some id entry w s1 (IsConsistent-IsLogged id s.store found h) (omega arith) in
      let r =
        reorchestrate_request clock runtime fingerprint_submit fingerprint_reorchestrate request in
      let (s3, response, e3, h3) = reorchestrate-some r s2 (IsLogged-IsConsistent id s2.store h2) in
      (
        s3,
        intervention_response clock runtime fingerprint_submit fingerprint_reorchestrate id s3
            response,
        >>=-some (record_audit id entry w s1) _ e2 (
            >>=-some (reorchestrate clock runtime fingerprint_submit fingerprint_reorchestrate r s2)
              _ e3 refl),
        h3,
        refl,
      )

  -- A manual intervention comes to its end on every branch, leaves the workflow consistent and
  -- returns the record that is stored then, if there is one; where the workflow is consistent
  -- before.
  pub apply_manual_intervention-Intervenes :
      (request : ManualInterventionRequest A O) (s : ControlPlanService R C)
      → IsConsistent request.workflow_id s.store
      → Intervenes request.workflow_id (
          apply_manual_intervention clock runtime fingerprint_submit fingerprint_reorchestrate
            request s)
  unfolding apply_manual_intervention
  apply_manual_intervention-Intervenes request s h =
      let id = request.workflow_id in
      let act = intervene clock runtime fingerprint_submit fingerprint_reorchestrate request in
      elim (Option-cases (get_workflow id s.store)) [
        | inl e ↦ (s, action_failed not_found, on_workflow_missing id act s e, h, sym e)
        | inr (w, e) ↦
            subst (Intervenes id) (sym (on_workflow_found id act s e))
              (intervene-Intervenes request w s e h)
      ]
