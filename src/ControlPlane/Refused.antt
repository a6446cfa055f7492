-- ===== src/ControlPlane/Refused.antt =====
-- control_plan_service.cpp: a workflow that is paused or cancelled is not re-orchestrated.
use task_orchestrator.Base.{ℕ, ℤ, ◌≡◌, refl, sym, subst, inl, inr, String, Bool, Option, some}
use task_orchestrator.ControlPlane.Messages.{
  WorkflowLifecycleState, paused, cancelled, WorkflowRecord, ActionRequest, WorkflowActionResponse,
  SubmitWorkflowRequest, ReorchestrateRequest,
}
use task_orchestrator.ControlPlane.Store.{get_workflow}
use task_orchestrator.ControlPlane.Service.{
  WorkflowRuntimeService, ControlPlanService, action_done, pause_workflow, cancel_workflow,
}
use task_orchestrator.ControlPlane.Streams.{
  refusal, is_stale_version, reorchestrate_record, stream_reorchestrate,
}
use task_orchestrator.ControlPlane.Events.{make_runtime_error, rejection}
use task_orchestrator.ControlPlane.Consistent.{IsConsistent}
use task_orchestrator.ControlPlane.Actions.{Acts, pause_workflow-Acts, cancel_workflow-Acts}

module _ {R C A O : Type 0} (clock : ℕ → ℤ) (runtime : WorkflowRuntimeService R C A O)
    (fingerprint_submit : SubmitWorkflowRequest C A → String)
    (fingerprint_reorchestrate : ReorchestrateRequest A O → String) where
  -- The stream is one rejection, and the service stays as it is.
  abbrev pub IsRejected : String → ReorchestrateRequest A O → ControlPlanService R C → Type 0
  IsRejected message request s =
      stream_reorchestrate clock runtime fingerprint_submit fingerprint_reorchestrate request s
      ≡ some (s, rejection request.workflow_id (make_runtime_error message))

  abbrev pub refusal_of : ReorchestrateRequest A O → WorkflowRecord C → Option String
  refusal_of request w =
      refusal clock runtime fingerprint_submit fingerprint_reorchestrate w.summary.state (
        is_stale_version clock runtime fingerprint_submit fingerprint_reorchestrate
          request.expected_plan_version w)

  refusal-IsRejected :
      (request : ReorchestrateRequest A O) (s : ControlPlanService R C) (w : WorkflowRecord C)
      (message : String)
      → get_workflow request.workflow_id s.store ≡ some w
      → refusal_of request w ≡ some message
      → IsRejected message request s
  unfolding stream_reorchestrate reorchestrate_record
  refusal-IsRejected request s w message found refused =
      rw (found, refused, stream_reorchestrate, reorchestrate_record) refl

  abbrev pub Stops :
      String
      → ReorchestrateRequest A O
      → Option (ControlPlanService R C × WorkflowActionResponse C)
      → Type 0
  Stops message request result =
      (s' : ControlPlanService R C) × (w' : WorkflowRecord C) × (result ≡ some (s', action_done w'))
      × IsRejected message request s'

  Acts-Stops :
      (id message : String) (state : WorkflowLifecycleState) (request : ReorchestrateRequest A O)
      (w : WorkflowRecord C) (s : ControlPlanService R C)
      {result : Option (ControlPlanService R C × WorkflowActionResponse C)}
      → ((stale : Bool)
          → refusal clock runtime fingerprint_submit fingerprint_reorchestrate state stale
            ≡ some message)
      → get_workflow id s.store ≡ some w
      → request.workflow_id ≡ id
      → Acts id s (λ w. state) result
      → Stops message request result
  Acts-Stops id message state request w s refused found e (inl (missing, h)) =
      absurd (cc (found, missing))
  Acts-Stops id message state request w s refused found e (inr (w0, e0, (s', w', h, c))) = (
    s',
    w',
    h,
    refusal-IsRejected request s' w' message
        (subst (λ k. get_workflow k s'.store ≡ some w') (sym e) c.logged.found)
        (rw c.new_state (refused _)),
  )

  -- After a workflow that is stored and consistent was paused, or cancelled, a re-orchestration of
  -- it is one rejection that says so, and leaves the service as it is.
  pub pause_workflow-Stops :
      (action : ActionRequest) (request : ReorchestrateRequest A O) (w : WorkflowRecord C)
      (s : ControlPlanService R C)
      → IsConsistent action.workflow_id s.store
      → get_workflow action.workflow_id s.store ≡ some w
      → request.workflow_id ≡ action.workflow_id
      → Stops "Workflow is paused. Resume it before re-orchestrating." request
          (pause_workflow clock action s)
        × Stops "Workflow is cancelled and cannot be re-orchestrated." request
            (cancel_workflow clock action s)
  unfolding refusal
  pause_workflow-Stops action request w s h found e = (
    Acts-Stops action.workflow_id _ paused request w s (λ _. refl) found e
        (pause_workflow-Acts clock action s h),
    Acts-Stops action.workflow_id _ cancelled request w s (λ _. refl) found e
        (cancel_workflow-Acts clock action s h),
  )
