-- ===== src/Fsm/Callbacks.antt =====
-- The state-change callback of planner_fsm.cpp: what it is called with.
use task_orchestrator.Base.{
  ◌≡◌, refl, sym, subst, ◌∙◌, inl, inr, Bool-cases, ◌≢◌, true, false, ◌&&◌, not, List, [], ◌∷◌,
  arith, if◌then◌else◌,
}
use task_orchestrator.Fsm.{
  PlannerState, idle, Event, start_planning, Msm, Machine, same_state, process_event,
  process_events,
}

-- The calls, newest first, lead from one state to the next, from `a` to `b`.
abbrev pub IsChain : PlannerState → List (PlannerState × PlannerState) → PlannerState → Type 0
IsChain a [] b = a ≡ b
IsChain a ((new, old) ∷ calls) b = (new ≡ b) × (new ≢ old) × IsChain a calls old

same_state-eq : (s t : PlannerState) → same_state s t ≡ true → s ≡ t
same_state-eq idle t h = ground arith
same_state-eq _ t h = ground arith

same_state-ne : (s t : PlannerState) → same_state s t ≡ false → s ≢ t
same_state-ne idle t h = ground arith
same_state-ne _ t h = ground arith

module _ {M : Type 0} (msm : Msm M) where
  -- A handled event calls a callback that is set with the new and the old state, and only where
  -- these differ.
  pub process_event-calls :
      (e : Event) (w : Machine M)
      → let w' = process_event msm e w in
        (w'.callback ≡ w.callback)
        × (w'.calls ≡ (
            if w.callback && not (same_state w'.last_known_state w.last_known_state)
            then (w'.last_known_state, w.last_known_state) ∷ w.calls
            else w.calls))
  unfolding process_event
  process_event-calls start_planning w = ground arith
  process_event-calls _ w = ground arith

  step-IsChain :
      (a : PlannerState) (new old : PlannerState) (calls : List (PlannerState × PlannerState))
      → IsChain a calls old
      → IsChain a (if not (same_state new old) then (new, old) ∷ calls else calls) new
  step-IsChain a new old calls h = elim (Bool-cases (same_state new old)) [
    | inl e ↦ rw e (subst (IsChain a calls) (sym (same_state-eq new old e)) h)
    | inr e ↦ rw e (refl, same_state-ne new old e, h)
  ]

  -- With a callback set, and the calls made of it so far chaining from a state to the present one,
  -- they go on to do so whatever events come, and no call names one state twice.
  pub process_events-IsChain :
      (es : List Event) (w : Machine M) (a : PlannerState)
      → w.callback ≡ true
      → IsChain a w.calls w.last_known_state
      → let w' = process_events msm es w in IsChain a w'.calls w'.last_known_state
  unfolding process_events
  process_events-IsChain [] w a set h = h
  process_events-IsChain (e ∷ es) w a set h =
      let (set', calls') = process_event-calls e w in
      process_events-IsChain es (process_event msm e w) a (set' ∙ set)
        (rw calls' (rw set (step-IsChain a _ _ w.calls h)))
