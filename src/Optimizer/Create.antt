-- ===== src/Optimizer/Create.antt =====
-- Which backend backend_registry.cpp creates, and what workflow_optimizer.cpp makes of it.
use task_orchestrator.Base.{
  ◌≡◌, ◌≢◌, refl, sym, subst, ◌∙◌, ap, String, true, List, [], ◌∷◌, Option, none, some, inl, inr,
  ◌⊎◌, arith, All, Any, Option-cases, if◌then◌else◌,
}
use task_orchestrator.Data.{Doubles}
use task_orchestrator.ConstraintIndex.{OptimizationModel, new_index}
use task_orchestrator.Optimizer.Types.{
  BackendKind, auto, indexed_exact, or_tools_cp_sat, commercial_mip, BackendDescriptor,
  OptimizationSolution, OptimizationOptions,
}
use task_orchestrator.Optimizer.Registry.{
  BackendEntry, same_kind, backend_kind_from_string, backend_kind_to_string, find_backend,
  register_backend, create_from_entry, create_backend_for_registered_kind, create_first,
  create_backend, backend_auto_order,
}
use task_orchestrator.Optimizer.Optimize.{
  OptimizationBackend, run_backend, optimize, indexed_backend, indexed_entry,
}
use task_orchestrator.IndexedExact.Scores.{IsBounded}
use task_orchestrator.IndexedExact.Solved.{Verdict, solve-Verdict}

-- The text of a backend's kind is read back as that kind.
pub backend_kind_from_string-to_string :
    (kind : BackendKind) → backend_kind_from_string (backend_kind_to_string kind) ≡ kind
unfolding backend_kind_from_string backend_kind_to_string
backend_kind_from_string-to_string indexed_exact = refl
backend_kind_from_string-to_string or_tools_cp_sat = refl
backend_kind_from_string-to_string commercial_mip = refl
backend_kind_from_string-to_string auto = refl

in_order : (kind : BackendKind) → kind ≢ auto → Any (λ k. k ≡ kind) backend_auto_order
in_order auto h = absurd (h refl)
in_order or_tools_cp_sat h = inl refl
in_order commercial_mip h = inr (inl refl)
in_order indexed_exact h = inr (inr (inl refl))

module _ {B : Type 0} where
  -- A registered backend is found under its kind.
  pub find_backend-register_backend :
      (d : BackendDescriptor) (factory : Option (Option B)) (kind : BackendKind)
      (entries : List (BackendEntry B))
      → find_backend kind (register_backend d factory entries) ≡ (
          if same_kind d.kind kind
          then some (record { descriptor = d; factory = factory })
          else find_backend kind entries)
  unfolding find_backend register_backend
  find_backend-register_backend d factory kind [] = refl
  find_backend-register_backend d factory kind (e ∷ entries) =
      ground (arith, find_backend-register_backend d factory kind entries)

  created : BackendKind → List (BackendEntry B) → Option B
  created kind entries = (create_backend_for_registered_kind kind entries none).0

  -- An available backend that a factory makes.
  created-some :
      (kind : BackendKind) (entries : List (BackendEntry B)) (error : Option String)
      {d : BackendDescriptor} {b : B}
      → d.available ≡ true
      → find_backend kind entries ≡ some (record { descriptor = d; factory = some (some b) })
      → create_backend_for_registered_kind kind entries error ≡ (some b, error)
  unfolding create_backend_for_registered_kind create_from_entry
  created-some kind entries error available found = rw (found, available) refl

  -- The loop over the kinds stops at the latest at one that gives a backend.
  first_created :
      (kinds : List BackendKind) (entries : List (BackendEntry B)) (kind : BackendKind) {b : B}
      → Any (λ k. k ≡ kind) kinds
      → created kind entries ≡ some b
      → (b' : B) × (create_first kinds entries ≡ some b')
  unfolding create_first created
  first_created [] entries kind m h = absurd m
  first_created (k ∷ kinds) entries kind {b} m h = elim (Option-cases (created k entries)) [
    | inr (b', e) ↦ (b', rw e refl)
    | inl e ↦ elim m [
      | inl same ↦
          let h' : created k entries ≡ some b =
            subst (λ x. created x entries ≡ some b) (sym same) h in
          absurd (ground (arith, e, h'))
      | inr later ↦ let (b', e') = first_created kinds entries kind later h in (b', rw e e')
    ]
  ]

  create_one :
      (kind : BackendKind) (entries : List (BackendEntry B)) (error : Option String)
      → kind ≢ auto
      → create_backend kind entries error ≡ create_backend_for_registered_kind kind entries error
  unfolding create_backend
  create_one auto entries error h = absurd (h refl)
  create_one or_tools_cp_sat entries error h = refl
  create_one commercial_mip entries error h = refl
  create_one indexed_exact entries error h = refl

  -- An available backend of a kind other than Auto, once registered with a factory that makes it,
  -- is what create_backend gives for its kind, whatever was registered before; for Auto some
  -- backend is given, and no error is written in either case.
  pub create_backend-register_backend :
      (d : BackendDescriptor) (b : B) (entries : List (BackendEntry B)) (error : Option String)
      → d.kind ≢ auto
      → d.available ≡ true
      → (create_backend d.kind (register_backend d (some (some b)) entries) error ≡ (some b, error))
        × ((b' : B) × (create_backend auto (register_backend d (some (some b)) entries) error
              ≡ (some b', error)))
  unfolding create_backend
  create_backend-register_backend d b entries error kind available =
      let after = register_backend d (some (some b)) entries in
      let found : find_backend d.kind after
          ≡ some (record { descriptor = d; factory = some (some b) }) =
        find_backend-register_backend d (some (some b)) d.kind entries ∙ ground arith in
      let here = created-some d.kind after none available found in
      let made : created d.kind after ≡ some b =
        unfold created in ap (λ (p : Option B × Option String). p.0) here in
      let (b', e) = first_created backend_auto_order after d.kind (in_order d.kind kind) made in
      (
        create_one d.kind after error kind ∙ created-some d.kind after error available found,
        (b', rw e refl),
      )

module _ {D : Type 0} (doubles : Doubles D) (entries : List (BackendEntry (OptimizationBackend D)))
    (model : OptimizationModel D) (options : OptimizationOptions D) where
  -- Where no other solver is linked, the indexed backend is the one that is made.
  indexed_created :
      (kind : BackendKind)
      → find_backend or_tools_cp_sat entries ≡ none
      → find_backend commercial_mip entries ≡ none
      → find_backend indexed_exact entries ≡ some (indexed_entry doubles)
      → (kind ≡ auto) ⊎ (kind ≡ indexed_exact)
      → create_backend kind entries (some "") ≡ (some (indexed_backend doubles), some "")
  unfolding create_backend create_first create_backend_for_registered_kind create_from_entry
  indexed_created kind no_cp_sat no_mip indexed (inl e) = rw (e, no_cp_sat, no_mip, indexed) refl
  indexed_created kind no_cp_sat no_mip indexed (inr e) = rw (e, indexed) refl

  -- Where the registry has the indexed backend and no other solver, and the options ask for it or
  -- leave the choice to the registry, WorkflowOptimizer::optimize gives a best complete choice of
  -- the model, or, where there is none, a failure; within the bound on the priorities.
  pub optimize-Verdict :
      find_backend or_tools_cp_sat entries ≡ none
      → find_backend commercial_mip entries ≡ none
      → find_backend indexed_exact entries ≡ some (indexed_entry doubles)
      → (options.backend_kind ≡ auto) ⊎ (options.backend_kind ≡ indexed_exact)
      → All (IsBounded doubles model (new_index model) options) model.tasks
      → (solution : OptimizationSolution) × (optimize entries
            (record { options = options; backend = none })
            model
          ≡ some solution)
        × Verdict doubles model (new_index model) options solution
  unfolding optimize
  optimize-Verdict no_cp_sat no_mip indexed kind bounded =
      let (solution, solved, verdict) =
        solve-Verdict doubles model (new_index model) options bounded in
      (
        solution,
        rw (indexed_created options.backend_kind no_cp_sat no_mip indexed kind)
            (unfold run_backend in solved),
        verdict,
      )
