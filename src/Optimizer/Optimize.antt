-- ===== src/Optimizer/Optimize.antt =====
-- task_orchestrator/src/optimizer/workflow_optimizer.cpp: an optimizer uses the backend that it
-- was given, or one that the registry creates.
use task_orchestrator.Base.{String, true, false, List, [], Option, none, some, ◌==◌, if◌then◌else◌}
use task_orchestrator.Data.{Doubles}
use task_orchestrator.ConstraintIndex.{OptimizationModel, ConstraintIndex, new_index}
use task_orchestrator.Optimizer.Types.{indexed_exact, OptimizationOptions, OptimizationSolution}
use task_orchestrator.Optimizer.Registry.{BackendEntry, create_backend, backend_kind_to_string}
use task_orchestrator.IndexedExact.Solve

-- `solve` gives none where it does not return.
pub record OptimizationBackend (D : Type 0) : Type 0 where
  pub solve :
      OptimizationModel D → ConstraintIndex D → OptimizationOptions D → Option OptimizationSolution
  pub name : String

pub record WorkflowOptimizer (D : Type 0) : Type 0 where
  pub options : OptimizationOptions D
  pub backend : Option (OptimizationBackend D)

abbrev pub message : Option String → String
message none = ""
message (some text) = text

module _ {D : Type 0} where
  unfoldable pub no_backend_solution : OptimizationOptions D → String → OptimizationSolution
  unfolding backend_kind_to_string
  no_backend_solution options backend_error = record {
    ok = false;
    assignments = [];
    unfulfilled_task_ids = [];
    backend_name = backend_kind_to_string options.backend_kind;
    stats = record { search_nodes = 0; pruned_nodes = 0 };
    error_message =
        if backend_error == "" then "No optimization backend available." else backend_error;
  }

  -- With the backend found or not, and the message that was written.
  unfoldable pub run_backend :
      OptimizationOptions D
      → OptimizationModel D
      → Option (OptimizationBackend D) × Option String
      → Option OptimizationSolution
  unfolding no_backend_solution new_index
  run_backend options model (some backend, error) = backend.solve model (new_index model) options
  run_backend options model (none, error) = some (no_backend_solution options (message error))

  abbrev pub backend_or :
      Option (OptimizationBackend D)
      → Option (OptimizationBackend D) × Option String
      → Option (OptimizationBackend D) × Option String
  backend_or none created = created
  backend_or (some backend) created = (some backend, some "")

  unfoldable pub optimize :
      List (BackendEntry (OptimizationBackend D))
      → WorkflowOptimizer D
      → OptimizationModel D
      → Option OptimizationSolution
  unfolding run_backend create_backend
  optimize entries optimizer model =
      let created = create_backend optimizer.options.backend_kind entries (some "") in
      run_backend optimizer.options model (backend_or optimizer.backend created)

  -- What indexed_exact_backend.cpp registers.
  abbrev pub indexed_backend : Doubles D → OptimizationBackend D
  indexed_backend doubles = record {
    solve = Solve.solve doubles;
    name = "indexed_branch_and_bound";
  }

  abbrev pub indexed_entry : Doubles D → BackendEntry (OptimizationBackend D)
  indexed_entry doubles = record {
    descriptor = record {
      kind = indexed_exact;
      name = "indexed_exact";
      available = true;
      optional_dependency = false;
    };
    factory = some (some (indexed_backend doubles));
  }
