-- ===== src/Tests/Samples.antt =====
-- A machine, a number type, actors and a workflow for the tests.
use Prim.Native.Nat.{◌*◌, ◌/◌}
use task_orchestrator.Base.{
  ◌+◌, ℤ, pos, pos_part, neg_part, ◌-ℤ◌, ltb_ℤ, eqb_ℤ, refl, String, List, [], ◌∷◌, Option, none,
  some, false, true,
}
use task_orchestrator.Data.{Doubles, Phase, Process}
use task_orchestrator.Actor.{Actor}
use task_orchestrator.Fsm.{MsmState, msm_idle, transition_table, target, Msm}
use task_orchestrator.Workflow.{Workflow}
use task_orchestrator.Scheduler.Types.{ActorRegistry, add}

-- Whole numbers in place of `double`: division drops the remainder, and the sign with it.
instance abbrev pub whole_numbers : Doubles ℤ
whole_numbers = record {
  lt = ltb_ℤ;
  eq = eqb_ℤ;
  mul = λ a b.
      pos (pos_part a * pos_part b + neg_part a * neg_part b)
      -ℤ pos (pos_part a * neg_part b + neg_part a * pos_part b);
  div = λ a b. pos (pos_part a / pos_part b);
  of_int = λ a. a;
}

-- A machine that follows its table and ignores other events.
abbrev follow : Option MsmState → MsmState → MsmState
follow none m = m
follow (some t) m = t

abbrev pub table_machine : Msm MsmState
table_machine = record {
  started = msm_idle;
  fire = λ e m. follow (target transition_table m e) m;
  current = λ m. m;
  starts_initial = refl;
  follows_rows = λ m e t row. rw row refl;
}

abbrev pub worker : String → ℤ → Actor ℤ
worker id capacity = record {
  id = id;
  kind = "worker";
  capacity = capacity;
  availability_windows =
      record { start = pos 0; end = pos 10 } ∷ record { start = pos 20; end = pos 40 } ∷ [];
  capabilities = [];
  execution_cost_per_unit = pos 1;
  current_load = pos 0;
}

-- A task of its own, which takes one unit of an actor.
abbrev pub job : String → String → ℤ → List String → List String → Process ℤ
job id phase_id duration needs excludes = record {
  id = id;
  phase_id = phase_id;
  sub_process_ids = [];
  estimated_duration = duration;
  priority = pos 0;
  deadline = some (pos 40);
  release_time = pos 0;
  latest_start_time = none;
  demand = pos 1;
  mandatory = true;
  preemptible = false;
  allowed_actor_types = [];
  allowed_actor_ids = [];
  preferred_actor_ids = [];
  required_capabilities = [];
  dependency_task_ids = needs;
  mutually_exclusive_task_ids = excludes;
  actor_distances = [];
  tardiness_cost_per_unit = pos 0;
  early_start_bonus = pos 0;
}

abbrev pub no_workflow : Workflow ℤ
no_workflow = record { id = "w"; phases = []; processes = [] }

-- `cut` comes before `glue`; `paint` excludes `sand`, and both come after the first phase.
abbrev pub first_phase : Phase
first_phase = record {
  id = "build";
  name = "Build";
  process_ids = "cut" ∷ "glue" ∷ [];
  dependency_phase_ids = [];
}

abbrev pub second_phase : Phase
second_phase = record {
  id = "finish";
  name = "Finish";
  process_ids = "paint" ∷ "sand" ∷ [];
  dependency_phase_ids = "build" ∷ [];
}

abbrev pub cut : Process ℤ
cut = job "cut" "build" (pos 3) [] []

abbrev pub glue : Process ℤ
glue = job "glue" "build" (pos 4) ("cut" ∷ []) []

abbrev pub workshop : Workflow ℤ
workshop = record {
  id = "workshop";
  phases = ("build", first_phase) ∷ ("finish", second_phase) ∷ [];
  processes =
      ("cut", cut)
      ∷ ("glue", glue)
      ∷ ("paint", job "paint" "finish" (pos 2) [] ("sand" ∷ []))
      ∷ ("sand", job "sand" "finish" (pos 2) [] ("paint" ∷ []))
      ∷ [];
}

abbrev pub no_actors : ActorRegistry ℤ
no_actors = record { actors = [] }

abbrev pub ann : Actor ℤ
ann = worker "ann" (pos 1)

abbrev pub ben : Actor ℤ
ben = worker "ben" (pos 2)

abbrev pub team : ActorRegistry ℤ
team = add ben (add ann no_actors)
