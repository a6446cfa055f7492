-- ===== src/Orchestrator/Calls.antt =====
-- The public operations of orchestrator.hpp as calls, and sequences of them.
use task_orchestrator.Base.{String, Bool, List, [], ◌∷◌, Option}
use task_orchestrator.Data.{Time, Doubles}
use task_orchestrator.Fsm.{Msm}
use task_orchestrator.Actor.{Actor}
use task_orchestrator.Workflow.{Workflow}
use task_orchestrator.Strategy.{SchedulingStrategy}
use task_orchestrator.Scheduler.Types.{ActorRankingProfile}
use task_orchestrator.Orchestrator.{
  Impl, set_workflow, register_actor, set_scheduling_strategy, set_actor_ranking_profile,
  set_actor_unavailable, notify_task_failed, notify_task_completed, mark_task_resumable,
}
use task_orchestrator.Orchestrator.Planning.{start, tick, complete_phase}

-- The public operations that change the planner, as data, and a sequence of them.
pub data Call (D : Type 0) : Type 0 where
  to_set_workflow : (w : Workflow D) → Call D
  to_register_actor : (a : Actor D) → Call D
  to_set_strategy : (strategy : Option SchedulingStrategy) → Call D
  to_set_profile : (profile : ActorRankingProfile) → Call D
  to_start : Call D
  to_tick : (now : Time) → Call D
  to_set_unavailable : (actor_id : String) → (unavailable : Bool) → Call D
  to_fail : (task_id : String) → (resumable : Bool) → Call D
  to_complete : (task_id : String) → (time : Time) → Call D
  to_mark_resumable : (task_id : String) → Call D
  to_complete_phase : (phase_id : String) → Call D

module _ {D M : Type 0} ⦃d : Doubles D⦄ (msm : Msm M) where
  unfoldable pub perform : Call D → Impl D M → Impl D M
  perform (to_set_workflow w) o = set_workflow w o
  perform (to_register_actor a) o = register_actor a o
  perform (to_set_strategy strategy) o = set_scheduling_strategy strategy o
  perform (to_set_profile profile) o = set_actor_ranking_profile profile o
  perform to_start o = start msm o
  perform (to_tick now) o = tick msm now o
  perform (to_set_unavailable actor_id unavailable) o = set_actor_unavailable actor_id unavailable o
  perform (to_fail task_id resumable) o = notify_task_failed task_id resumable o
  perform (to_complete task_id time) o = notify_task_completed task_id time o
  perform (to_mark_resumable task_id) o = mark_task_resumable task_id o
  perform (to_complete_phase phase_id) o = complete_phase msm phase_id o

  unfoldable pub perform_all : List (Call D) → Impl D M → Impl D M
  unfolding perform
  perform_all [] o = o
  perform_all (c ∷ cs) o = perform_all cs (perform c o)
