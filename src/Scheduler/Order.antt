-- ===== src/Scheduler/Order.antt =====
-- The order in which scheduler.cpp takes the tasks: `apply_strategy`, `order_ready_tasks` and
-- `collect_ready_tasks`, and the index of the pending tasks.
use task_orchestrator.Base.{
  ℕ, ◌+◌, String, Bool, ◌||◌, ◌&&◌, List, [], ◌∷◌, map, Option, none, some, add_id, lookup, emplace,
  lt_id, sort_by, ltb, eqb, if◌then◌else◌,
}
use task_orchestrator.Strategy.{TaskInfo, SchedulingStrategy, edf_strategy}
use task_orchestrator.Scheduler.Types.{
  ActorRankingProfile, default_profile, PendingTask, CompletionTable,
}
use task_orchestrator.Scheduler.Eligibility.{dependency_ready_time, mutex_conflict}

-- A strategy pointer that is null stands for earliest deadline first.
unfoldable pub apply_strategy : Option SchedulingStrategy → List TaskInfo → List TaskInfo
apply_strategy none tasks = edf_strategy.order_tasks tasks
apply_strategy (some strategy) tasks = strategy.order_tasks tasks

unfoldable pub effective_ranking_profile : Option ActorRankingProfile → ActorRankingProfile
effective_ranking_profile none = default_profile
effective_ranking_profile (some profile) = profile

-- `order_by_task_id.emplace(ordered_task_info[index].id, index)`, from `index` on.
unfoldable pub index_tasks : ℕ → List TaskInfo → List (String × ℕ) → List (String × ℕ)
index_tasks index [] order = order
index_tasks index (info ∷ infos) order = index_tasks (index + 1) infos (emplace info.id index order)

-- `order_by_task_id.at(id)`, with a default for a key that is not there.
abbrev pub index_at : List (String × ℕ) → String → ℕ
index_at order id = elim (lookup id order) [ some index ↦ index | none ↦ 0 ]

module _ {D : Type 0} where
  -- The comparison of `order_ready_tasks`: by index, then by id.
  abbrev pub task_before : List (String × ℕ) → PendingTask D → PendingTask D → Bool
  task_before order lhs rhs =
      let l = index_at order lhs.info.id in
      let r = index_at order rhs.info.id in ltb l r || (eqb l r && lt_id lhs.info.id rhs.info.id)

  unfoldable pub order_ready_tasks :
      Option SchedulingStrategy → List (PendingTask D) → List (PendingTask D)
  unfolding apply_strategy index_tasks
  order_ready_tasks strategy ready =
      sort_by (task_before (index_tasks 0 (apply_strategy strategy (map (λ t. t.info) ready)) []))
        ready

  -- The loop of `collect_ready_tasks`: an id that `pending_by_id.at` would not find is passed over.
  unfoldable pub filter_ready :
      List (String × PendingTask D)
      → CompletionTable
      → List String
      → List String
      → List (PendingTask D)
  filter_ready pending_by_id completion_times blocked [] = []
  filter_ready pending_by_id completion_times blocked (task_id ∷ ids) =
      let rest = filter_ready pending_by_id completion_times blocked ids in
      elim (lookup task_id pending_by_id) [
        | none ↦ rest
        | some task ↦
            if mutex_conflict task blocked
            then rest
            else elim (dependency_ready_time task completion_times) [
              | none ↦ rest
              | some ready ↦ task ∷ rest
            ]
      ]

  unfoldable pub collect_ready_tasks :
      Option SchedulingStrategy
      → List (String × PendingTask D)
      → CompletionTable
      → List String
      → List String
      → List (PendingTask D)
  unfolding filter_ready order_ready_tasks
  collect_ready_tasks strategy pending_by_id completion_times blocked remaining =
      order_ready_tasks strategy (filter_ready pending_by_id completion_times blocked remaining)

  unfoldable pub index_pending :
      List (PendingTask D) → List (String × PendingTask D) → List (String × PendingTask D)
  index_pending [] m = m
  index_pending (task ∷ tasks) m = index_pending tasks (emplace task.info.id task m)

  unfoldable pub remaining_ids : List (PendingTask D) → List String → List String
  remaining_ids [] ids = ids
  remaining_ids (task ∷ tasks) ids = remaining_ids tasks (add_id task.info.id ids)
