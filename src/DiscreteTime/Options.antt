-- ===== src/DiscreteTime/Options.antt =====
-- discrete_time_formulation.cpp: the start options of the formulation are starts that the task, the actor
-- and its windows allow.
use mathlib.Core.Option.{some-injective}
use task_orchestrator.Base.{
  max_ℤ-bounds, ≤ℤ-trans, length, ltb→ge_ℤ, ℕ, zero, suc, ◌≤◌, ℤ, pos, ◌+ℤ◌, ◌-ℤ◌, ◌≤ℤ◌, +ℤ_parts,
  -ℤ_parts, ltb_ℤ, max_ℤ, rounds_to, ◌≡◌, refl, sym, subst, inl, inr, String, true, false, List, [],
  ◌∷◌, Option, none, some, Bool-cases, Option-cases, All, All-append, All-In, In, arith,
}
use task_orchestrator.Data.{Time, Doubles, AvailabilityWindow}
use task_orchestrator.ConstraintIndex.{
  OptimizerTask, OptimizationModel, ConstraintIndex, ActorRef, eligible_actors_for_task,
}
use task_orchestrator.Optimizer.Types.{OptimizationOptions}
use task_orchestrator.IndexedExact.Candidates.{is_past}
use task_orchestrator.DiscreteTime.{
  DiscreteOption, Building, latest_feasible_start, task_capabilities_supported, at_most,
  minus_duration, option_of, push_option, push_starts, push_window, push_windows, actor_place,
  push_actor, push_actors,
}
use task_orchestrator.DiscreteTime.Formulation.{
  Formulating, no_formulation, index_tasks, formulate_task, formulate_tasks,
  build_discrete_time_formulation,
}

at_most-le :
    (limit : Option Time) (t s : Time) → s ≤ℤ at_most limit t → (s ≤ℤ t) × (is_past s limit ≡ false)
at_most-le none t s h = (h, refl)
at_most-le (some l) t s h = (ground (arith, h), ground (arith, h))

is_past-minus_duration :
    (duration : Time) (deadline : Option Time) (s : Time)
    → is_past s (minus_duration duration deadline) ≡ false
    → is_past (s +ℤ duration) deadline ≡ false
is_past-minus_duration duration none s h = refl
is_past-minus_duration duration (some d) s h =
    ground (arith, h, +ℤ_parts s duration, -ℤ_parts d duration)

module _ {D : Type 0} where
  -- A start that is possible in a window.
  pub record IsStartIn (task : OptimizerTask D) (window : AvailabilityWindow) (start : Time)
      : Type 0 where
    pub in_window : (window.start ≤ℤ start) × (start +ℤ task.duration ≤ℤ window.end)
    pub released : task.release_time ≤ℤ start
    pub by_latest_start : is_past start task.latest_start_time ≡ false
    pub by_deadline : is_past (start +ℤ task.duration) task.deadline ≡ false

  -- An option that lets an actor that is eligible for a task of the model, large enough and capable
  -- do it, in one of its windows.
  pub record IsOption (model : OptimizationModel D) (index : ConstraintIndex D)
      (option : DiscreteOption) : Type 0 where
    pub task : OptimizerTask D
    pub of_model : In task model.tasks
    pub task_id : option.task_id ≡ task.id
    pub ref : ActorRef D
    pub eligible : In ref (eligible_actors_for_task index task)
    pub actor_id : option.actor_id ≡ ref.1.id
    pub large_enough : task.demand ≤ℤ ref.1.capacity
    pub capable : task_capabilities_supported task ref.1 ≡ true
    pub window : AvailabilityWindow
    pub of_actor : In window ref.1.availability_windows
    pub end : option.end_time ≡ option.start_time +ℤ task.duration
    pub possible : IsStartIn task window option.start_time

  -- Up to the latest feasible start, a start keeps to every limit.
  latest_feasible_start-IsStartIn :
      (task : OptimizerTask D) (window : AvailabilityWindow) (last start : Time)
      → latest_feasible_start task window ≡ some last
      → max_ℤ window.start task.release_time ≤ℤ start
      → start ≤ℤ last
      → IsStartIn task window start
  unfolding latest_feasible_start
  latest_feasible_start-IsStartIn task window last start h lower upper =
      elim (Bool-cases (ltb_ℤ window.end task.duration)) [
        | inl e ↦ absurd (cc (rw e at h))
        | inr e ↦
            let space = window.end -ℤ task.duration in
            let same = some-injective _ last (rw e at h) in
            let (within, by_deadline) =
              at_most-le (minus_duration task.duration task.deadline)
                (at_most task.latest_start_time space) start
                (subst (λ l. start ≤ℤ l) (sym same) upper) in
            let (fits, by_latest) = at_most-le task.latest_start_time space start within in
            let bounds = max_ℤ-bounds window.start task.release_time in
            record {
              in_window = (
                ≤ℤ-trans window.start _ start bounds.0 lower,
                omega
                    (arith, fits, +ℤ_parts start task.duration, -ℤ_parts window.end task.duration),
              );
              released = ≤ℤ-trans task.release_time _ start bounds.1 lower;
              by_latest_start = by_latest;
              by_deadline = is_past-minus_duration task.duration task.deadline start by_deadline;
            }
      ]

module _ {D : Type 0} (doubles : Doubles D) (llround : D → ℤ) (options : OptimizationOptions D)
    (model : OptimizationModel D) (index : ConstraintIndex D) where
  abbrev pub AreOptions : List DiscreteOption → Type 0
  AreOptions = All (IsOption model index)

  module _ (task : OptimizerTask D) (of_model : In task model.tasks) (task_index : ℕ)
      (ref : ActorRef D) (eligible : In ref (eligible_actors_for_task index task))
      (large_enough : task.demand ≤ℤ ref.1.capacity)
      (capable : task_capabilities_supported task ref.1 ≡ true) (actor_index : ℕ) where
    module _ (window : AvailabilityWindow) (of_actor : In window ref.1.availability_windows) where
      push_starts-AreOptions :
          (last : Time) (n : ℕ) (start : Time) (b : Building)
          → latest_feasible_start task window ≡ some last
          → max_ℤ window.start task.release_time ≤ℤ start
          → n ≤ rounds_to start last
          → AreOptions b.options
          → AreOptions
              (push_starts doubles llround options model task task_index n ref.1 actor_index start
                b).options
      unfolding push_starts push_option
      push_starts-AreOptions last zero start b h lower upper so_far = so_far
      push_starts-AreOptions last (suc n) start b h lower upper so_far =
          push_starts-AreOptions last n (start +ℤ pos 1)
            (push_option doubles llround options model task task_index ref.1 actor_index start b) h
            (≤ℤ-trans _ start (start +ℤ pos 1) lower (omega (arith, +ℤ_parts start (pos 1))))
            (omega (arith, upper, +ℤ_parts start (pos 1)))
            (All-append (IsOption model index) b.options
              (option_of doubles llround options model task task_index (length b.options) ref.1
                  actor_index start
                ∷ [])
              so_far
              (
                record {
                  task = task;
                  of_model = of_model;
                  task_id = refl;
                  ref = ref;
                  eligible = eligible;
                  actor_id = refl;
                  large_enough = large_enough;
                  capable = capable;
                  window = window;
                  of_actor = of_actor;
                  end = refl;
                  possible =
                      latest_feasible_start-IsStartIn task window last start h lower
                        (omega (arith, upper));
                },
                tt,
              ))

      push_window-AreOptions :
          (b : Building)
          → AreOptions b.options
          → AreOptions
              (push_window doubles llround options model task task_index ref.1 actor_index window
                b).options
      unfolding push_window
      push_window-AreOptions b so_far = elim (Option-cases (latest_feasible_start task window)) [
        | inl e ↦ rw (e, push_window) so_far
        | inr (last, e) ↦
            let first = max_ℤ window.start task.release_time in
            elim (Bool-cases (ltb_ℤ last first)) [
              | inl k ↦ rw (e, k, push_window) so_far
              | inr k ↦
                  rw (e, k, push_window)
                    (push_starts-AreOptions last (rounds_to first last) first b e (omega arith)
                      (omega arith) so_far)
            ]
      ]

    push_windows-AreOptions :
        (windows : List AvailabilityWindow) (b : Building)
        → All (λ window. In window ref.1.availability_windows) windows
        → AreOptions b.options
        → AreOptions
            (push_windows doubles llround options model task task_index ref.1 actor_index windows
              b).options
    unfolding push_windows
    push_windows-AreOptions [] b known so_far = so_far
    push_windows-AreOptions (window ∷ windows) b known so_far =
        push_windows-AreOptions windows
          (push_window doubles llround options model task task_index ref.1 actor_index window b)
          known.1 (push_window-AreOptions window known.0 b so_far)

  module _ (task : OptimizerTask D) (of_model : In task model.tasks) (task_index : ℕ) where
    push_actor-AreOptions :
        (ref : ActorRef D) (b : Building)
        → In ref (eligible_actors_for_task index task)
        → AreOptions b.options
        → AreOptions (push_actor doubles llround options model task task_index ref b).options
    unfolding push_actor
    push_actor-AreOptions (place, actor) b eligible so_far =
        elim (Bool-cases (ltb_ℤ actor.capacity task.demand)) [
          | inl e ↦ rw (e, push_actor) so_far
          | inr e ↦ elim (Bool-cases (task_capabilities_supported task actor)) [
            | inr k ↦ rw (e, k, push_actor) so_far
            | inl k ↦ elim (Option-cases (actor_place actor.id 0 model.actors)) [
              | inl p ↦ rw (e, k, p, push_actor) so_far
              | inr (actor_index, p) ↦
                  rw (e, k, p, push_actor)
                    (push_windows-AreOptions task of_model task_index (place, actor) eligible
                      (ltb→ge_ℤ actor.capacity task.demand e) k actor_index
                      actor.availability_windows b (All-In actor.availability_windows) so_far)
            ]
          ]
        ]

    push_actors-AreOptions :
        (refs : List (ActorRef D)) (b : Building)
        → All (λ ref. In ref (eligible_actors_for_task index task)) refs
        → AreOptions b.options
        → AreOptions (push_actors doubles llround options model task task_index refs b).options
    unfolding push_actors
    push_actors-AreOptions [] b known so_far = so_far
    push_actors-AreOptions (ref ∷ refs) b known so_far =
        push_actors-AreOptions refs (push_actor doubles llround options model task task_index ref b)
          known.1 (push_actor-AreOptions ref b known.0 so_far)

  formulate_tasks-AreOptions :
      (indexes : List (String × ℕ)) (task_index : ℕ) (tasks : List (OptimizerTask D))
      (f : Formulating)
      → All (λ task. In task model.tasks) tasks
      → AreOptions f.building.options
      → AreOptions
          (formulate_tasks doubles llround options model index indexes task_index tasks
            f).building.options
  unfolding formulate_tasks formulate_task
  formulate_tasks-AreOptions indexes task_index [] f known so_far = so_far
  formulate_tasks-AreOptions indexes task_index (task ∷ tasks) f known so_far =
      formulate_tasks-AreOptions indexes (suc task_index) tasks
        (formulate_task doubles llround options model index indexes task_index task f) known.1
        (push_actors-AreOptions task known.0 task_index (eligible_actors_for_task index task)
          (record (f.building) { option_indexes = [] })
          (All-In (eligible_actors_for_task index task)) so_far)

  -- Each start option of the discrete-time formulation is of a task of the model and of an actor
  -- that is eligible for it, large enough and capable; it ends when the task's duration is over,
  -- lies within one of the actor's windows, is not before the release time, and keeps to the
  -- latest start and the deadline.
  pub build_discrete_time_formulation-AreOptions :
      AreOptions (build_discrete_time_formulation doubles llround options model index).options
  unfolding build_discrete_time_formulation
  build_discrete_time_formulation-AreOptions =
      formulate_tasks-AreOptions (index_tasks 0 model.tasks []) 0 model.tasks
        (no_formulation doubles llround options model index) (All-In model.tasks) tt
