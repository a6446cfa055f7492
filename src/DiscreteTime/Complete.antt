-- ===== src/DiscreteTime/Complete.antt =====
-- discrete_time_formulation.cpp: no start that is possible is missing from the formulation's options.
use task_orchestrator.Base.{
  ℕ, zero, suc, ◌+◌, ◌≤◌, ℤ, pos, pos_part, neg_part, ◌+ℤ◌, ◌-ℤ◌, ◌≤ℤ◌, +ℤ_parts, -ℤ_parts,
  eq_of_parts, ltb_ℤ, max_ℤ, max_ℤ-least, ge→ltb_ℤ, rounds_to, ◌≡◌, refl, sym, ap, subst, inl, inr,
  String, ◌==◌, eq_refl, false, List, [], ◌∷◌, Option, none, some, Bool-cases, Option-cases, Any,
  Any-append_left, Any-append_right, In, arith,
}
use task_orchestrator.Data.{Time, Doubles, AvailabilityWindow}
use task_orchestrator.ConstraintIndex.{
  OptimizerActor, OptimizerTask, OptimizationModel, ConstraintIndex, ActorRef,
  eligible_actors_for_task,
}
use task_orchestrator.Optimizer.Types.{OptimizationOptions}
use task_orchestrator.IndexedExact.Candidates.{is_past}
use task_orchestrator.DiscreteTime.{
  DiscreteOption, Building, latest_feasible_start, task_capabilities_supported, at_most,
  minus_duration, push_option, push_starts, push_window, push_windows, actor_place, push_actor,
  push_actors,
}
use task_orchestrator.DiscreteTime.Formulation.{Formulating, formulate_task, formulate_tasks}
use task_orchestrator.DiscreteTime.Options.{IsStartIn}

at_most-ge :
    (limit : Option Time) (t s : Time) → s ≤ℤ t → is_past s limit ≡ false → s ≤ℤ at_most limit t
at_most-ge none t s h k = h
at_most-ge (some l) t s h k = ground (arith, h, k)

minus_duration-is_past :
    (duration : Time) (deadline : Option Time) (s : Time)
    → is_past (s +ℤ duration) deadline ≡ false
    → is_past s (minus_duration duration deadline) ≡ false
minus_duration-is_past duration none s h = refl
minus_duration-is_past duration (some d) s h =
    ground (arith, h, +ℤ_parts s duration, -ℤ_parts d duration)

module _ {D : Type 0} where
  pub actor_place-some :
      (actor : OptimizerActor D) (place : ℕ) (actors : List (OptimizerActor D))
      → In actor actors
      → (k : ℕ) × (actor_place actor.id place actors ≡ some k)
  actor_place-some actor place [] m = absurd m
  actor_place-some actor place (a ∷ actors) (inl e) =
      (place, rw (ap OptimizerActor.id e, eq_refl actor.id) refl)
  actor_place-some actor place (a ∷ actors) (inr m) = elim (Bool-cases (a.id == actor.id)) [
    | inl e ↦ (place, rw e refl)
    | inr e ↦ rw e (actor_place-some actor (suc place) actors m)
  ]

  -- A possible start that is not negative is one of those that are tried.
  IsStartIn-latest_feasible_start :
      (task : OptimizerTask D) (window : AvailabilityWindow) (start : Time)
      → pos 0 ≤ℤ start
      → IsStartIn task window start
      → (last : Time) × (latest_feasible_start task window ≡ some last) × (start ≤ℤ last)
  unfolding latest_feasible_start
  IsStartIn-latest_feasible_start task window start h p =
      let space = window.end -ℤ task.duration in
      let roomy : ltb_ℤ window.end task.duration ≡ false =
        ge→ltb_ℤ window.end task.duration
          (omega (arith, h, p.in_window.1, +ℤ_parts start task.duration)) in
      (
        at_most (minus_duration task.duration task.deadline) (at_most task.latest_start_time space),
        rw roomy refl,
        at_most-ge (minus_duration task.duration task.deadline)
            (at_most task.latest_start_time space) start
            (at_most-ge task.latest_start_time space start
              (omega (
                arith,
                p.in_window.1,
                +ℤ_parts start task.duration,
                -ℤ_parts window.end task.duration,
              ))
              p.by_latest_start)
            (minus_duration-is_past task.duration task.deadline start p.by_deadline),
      )

module _ {D : Type 0} (doubles : Doubles D) (llround : D → ℤ) (options : OptimizationOptions D)
    (model : OptimizationModel D) (P : DiscreteOption → Type 0) where
  module _ (task : OptimizerTask D) (task_index : ℕ) where
    push_starts-Any :
        (n : ℕ) (actor : OptimizerActor D) (actor_index : ℕ) (start : Time) (b : Building)
        → Any P b.options
        → Any P
            (push_starts doubles llround options model task task_index n actor actor_index start
              b).options
    unfolding push_starts push_option
    push_starts-Any zero actor actor_index start b m = m
    push_starts-Any (suc n) actor actor_index start b m =
        push_starts-Any n actor actor_index (start +ℤ pos 1)
          (push_option doubles llround options model task task_index actor actor_index start b)
          (Any-append_left P b.options _ m)

    push_window-Any :
        (actor : OptimizerActor D) (actor_index : ℕ) (window : AvailabilityWindow) (b : Building)
        → Any P b.options
        → Any P
            (push_window doubles llround options model task task_index actor actor_index window
              b).options
    unfolding push_window
    push_window-Any actor actor_index window b m =
        elim (Option-cases (latest_feasible_start task window)) [
          | inl e ↦ rw (e, push_window) m
          | inr (last, e) ↦ elim (Bool-cases (ltb_ℤ last (max_ℤ window.start task.release_time))) [
            | inl k ↦ rw (e, k, push_window) m
            | inr k ↦
                rw (e, k, push_window)
                  (push_starts-Any (rounds_to (max_ℤ window.start task.release_time) last) actor
                    actor_index (max_ℤ window.start task.release_time) b m)
          ]
        ]

    push_windows-Any :
        (actor : OptimizerActor D) (actor_index : ℕ) (windows : List AvailabilityWindow)
        (b : Building)
        → Any P b.options
        → Any P
            (push_windows doubles llround options model task task_index actor actor_index windows
              b).options
    unfolding push_windows
    push_windows-Any actor actor_index [] b m = m
    push_windows-Any actor actor_index (window ∷ windows) b m =
        push_windows-Any actor actor_index windows
          (push_window doubles llround options model task task_index actor actor_index window b)
          (push_window-Any actor actor_index window b m)

    pub push_actor-Any :
        (ref : ActorRef D) (b : Building)
        → Any P b.options
        → Any P (push_actor doubles llround options model task task_index ref b).options
    unfolding push_actor
    push_actor-Any (place, actor) b m = elim (Bool-cases (ltb_ℤ actor.capacity task.demand)) [
      | inl e ↦ rw (e, push_actor) m
      | inr e ↦ elim (Bool-cases (task_capabilities_supported task actor)) [
        | inr k ↦ rw (e, k, push_actor) m
        | inl k ↦ elim (Option-cases (actor_place actor.id 0 model.actors)) [
          | inl p ↦ rw (e, k, p, push_actor) m
          | inr (actor_index, p) ↦
              rw (e, k, p, push_actor)
                (push_windows-Any actor actor_index actor.availability_windows b m)
        ]
      ]
    ]

    pub push_actors-Any :
        (refs : List (ActorRef D)) (b : Building)
        → Any P b.options
        → Any P (push_actors doubles llround options model task task_index refs b).options
    unfolding push_actors
    push_actors-Any [] b m = m
    push_actors-Any (ref ∷ refs) b m =
        push_actors-Any refs (push_actor doubles llround options model task task_index ref b)
          (push_actor-Any ref b m)

  pub formulate_tasks-Any :
      (index : ConstraintIndex D) (indexes : List (String × ℕ)) (task_index : ℕ)
      (tasks : List (OptimizerTask D)) (f : Formulating)
      → Any P f.building.options
      → Any P
          (formulate_tasks doubles llround options model index indexes task_index tasks
            f).building.options
  unfolding formulate_tasks formulate_task
  formulate_tasks-Any index indexes task_index [] f m = m
  formulate_tasks-Any index indexes task_index (task ∷ tasks) f m =
      formulate_tasks-Any index indexes (suc task_index) tasks
        (formulate_task doubles llround options model index indexes task_index task f)
        (push_actors-Any task task_index (eligible_actors_for_task index task)
          (record (f.building) { option_indexes = [] }) m)

module _ {D : Type 0} (doubles : Doubles D) (llround : D → ℤ) (options : OptimizationOptions D)
    (model : OptimizationModel D) (task : OptimizerTask D) (actor : OptimizerActor D)
    (start : Time) where
  -- An option for the task on the actor from the start on.
  abbrev pub IsFor : DiscreteOption → Type 0
  IsFor option =
      (option.task_id ≡ task.id) × (option.actor_id ≡ actor.id) × (option.start_time ≡ start)

  module _ (task_index : ℕ) where
    push_starts-IsFor :
        (n : ℕ) (actor_index : ℕ) (first : Time) (b : Building)
        → first ≤ℤ start
        → suc (pos_part start + neg_part first) ≤ n + (pos_part first + neg_part start)
        → Any IsFor
            (push_starts doubles llround options model task task_index n actor actor_index first
              b).options
    unfolding push_starts push_option
    push_starts-IsFor zero actor_index first b from to = absurd (omega (arith, from, to))
    push_starts-IsFor (suc n) actor_index first b from to =
        let b' =
          push_option doubles llround options model task task_index actor actor_index first b in
        elim (Bool-cases (ltb_ℤ first start)) [
          | inl later ↦
              push_starts-IsFor n actor_index (first +ℤ pos 1) b'
                (ground (arith, later, +ℤ_parts first (pos 1)))
                (omega (arith, to, +ℤ_parts first (pos 1)))
          | inr now ↦
              push_starts-Any doubles llround options model IsFor task task_index n actor
                actor_index (first +ℤ pos 1) b'
                (Any-append_right IsFor b.options _
                  (inl (refl, refl, eq_of_parts first start (ground (arith, from, now)))))
        ]

    module _ (later : pos 0 ≤ℤ start) (window : AvailabilityWindow)
        (possible : IsStartIn task window start) where
      push_window-IsFor :
          (actor_index : ℕ) (b : Building)
          → Any IsFor
              (push_window doubles llround options model task task_index actor actor_index window
                b).options
      unfolding push_window
      push_window-IsFor actor_index b =
          let first = max_ℤ window.start task.release_time in
          let (last, e, within) =
            IsStartIn-latest_feasible_start task window start later possible in
          let from =
            max_ℤ-least window.start task.release_time start possible.in_window.0
              possible.released in
          let space : ltb_ℤ last first ≡ false =
            ge→ltb_ℤ last first (omega (arith, from, within)) in
          rw (e, space, push_window)
            (push_starts-IsFor (rounds_to first last) actor_index first b from
              (omega (arith, from, within)))

      pub push_windows-IsFor :
          (actor_index : ℕ) (windows : List AvailabilityWindow) (b : Building)
          → In window windows
          → Any IsFor
              (push_windows doubles llround options model task task_index actor actor_index windows
                b).options
      unfolding push_windows
      push_windows-IsFor actor_index [] b m = absurd m
      push_windows-IsFor actor_index (w ∷ windows) b (inl e) =
          push_windows-Any doubles llround options model IsFor task task_index actor actor_index
            windows
            (push_window doubles llround options model task task_index actor actor_index w b)
            (subst
              (λ v.
                Any IsFor
                  (push_window doubles llround options model task task_index actor actor_index v
                    b).options)
              (sym e) (push_window-IsFor actor_index b))
      push_windows-IsFor actor_index (w ∷ windows) b (inr m) =
          push_windows-IsFor actor_index windows
            (push_window doubles llround options model task task_index actor actor_index w b) m
