-- ===== src/ConstraintIndex/Eligible.antt =====
-- The actors that constraint_index.cpp takes as eligible for a task.
use mathlib.Core.Option.{some-injective}
use task_orchestrator.Base.{
  if_cases, or_value, ℕ, suc, eqb, ◌≡◌, refl, sym, subst, ◌∙◌, inl, inr, String, Bool, true, false,
  not, ◌||◌, ◌&&◌, List, [], ◌∷◌, ◌++◌, Option, none, some, contains, lookup, lookup-emplace,
  assign, All-contained, emplace, find_if, All, All-mono, All-append, All-lookup, All-assign,
  All-sort_by, eq_iff, ◌==◌, arith, Bool-cases, Option-cases, if◌then◌else◌,
}
use task_orchestrator.Workflow.{is_empty}
use task_orchestrator.ConstraintIndex.{
  OptimizerActor, OptimizerTask, OptimizationModel, ActorRef, push_at, list_at, refs_from,
  allowed_by_id, allowed_by_type, unique_after, unique, build_eligible_actors_for_task,
  index_actors_by_id, index_actors_by_type, index_eligible, new_index, eligible_actors_for_task,
}

-- The list names the value, or is empty.
abbrev pub admits : List String → String → Bool
admits allowed x = is_empty allowed || contains x allowed

module _ {D : Type 0} where
  -- The actor is of an allowed id and of an allowed type.
  abbrev pub IsEligible : OptimizerTask D → ActorRef D → Type 0
  IsEligible task ref =
      (admits task.allowed_actor_ids ref.1.id ≡ true)
      × (admits task.allowed_actor_types ref.1.kind ≡ true)

  -- The actors of each entry are of the entry's type, and the actor of each is of its id.
  abbrev OfType : String × List (ActorRef D) → Type 0
  OfType kv = All (λ ref. ref.1.kind ≡ kv.0) kv.1

  abbrev OfId : String × ActorRef D → Type 0
  OfId kv = kv.1.1.id ≡ kv.0

  list_at-OfType :
      (t : String) (m : List (String × List (ActorRef D)))
      → All OfType m
      → All (λ ref. ref.1.kind ≡ t) (list_at t m)
  list_at-OfType t m h = found (lookup t m) refl
    where
      found :
          (o : Option (List (ActorRef D)))
          → lookup t m ≡ o
          → All
              (λ ref. ref.1.kind ≡ t)
              (elim o as (λ x. List (ActorRef D)) [ none ↦ [] | some refs ↦ refs ])
      found none e = tt
      found (some refs) e = All-lookup OfType t m h e

  index_actors_by_type-OfType :
      (refs : List (ActorRef D)) (m : List (String × List (ActorRef D)))
      → All OfType m
      → All OfType (index_actors_by_type refs m)
  unfolding index_actors_by_type push_at
  index_actors_by_type-OfType [] m h = h
  index_actors_by_type-OfType (ref ∷ refs) m h =
      index_actors_by_type-OfType refs (push_at ref.1.kind ref m) (
        All-assign OfType ref.1.kind (list_at ref.1.kind m ++ ref ∷ []) m
          (All-append (λ r. r.1.kind ≡ ref.1.kind) (list_at ref.1.kind m) (ref ∷ [])
            (list_at-OfType ref.1.kind m h) (refl, tt))
          h)

  index_actors_by_id-OfId :
      (refs : List (ActorRef D)) (m : List (String × ActorRef D))
      → All OfId m
      → All OfId (index_actors_by_id refs m)
  unfolding index_actors_by_id
  index_actors_by_id-OfId [] m h = h
  index_actors_by_id-OfId (ref ∷ refs) m h =
      index_actors_by_id-OfId refs (assign ref.1.id ref m) (All-assign OfId ref.1.id ref m refl h)

  module _ (P : ActorRef D → Type 0) where
    unique_after-All :
        (x : ActorRef D) (ys : List (ActorRef D)) → All P ys → All P (unique_after x ys)
    unfolding unique_after
    unique_after-All x [] h = tt
    unique_after-All x (y ∷ ys) h = elim (Bool-cases (eqb x.0 y.0)) [
      | inl e ↦ rw (e, unique_after) (unique_after-All y ys h.1)
      | inr e ↦ rw (e, unique_after) (h.0, unique_after-All y ys h.1)
    ]

    unique-All : (xs : List (ActorRef D)) → All P xs → All P (unique xs)
    unfolding unique
    unique-All [] h = tt
    unique-All (x ∷ xs) h = (h.0, unique_after-All x xs h.1)

  -- Of each id of the list the actor is found, of an allowed type.
  allowed_by_id-All :
      (m : List (String × ActorRef D)) (types ids all : List String)
      → All OfId m
      → All (λ id. contains id all ≡ true) ids
      → All
          (λ ref. (contains ref.1.id all ≡ true) × (admits types ref.1.kind ≡ true))
          (allowed_by_id m types ids)
  unfolding allowed_by_id
  allowed_by_id-All m types [] all h k = tt
  allowed_by_id-All m types (id ∷ ids) all h k =
      let rest = allowed_by_id-All m types ids all h k.1 in
      elim (Option-cases (lookup id m)) [
        | inl e ↦ rw (e, allowed_by_id) rest
        | inr (ref, e) ↦
            elim (Bool-cases (not (is_empty types) && not (contains ref.1.kind types))) [
              | inl refused ↦ rw (e, allowed_by_id, refused) rest
              | inr taken ↦
                  rw (e, allowed_by_id, taken)
                    ((rw (All-lookup OfId id m h e) k.0, ground (arith, taken)), rest)
            ]
      ]

  allowed_by_type-All :
      (m : List (String × List (ActorRef D))) (types all : List String)
      → All OfType m
      → All (λ t. contains t all ≡ true) types
      → All (λ ref. contains ref.1.kind all ≡ true) (allowed_by_type m types)
  unfolding allowed_by_type
  allowed_by_type-All m [] all h k = tt
  allowed_by_type-All m (t ∷ types) all h k =
      All-append _ (list_at t m) (allowed_by_type m types)
        (All-mono (λ ref. ref.1.kind ≡ t) (λ ref. contains ref.1.kind all ≡ true) (list_at t m)
          (λ ref e. rw e k.0) (list_at-OfType t m h))
        (allowed_by_type-All m types all h k.1)

  -- Each branch takes actors of allowed ids and types only.
  build_eligible_actors_for_task-IsEligible :
      (model : OptimizationModel D) (by_id : List (String × ActorRef D))
      (by_type : List (String × List (ActorRef D))) (task : OptimizerTask D)
      → All OfId by_id
      → All OfType by_type
      → All (IsEligible task) (build_eligible_actors_for_task model by_id by_type task)
  unfolding build_eligible_actors_for_task
  build_eligible_actors_for_task-IsEligible model by_id by_type task h k =
      let ids = task.allowed_actor_ids in
      let types = task.allowed_actor_types in
      if_cases (All (IsEligible task)) (not (is_empty ids))
        (λ _.
          All-mono _ (IsEligible task) (allowed_by_id by_id types ids)
            (λ ref e. (ground (arith, e.0), e.1))
            (allowed_by_id-All by_id types ids ids h (All-contained ids)))
        (λ any_id.
          if_cases (All (IsEligible task)) (not (is_empty types))
            (λ _. unique-All (IsEligible task) _ (
              All-sort_by _ (IsEligible task) (allowed_by_type by_type types) (
                All-mono (λ ref. contains ref.1.kind types ≡ true) (IsEligible task)
                  (allowed_by_type by_type types)
                  (λ ref e. (ground (arith, any_id), ground (arith, e)))
                  (allowed_by_type-All by_type types types k (All-contained types)))))
            (λ any_type. everyone 0 model.actors any_id any_type))
    where
      everyone :
          (n : ℕ) (actors : List (OptimizerActor D))
          → not (is_empty task.allowed_actor_ids) ≡ false
          → not (is_empty task.allowed_actor_types) ≡ false
          → All (IsEligible task) (refs_from n actors)
      everyone n [] i t = tt
      everyone n (a ∷ actors) i t =
          ((ground (arith, i), ground (arith, t)), everyone (suc n) actors i t)

  module _ (eligible : OptimizerTask D → List (ActorRef D)) where
    index_eligible-kept :
        (tasks : List (OptimizerTask D)) (id : String) (m : List (String × List (ActorRef D)))
        {refs : List (ActorRef D)}
        → lookup id m ≡ some refs
        → lookup id (index_eligible eligible tasks m) ≡ some refs
    unfolding index_eligible
    index_eligible-kept [] id m h = h
    index_eligible-kept (t ∷ tasks) id m {refs} h =
        index_eligible-kept tasks id (emplace t.id (eligible t) m)
          (lookup-emplace t.id id (eligible t) m ∙ still (t.id == id) (λ e. (eq_iff t.id id).0 e))
      where
        still :
            (b : Bool)
            → (b ≡ true → t.id ≡ id)
            → (if b then or_value (lookup t.id m) (eligible t) else lookup id m) ≡ some refs
        still true f = rw (f refl, h)
        still false f = h

    index_eligible-first :
        (tasks : List (OptimizerTask D)) (id : String) (m : List (String × List (ActorRef D)))
        {task : OptimizerTask D}
        → lookup id m ≡ none
        → find_if (λ t. t.id == id) tasks ≡ some task
        → lookup id (index_eligible eligible tasks m) ≡ some (eligible task)
    unfolding index_eligible
    index_eligible-first [] id m {task} h f = cc
    index_eligible-first (t ∷ tasks) id m {task} h f = elim (Bool-cases (t.id == id)) [
      | inl e ↦
          let same : t ≡ task = some-injective t task (rw e at f) in
          let absent : lookup t.id m ≡ none =
            subst (λ i. lookup i m ≡ none) (sym ((eq_iff t.id id).0 e)) h in
          index_eligible-kept tasks id (emplace t.id (eligible t) m)
            (lookup-emplace t.id id (eligible t) m ∙ rw (e, absent, same))
      | inr e ↦
          index_eligible-first tasks id (emplace t.id (eligible t) m)
            (lookup-emplace t.id id (eligible t) m ∙ rw e h) (rw e at f)
    ]

  -- Every actor that the constraint index has as eligible for a task of the model is of an id that
  -- the task allows and of a type that it allows, an empty list allowing all; where no earlier
  -- task has the task's id.
  pub eligible_actors_for_task-IsEligible :
      (model : OptimizationModel D) (task : OptimizerTask D)
      → find_if (λ t. t.id == task.id) model.tasks ≡ some task
      → All (IsEligible task) (eligible_actors_for_task (new_index model) task)
  unfolding eligible_actors_for_task new_index
  eligible_actors_for_task-IsEligible model task first =
      let refs = refs_from 0 model.actors in
      let by_id = index_actors_by_id refs [] in
      let by_type = index_actors_by_type refs [] in
      let eligible = build_eligible_actors_for_task model by_id by_type in
      subst
        (λ (o : Option (List (ActorRef D))).
          All (IsEligible task) (elim o as (λ x. List (ActorRef D)) [ none ↦ [] | some vs ↦ vs ]))
        (sym (index_eligible-first eligible model.tasks task.id [] (unfold lookup in refl) first))
        (build_eligible_actors_for_task-IsEligible model by_id by_type task
          (index_actors_by_id-OfId refs [] tt) (index_actors_by_type-OfType refs [] tt))
