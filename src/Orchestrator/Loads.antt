-- ===== src/Orchestrator/Loads.antt =====
-- The loads that orchestrator.cpp keeps: each actor's load is the demand of its tasks in flight.
use mathlib.Core.Option.{some-injective}
use task_orchestrator.Base.{
  pos_part, neg_part, +ℤ_assoc, subst, ℤ, pos, ◌+ℤ◌, ◌-ℤ◌, ◌≤ℤ◌, ltb_ℤ, max_ℤ, +ℤ_parts, -ℤ_parts,
  eq_of_parts, ◌≡◌, refl, sym, ◌∙◌, ap, inl, inr, String, Bool, true, false, ◌&&◌, none, some,
  lookup, erase_key, lookup-assign, IsMap, Bool-cases, Option-cases, arith, eq_iff, ◌==◌,
  if◌then◌else◌,
}
use task_orchestrator.Actor.{Actor}
use task_orchestrator.Workflow.{Workflow}
use task_orchestrator.Scheduler.Types.{Assignment, WorkflowState, ActorRegistry, get, put_back}
use task_orchestrator.Orchestrator.{task_demand, add_load, dispatch, release_owner}
use task_orchestrator.Orchestrator.Demands.{
  part, owned_demand, owned_demand-assign, owned_demand-erase_key, owned_demand-positive,
}

-- The load of an actor from which a task is taken that it owns, or does not.
abbrev load_less : Bool → ℤ → ℤ → ℤ
load_less own demand load =
    if own && ltb_ℤ (pos 0) load then max_ℤ (pos 0) (load -ℤ demand) else load

-- Taking the demand of one of its tasks from a load leaves the rest, which is never negative.
load_less-rest :
    (own : Bool) (demand load base rest : ℤ)
    → load ≡ base +ℤ (rest +ℤ (if own then demand else pos 0))
    → pos 0 ≤ℤ demand
    → pos 0 ≤ℤ base
    → pos 0 ≤ℤ rest
    → load_less own demand load ≡ base +ℤ rest
load_less-rest true demand load base rest e d b r =
    let p : pos_part load ≡ pos_part (base +ℤ (rest +ℤ demand)) = ap pos_part e in
    let n : neg_part load ≡ neg_part (base +ℤ (rest +ℤ demand)) = ap neg_part e in
    ground (
      arith,
      p,
      n,
      +ℤ_parts base (rest +ℤ demand),
      +ℤ_parts rest demand,
      +ℤ_parts base rest,
      -ℤ_parts load demand,
      eq_of_parts (load -ℤ demand) (base +ℤ rest),
      eq_of_parts load (base +ℤ rest),
      eq_of_parts (pos 0) (base +ℤ rest),
    )
load_less-rest false demand load base rest e d b r =
    e ∙ ap (λ l. base +ℤ l) (omega (arith, +ℤ_parts rest (pos 0), eq_of_parts))

module _ {D : Type 0} where
  get-put_back :
      (k id : String) (a : Actor D) (r : ActorRegistry D)
      → get id (put_back k a r) ≡ (if k == id then some a else get id r)
  unfolding get put_back
  get-put_back k id a r = lookup-assign k id a r.actors

  -- Adding to an actor's load changes no other actor's load.
  get-add_load :
      (k id : String) (demand : ℤ) (r : ActorRegistry D) (actor' : Actor D)
      → get id (add_load k demand r) ≡ some actor'
      → (actor : Actor D) × (get id r ≡ some actor)
        × (actor'.current_load ≡ actor.current_load +ℤ (if k == id then demand else pos 0))
  unfolding add_load
  get-add_load k id demand r actor' h =
      let bump =
        λ (actor : Actor D). record actor { current_load = actor.current_load +ℤ demand } in
      elim (Option-cases (get k r)) [
        | inl g ↦
            let there : get id r ≡ some actor' = rw (g, add_load) at h in
            elim (Bool-cases (k == id)) [
              | inl e ↦ absurd (cc (subst (λ i. get i r ≡ none) ((eq_iff k id).0 e) g, there))
              | inr e ↦ (actor', there, rw e (omega (arith, +ℤ_parts, eq_of_parts)))
            ]
        | inr (actor, g) ↦
            let put : (if k == id then some (bump actor) else get id r) ≡ some actor' =
              sym (get-put_back k id (bump actor) r) ∙ (rw (g, add_load) at h) in
            elim (Bool-cases (k == id)) [
              | inl e ↦ (
                actor,
                subst (λ i. get i r ≡ some actor) ((eq_iff k id).0 e) g,
                rw e (
                    ap (λ (x : Actor D). x.current_load)
                      (sym (some-injective (bump actor) actor' (rw e at put)))),
              )
              | inr e ↦ (actor', rw e at put, rw e (omega (arith, +ℤ_parts, eq_of_parts)))
            ]
      ]

  release_owner-load :
      (workflow : Workflow D) (id owner_id k : String) (s : WorkflowState × ActorRegistry D)
      (actor' : Actor D)
      → lookup id s.0.task_actor ≡ some owner_id
      → get k (release_owner workflow id s).1 ≡ some actor'
      → (actor : Actor D) × (get k s.1 ≡ some actor)
        × (actor'.current_load
            ≡ load_less (owner_id == k) (task_demand workflow id) actor.current_load)
  unfolding release_owner
  release_owner-load workflow id owner_id k s actor' e h = elim (Option-cases (get owner_id s.1)) [
    | inl g ↦
        let there : get k s.1 ≡ some actor' = rw (e, release_owner, g) at h in
        elim (Bool-cases (owner_id == k)) [
          | inl own ↦
              absurd (cc (subst (λ i. get i s.1 ≡ none) ((eq_iff owner_id k).0 own) g, there))
          | inr other ↦ (actor', there, rw other refl)
        ]
    | inr (owner, g) ↦ elim (Bool-cases (ltb_ℤ (pos 0) owner.current_load)) [
      | inr low ↦
          let there : get k s.1 ≡ some actor' = rw (e, release_owner, g, low) at h in
          elim (Bool-cases (owner_id == k)) [
            | inr other ↦ (actor', there, rw other refl)
            | inl own ↦
                let same : owner ≡ actor' = some-injective owner actor' (
                  sym g
                  ∙ subst (λ i. get i s.1 ≡ some actor') (sym ((eq_iff owner_id k).0 own)) there) in
                (
                  actor',
                  there,
                  rw (own, subst (λ (x : Actor D). ltb_ℤ (pos 0) x.current_load ≡ false) same low)
                      refl,
                )
          ]
      | inl high ↦
          let load = max_ℤ (pos 0) (owner.current_load -ℤ task_demand workflow id) in
          let put : (if owner_id == k
                then some (record owner { current_load = load })
                else get k s.1)
              ≡ some actor' =
            sym (get-put_back owner_id k (record owner { current_load = load }) s.1)
            ∙ (rw (e, release_owner, g, high) at h) in
          elim (Bool-cases (owner_id == k)) [
            | inr other ↦ (actor', rw other at put, rw other refl)
            | inl own ↦ (
              owner,
              subst (λ i. get i s.1 ≡ some owner) ((eq_iff owner_id k).0 own) g,
              rw (own, high)
                  (ap (λ (x : Actor D). x.current_load)
                    (sym (
                      some-injective (record owner { current_load = load }) actor'
                        (rw own at put)))),
            )
          ]
    ]
  ]

  pub release_owner-task_actor :
      (workflow : Workflow D) (id owner_id : String) (s : WorkflowState × ActorRegistry D)
      → lookup id s.0.task_actor ≡ some owner_id
      → (release_owner workflow id s).0.task_actor ≡ erase_key id s.0.task_actor
  unfolding release_owner
  release_owner-task_actor workflow id owner_id s e = elim (Option-cases (get owner_id s.1)) [
    | inl g ↦ rw (e, release_owner, g) refl
    | inr (owner, g) ↦ elim (Bool-cases (ltb_ℤ (pos 0) owner.current_load)) [
      | inl high ↦ rw (e, release_owner, g, high) refl
      | inr low ↦ rw (e, release_owner, g, low) refl
    ]
  ]

  -- What each actor's load is made of: a load of its own, and the demand of the tasks it owns.
  abbrev pub IsAccounted : (String → ℤ) → Workflow D → WorkflowState × ActorRegistry D → Type 0
  IsAccounted base workflow s =
      (id : String) (actor : Actor D)
      → get id s.1 ≡ some actor
      → actor.current_load ≡ base id +ℤ owned_demand workflow id s.0.task_actor

  module _ (base : String → ℤ) (workflow : Workflow D) where
    pub dispatch-IsAccounted :
        (a : Assignment) (s : WorkflowState × ActorRegistry D)
        → lookup a.task_id s.0.task_actor ≡ none
        → IsAccounted base workflow s
        → IsAccounted base workflow (dispatch workflow a s)
    unfolding dispatch
    dispatch-IsAccounted a s absent h id actor' registered =
        let (actor, before, load) =
          get-add_load a.actor_id id (task_demand workflow a.task_id) s.1 actor' registered in
        load
        ∙ ap (λ l. l +ℤ part workflow id (a.task_id, a.actor_id)) (h id actor before)
        ∙ +ℤ_assoc (base id) (owned_demand workflow id s.0.task_actor) _
        ∙ ap (λ l. base id +ℤ l)
            (sym (owned_demand-assign workflow id a.task_id a.actor_id s.0.task_actor absent))

    pub release_owner-IsAccounted :
        (id : String) (s : WorkflowState × ActorRegistry D)
        → IsMap s.0.task_actor
        → ((t : String) → pos 0 ≤ℤ task_demand workflow t)
        → ((k : String) → pos 0 ≤ℤ base k)
        → IsAccounted base workflow s
        → IsAccounted base workflow (release_owner workflow id s)
    unfolding release_owner
    release_owner-IsAccounted id s mapped demands bases h k actor' registered =
        elim (Option-cases (lookup id s.0.task_actor)) [
          | inl e ↦ rw (e, release_owner) (h k actor' (rw (e, release_owner) at registered))
          | inr (owner_id, e) ↦
              let (actor, before, load) =
                release_owner-load workflow id owner_id k s actor' e registered in
              rw (release_owner-task_actor workflow id owner_id s e) (
                load
                ∙ load_less-rest (owner_id == k) (task_demand workflow id) actor.current_load
                    (base k) (owned_demand workflow k (erase_key id s.0.task_actor))
                    (h k actor before
                      ∙ ap (λ l. base k +ℤ l)
                          (sym (
                            owned_demand-erase_key workflow k id owner_id s.0.task_actor mapped e)))
                    (demands id) (bases k)
                    (owned_demand-positive workflow k (erase_key id s.0.task_actor) demands))
        ]
