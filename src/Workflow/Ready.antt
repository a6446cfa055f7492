-- ===== src/Workflow/Ready.antt =====
-- Which phases workflow.cpp calls ready.
use task_orchestrator.Base.{
  ◌≡◌, refl, inl, inr, String, Bool, true, false, List, [], ◌∷◌, Option, none, some, contains,
  lookup, ℕ, zero, suc, ◌<◌, ◌∙◌, All, All-lookup, all_of_fails, IsMap, assign-IsMap, is_some,
  Option-cases, all_of, eq_iff, ◌==◌, arith, if◌then◌else◌, Bool-cases,
}
use task_orchestrator.Data.{Phase}
use task_orchestrator.Workflow.{
  Workflow, is_empty, is_ready, root_ids, ready_ids, add_phase, phase, root_phases, ready_phases,
}

-- What `ready_phases` should say of an id, by what the phase map holds for it.
abbrev pub ready_of : List String → String → Option Phase → Bool
ready_of completed id none = false
ready_of completed id (some p) = is_ready completed id p

ready_ids-absent :
    (completed : List String) (id : String) (m : List (String × Phase))
    → is_some (lookup id m) ≡ false
    → contains id (ready_ids completed m) ≡ false
unfolding ready_ids contains lookup
ready_ids-absent completed id [] h = refl
ready_ids-absent completed id ((k, p) ∷ m) h = ground (arith, ready_ids-absent completed id m)

contains-ready_ids :
    (completed : List String) (id : String) (m : List (String × Phase))
    → IsMap m
    → contains id (ready_ids completed m) ≡ ready_of completed id (lookup id m)
unfolding ready_ids contains lookup
contains-ready_ids completed id [] h = refl
contains-ready_ids completed id ((k, p) ∷ m) h = elim (Bool-cases (k == id)) [
  | inl e ↦ ground (arith, eq_iff k id, ready_ids-absent completed id m)
  | inr e ↦ ground (arith, contains-ready_ids completed id m h.1)
]

module _ {D : Type 0} where
  -- A phase is ready exactly if it is in the workflow, is not completed, and all of the phases
  -- that it depends on are completed; where the phase map is a map.
  pub contains-ready_phases :
      (w : Workflow D) (completed : List String) (id : String)
      → IsMap w.phases
      → contains id (ready_phases w completed) ≡ ready_of completed id (phase w id)
  unfolding ready_phases phase
  contains-ready_phases w completed id h = contains-ready_ids completed id w.phases h

  -- Adding phases keeps the phase map a map.
  pub add_phase-IsMap : (w : Workflow D) (p : Phase) → IsMap w.phases → IsMap (add_phase w p).phases
  unfolding add_phase
  add_phase-IsMap w p h = assign-IsMap p.id p w.phases h

root_ids-eq : (m : List (String × Phase)) → root_ids m ≡ ready_ids [] m
unfolding root_ids ready_ids contains
root_ids-eq [] = refl
root_ids-eq ((k, p) ∷ m) = rw (root_ids-eq m) (roots p.dependency_phase_ids)
  where
    roots :
        (deps : List String)
        → (if is_empty deps then k ∷ ready_ids [] m else ready_ids [] m)
          ≡ (if all_of (λ dep. false) deps then k ∷ ready_ids [] m else ready_ids [] m)
    roots [] = refl
    roots (d ∷ ds) = refl

-- The roots are the phases that are ready at the start, in the same order.
pub root_phases-eq-ready_phases : {D : Type 0} (w : Workflow D) → root_phases w ≡ ready_phases w []
unfolding root_phases ready_phases
root_phases-eq-ready_phases w = root_ids-eq w.phases

-- The dependencies of every phase are phases of the workflow, and of lower rank.
abbrev pub IsRanked : (String → ℕ) → List (String × Phase) → Type 0
IsRanked rank m =
    All
      (λ kv.
        All (λ dep. (rank dep < rank kv.0) × (is_some (lookup dep m) ≡ true))
          kv.1.dependency_phase_ids)
      m

module _ {D : Type 0} (w : Workflow D) (completed : List String) (rank : String → ℕ)
    (unique : IsMap w.phases) (ranked : IsRanked rank w.phases) where
  ready_now :
      (id : String) (p : Phase)
      → lookup id w.phases ≡ some p
      → contains id completed ≡ false
      → all_of (λ dep. contains dep completed) p.dependency_phase_ids ≡ true
      → ready_of completed id (phase w id) ≡ true
  unfolding phase
  ready_now id p found open_ deps = rw found (rw open_ deps)

  descend :
      (n : ℕ) (id : String) (p : Phase)
      → rank id < n
      → lookup id w.phases ≡ some p
      → contains id completed ≡ false
      → (r : String) × (contains r (ready_phases w completed) ≡ true)
  descend zero id p below found open_ = absurd (omega arith)
  descend (suc n) id p below found open_ =
      elim (Bool-cases (all_of (λ dep. contains dep completed) p.dependency_phase_ids)) [
        | inl e ↦ (id, contains-ready_phases w completed id unique ∙ ready_now id p found open_ e)
        | inr e ↦
            let (dep, missing, fact) =
              all_of_fails (λ dep. (rank dep < rank id) × (is_some (lookup dep w.phases) ≡ true)) _
                _
                (All-lookup
                  (λ kv.
                    All (λ dep. (rank dep < rank kv.0) × (is_some (lookup dep w.phases) ≡ true))
                      kv.1.dependency_phase_ids)
                  id w.phases ranked found)
                e in
            elim (Option-cases (lookup dep w.phases)) [
              | inl none_ ↦ absurd (ground arith)
              | inr (q, at_dep) ↦ descend n dep q (omega arith) at_dep missing
            ]
      ]

  -- In a workflow whose phase map is a map and whose phases depend on phases of the workflow of a
  -- lower rank only, some phase is ready as long as one is not completed.
  pub ready_phases-progress :
      (id : String)
      → is_some (phase w id) ≡ true
      → contains id completed ≡ false
      → (r : String) × (contains r (ready_phases w completed) ≡ true)
  unfolding phase
  ready_phases-progress id known open_ = elim (Option-cases (lookup id w.phases)) [
    | inl none_ ↦ absurd (ground arith)
    | inr (p, found) ↦ descend (suc (rank id)) id p (omega arith) found open_
  ]
