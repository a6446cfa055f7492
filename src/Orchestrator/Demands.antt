-- ===== src/Orchestrator/Demands.antt =====
-- The demand of the tasks that an actor owns, as owners come and go.
use mathlib.Core.Option.{some-injective}
use mathlib.Core.Path.{subst₂}
use task_orchestrator.Base.{
  +ℤ_comm, +ℤ_assoc, subst, ℤ, pos, ◌+ℤ◌, ◌≤ℤ◌, +ℤ_parts, eq_of_parts, ◌≡◌, refl, sym, ◌∙◌, ap, inl,
  inr, String, false, List, [], ◌∷◌, Option, none, some, lookup, assign, erase_key,
  lookup-erase_key, IsMap, is_some, Bool-cases, arith, eq_iff, ◌==◌, if◌then◌else◌,
}
use task_orchestrator.Workflow.{Workflow}
use task_orchestrator.Orchestrator.{task_demand}

erase_key-absent {ℓ} :
    {V : Type ℓ} (k : String) (m : List (String × V)) → lookup k m ≡ none → erase_key k m ≡ m
unfolding lookup erase_key
erase_key-absent k [] h = refl
erase_key-absent k ((j, v) ∷ m) h = elim (Bool-cases (j == k)) [
  | inl e ↦ absurd (cc (rw e at h))
  | inr e ↦ rw e (ap (λ l. (j, v) ∷ l) (erase_key-absent k m (rw e at h)))
]

pub erase_key-IsMap {ℓ} :
    {V : Type ℓ} (k : String) (m : List (String × V)) → IsMap m → IsMap (erase_key k m)
unfolding erase_key
erase_key-IsMap k [] h = tt
erase_key-IsMap k ((j, v) ∷ m) h = elim (Bool-cases (j == k)) [
  | inl e ↦ rw e (erase_key-IsMap k m h.1)
  | inr e ↦ rw e (ground (arith, h.0, lookup-erase_key k j m), erase_key-IsMap k m h.1)
]

absent_of {ℓ} : {V : Type ℓ} (o : Option V) → is_some o ≡ false → o ≡ none
absent_of none h = refl
absent_of (some v) h = cc

module _ {D : Type 0} (workflow : Workflow D) (id : String) where
  -- The demand of a task, where the actor owns it.
  abbrev pub part : String × String → ℤ
  part (t, owner) = if owner == id then task_demand workflow t else pos 0

  -- The demand of the tasks that the actor owns.
  abbrev pub owned_demand : List (String × String) → ℤ
  owned_demand [] = pos 0
  owned_demand ((t, owner) ∷ m) = part (t, owner) +ℤ owned_demand m

  pub owned_demand-assign :
      (t owner : String) (m : List (String × String))
      → lookup t m ≡ none
      → owned_demand (assign t owner m) ≡ owned_demand m +ℤ part (t, owner)
  unfolding lookup assign
  owned_demand-assign t owner [] h = omega (arith, +ℤ_parts, eq_of_parts)
  owned_demand-assign t owner ((j, w) ∷ m) h = elim (Bool-cases (j == t)) [
    | inl e ↦ absurd (cc (rw e at h))
    | inr e ↦
        rw (e, assign)
          (ap (λ r. part (j, w) +ℤ r) (owned_demand-assign t owner m (rw e at h))
            ∙ sym (+ℤ_assoc (part (j, w)) (owned_demand m) (part (t, owner))))
  ]

  pub owned_demand-erase_key :
      (t owner : String) (m : List (String × String))
      → IsMap m
      → lookup t m ≡ some owner
      → owned_demand (erase_key t m) +ℤ part (t, owner) ≡ owned_demand m
  unfolding lookup erase_key
  owned_demand-erase_key t owner [] mapped h = cc
  owned_demand-erase_key t owner ((j, w) ∷ m) mapped h = elim (Bool-cases (j == t)) [
    | inl e ↦
        let key : j ≡ t = (eq_iff j t).0 e in
        let value : w ≡ owner = some-injective w owner (rw e at h) in
        let absent : lookup t m ≡ none =
          subst (λ i. lookup i m ≡ none) key (absent_of (lookup j m) mapped.0) in
        rw (e, erase_key)
          (ap (λ l. owned_demand l +ℤ part (t, owner)) (erase_key-absent t m absent)
            ∙ +ℤ_comm (owned_demand m) (part (t, owner))
            ∙ subst₂ (λ i o. part (t, owner) +ℤ owned_demand m ≡ part (i, o) +ℤ owned_demand m)
                (sym key) (sym value) refl)
    | inr e ↦
        rw (e, erase_key)
          (+ℤ_assoc (part (j, w)) (owned_demand (erase_key t m)) (part (t, owner))
            ∙ ap (λ r. part (j, w) +ℤ r) (owned_demand-erase_key t owner m mapped.1 (rw e at h)))
  ]

  pub owned_demand-positive :
      (m : List (String × String))
      → ((t : String) → pos 0 ≤ℤ task_demand workflow t)
      → pos 0 ≤ℤ owned_demand m
  owned_demand-positive [] h = omega arith
  owned_demand-positive ((t, owner) ∷ m) h = elim (Bool-cases (owner == id)) [
    | inl e ↦ rw e (omega (arith, h t, owned_demand-positive m h, +ℤ_parts))
    | inr e ↦ rw e (omega (arith, owned_demand-positive m h, +ℤ_parts))
  ]
