-- ===== src/Base/Sorting.antt =====
-- `std::ranges::sort`, as a stable insertion sort: one of the results that the standard allows.
use mathlib.Core.Path.{◌≡◌}
use mathlib.Core.Bool.{Bool, true, false}
use mathlib.Core.List.{List, [], ◌∷◌, Perm}
use mathlib.Core.List.Perm
use mathlib.Core.Logic.{◌⊎◌, inl, inr}
use task_orchestrator.Base.Tests.{if◌then◌else◌, Bool-cases}
use task_orchestrator.Base.Lists.{All, Any, All-mono}

module _ {ℓ} {A : Type ℓ} (lt : A → A → Bool) where
  unfoldable pub insert_by : A → List A → List A
  insert_by x [] = x ∷ []
  insert_by x (y ∷ ys) = if lt y x then y ∷ insert_by x ys else x ∷ y ∷ ys

  unfoldable pub sort_by : List A → List A
  unfolding insert_by
  sort_by [] = []
  sort_by (x ∷ xs) = insert_by x (sort_by xs)

  insert_by-perm : (x : A) (ys : List A) → Perm (insert_by x ys) (x ∷ ys)
  unfolding insert_by
  insert_by-perm x [] = Perm.rfl
  insert_by-perm x (y ∷ ys) = elim (Bool-cases (lt y x)) [
    | inl e ↦ rw e (Perm.trans (Perm.cons y (insert_by-perm x ys)) (Perm.swap x y ys))
    | inr e ↦ rw e Perm.rfl
  ]

  -- Sorting keeps the elements, each as often as it was there.
  pub sort_by-perm : (xs : List A) → Perm (sort_by xs) xs
  unfolding sort_by
  sort_by-perm [] = Perm.rfl
  sort_by-perm (x ∷ xs) = Perm.trans (insert_by-perm x (sort_by xs)) (Perm.cons x (sort_by-perm xs))

  module _ {κ} (P : A → Type κ) where
    pub All-insert_by : (x : A) (ys : List A) → P x → All P ys → All P (insert_by x ys)
    unfolding insert_by
    All-insert_by x [] px h = (px, tt)
    All-insert_by x (y ∷ ys) px h = elim (Bool-cases (lt y x)) [
      | inl e ↦ rw e (h.0, All-insert_by x ys px h.1)
      | inr e ↦ rw e (px, h)
    ]

    pub All-sort_by : (xs : List A) → All P xs → All P (sort_by xs)
    unfolding sort_by
    All-sort_by [] h = tt
    All-sort_by (x ∷ xs) h = All-insert_by x (sort_by xs) h.0 (All-sort_by xs h.1)

  module _ (P : A → Type 0) where
    swap_front :
        (x y : A) (xs ys : List A)
        → (Any P ys → P x ⊎ Any P xs)
        → P y ⊎ Any P ys
        → P x ⊎ (P y ⊎ Any P xs)
    swap_front x y xs ys f (inl py) = inr (inl py)
    swap_front x y xs ys f (inr rest) = elim (f rest) [ inl px ↦ inl px | inr r ↦ inr (inr r) ]

    insert_by-Any : (x : A) (ys : List A) → Any P (insert_by x ys) → P x ⊎ Any P ys
    unfolding insert_by
    insert_by-Any x [] h = h
    insert_by-Any x (y ∷ ys) h = elim (Bool-cases (lt y x)) [
      | inl e ↦ swap_front x y ys (insert_by x ys) (insert_by-Any x ys) (rw e at h)
      | inr e ↦ rw e at h
    ]

    pub sort_by-Any : (xs : List A) → Any P (sort_by xs) → Any P xs
    unfolding sort_by
    sort_by-Any [] h = h
    sort_by-Any (x ∷ xs) h = elim (insert_by-Any x (sort_by xs) h) [
      | inl px ↦ inl px
      | inr rest ↦ inr (sort_by-Any xs rest)
    ]

  module _ (P : A → Type 0) where
    insert_by-Any_self : (x : A) (ys : List A) → P x ⊎ Any P ys → Any P (insert_by x ys)
    unfolding insert_by
    insert_by-Any_self x [] h = h
    insert_by-Any_self x (y ∷ ys) h = elim (Bool-cases (lt y x)) [
      | inl e ↦ rw e (elim h [
        | inl px ↦ inr (insert_by-Any_self x ys (inl px))
        | inr rest ↦ elim rest [
          | inl py ↦ inl py
          | inr later ↦ inr (insert_by-Any_self x ys (inr later))
        ]
      ])
      | inr e ↦ rw e h
    ]

    pub Any-sort_by : (xs : List A) → Any P xs → Any P (sort_by xs)
    unfolding sort_by
    Any-sort_by [] h = h
    Any-sort_by (x ∷ xs) (inl px) = insert_by-Any_self x (sort_by xs) (inl px)
    Any-sort_by (x ∷ xs) (inr rest) = insert_by-Any_self x (sort_by xs) (inr (Any-sort_by xs rest))

  -- No later element is less than an earlier one.
  abbrev pub IsSortedBy : List A → Type 0
  IsSortedBy [] = Unit
  IsSortedBy (x ∷ ys) = All (λ y. lt y x ≡ false) ys × IsSortedBy ys

  -- For a strict weak order the result of sorting is sorted.
  module _ (asym : (x y : A) → lt x y ≡ true → lt y x ≡ false)
      (trans : (x y z : A) → lt y x ≡ false → lt z y ≡ false → lt z x ≡ false) where
    pub insert_by-IsSortedBy : (x : A) (ys : List A) → IsSortedBy ys → IsSortedBy (insert_by x ys)
    unfolding insert_by
    insert_by-IsSortedBy x [] s = (tt, tt)
    insert_by-IsSortedBy x (y ∷ ys) s = elim (Bool-cases (lt y x)) [
      | inl e ↦
          rw e (
            All-insert_by (λ z. lt z y ≡ false) x ys (asym y x e) s.0,
            insert_by-IsSortedBy x ys s.1,
          )
      | inr e ↦ rw e (
        (e, All-mono (λ z. lt z y ≡ false) (λ z. lt z x ≡ false) ys (λ z h. trans x y z e h) s.0),
        s,
      )
    ]

    pub sort_by-IsSortedBy : (xs : List A) → IsSortedBy (sort_by xs)
    unfolding sort_by
    sort_by-IsSortedBy [] = tt
    sort_by-IsSortedBy (x ∷ xs) = insert_by-IsSortedBy x (sort_by xs) (sort_by-IsSortedBy xs)
