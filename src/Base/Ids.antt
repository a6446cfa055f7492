-- ===== src/Base/Ids.antt =====
-- Texts as identifiers: sets of them as lists, and maps from them as association lists.
-- The order of an association list stands for the iteration order of a hash map.
use Prim.Native.Nat.{Ordering, suc, ◌≤◌}
use Prim.Native.String.{String}
use Prim.Native.String
use mathlib.Core.Path.{◌≡◌, refl, sym, subst, subst₂, ◌∙◌}
use mathlib.Core.Bool.{Bool, true, false, not, ◌||◌}
use mathlib.Core.Option.{Option, none, some, some-injective}
use mathlib.Core.List.{List, [], ◌∷◌, ◌++◌}
use native.Mathlib.Omega.{arith}
use text.Mathlib.Text.{◌==◌}
use text.Mathlib.TextEquality.{eq_iff}
use mathlib.Core.Logic.{inl, inr}
use task_orchestrator.Base.Tests.{if◌then◌else◌, Bool-cases, is_some}
use task_orchestrator.Base.Lists.{keep_if, any_of, length, length-append, All, All-mono}

-- `a < b` of `std::string`: by bytes.
abbrev pub lt_id : String → String → Bool
lt_id a b = elim (String.compare a b) [ Ordering.lt ↦ true | _ ↦ false ]

unfoldable pub contains : String → List String → Bool
contains x [] = false
contains x (y ∷ ys) = y == x || contains x ys

-- `erase` by value: every occurrence goes.
unfoldable pub erase_value : String → List String → List String
erase_value x ys = keep_if (λ y. not (y == x)) ys

-- `insert` into a set.
unfoldable pub add_id : String → List String → List String
add_id x ys = if contains x ys then ys else ys ++ x ∷ []

module _ {ℓ} {V : Type ℓ} where
  unfoldable pub lookup : String → List (String × V) → Option V
  lookup k [] = none
  lookup k ((j, v) ∷ m) = if j == k then some v else lookup k m

  -- `m[k] = v`.
  unfoldable pub assign : String → V → List (String × V) → List (String × V)
  assign k v [] = (k, v) ∷ []
  assign k v ((j, w) ∷ m) = if j == k then (k, v) ∷ m else (j, w) ∷ assign k v m

  -- `m.emplace(k, v)`: nothing happens where the key is there.
  unfoldable pub emplace : String → V → List (String × V) → List (String × V)
  emplace k v [] = (k, v) ∷ []
  emplace k v ((j, w) ∷ m) = if j == k then (j, w) ∷ m else (j, w) ∷ emplace k v m

  -- `m.erase(k)`.
  unfoldable pub erase_key : String → List (String × V) → List (String × V)
  erase_key k [] = []
  erase_key k ((j, w) ∷ m) = if j == k then erase_key k m else (j, w) ∷ erase_key k m

  pub lookup-assign :
      (k j : String) (v : V) (m : List (String × V))
      → lookup j (assign k v m) ≡ (if k == j then some v else lookup j m)
  unfolding lookup assign
  lookup-assign k j v [] = refl
  lookup-assign k j v ((i, w) ∷ m) =
      ground (arith, eq_iff k j, eq_iff i k, eq_iff i j, lookup-assign k j v m)

  pub lookup-erase_key :
      (k j : String) (m : List (String × V))
      → lookup j (erase_key k m) ≡ (if k == j then none else lookup j m)
  unfolding lookup erase_key
  lookup-erase_key k j [] = ground arith
  lookup-erase_key k j ((i, w) ∷ m) =
      ground (arith, eq_iff k j, eq_iff i k, eq_iff i j, lookup-erase_key k j m)

abbrev pub or_value {ℓ} : {A : Type ℓ} → Option A → A → Option A
or_value none v = some v
or_value (some w) v = some w

pub lookup-emplace {ℓ} :
    {V : Type ℓ} (k j : String) (v : V) (m : List (String × V))
    → lookup j (emplace k v m) ≡ (if k == j then or_value (lookup k m) v else lookup j m)
unfolding lookup emplace
lookup-emplace k j v [] = refl
lookup-emplace k j v ((i, w) ∷ m) =
    ground (arith, eq_iff k j, eq_iff i k, eq_iff i j, lookup-emplace k j v m)

pub contains-append :
    (x : String) (xs ys : List String) → contains x (xs ++ ys) ≡ (contains x xs || contains x ys)
unfolding contains
contains-append x [] ys = refl
contains-append x (y ∷ xs) ys = ground (arith, contains-append x xs ys)

pub contains-add_id :
    (x y : String) (ys : List String) → contains y (add_id x ys) ≡ (contains y ys || x == y)
unfolding add_id
contains-add_id x y ys = elim (Bool-cases (contains x ys)) [
  | inl e ↦ rw e (elim (Bool-cases (x == y)) [
    | inl same ↦
        let e' : contains y ys ≡ true = subst (λ i. contains i ys ≡ true) ((eq_iff x y).0 same) e in
        rw (same, e')
    | inr other ↦ ground (arith, other)
  ])
  | inr e ↦ rw e (contains-append y ys (x ∷ []) ∙ (unfold contains in ground arith))
]

pub length-add_id : (x : String) (ys : List String) → length (add_id x ys) ≤ suc (length ys)
unfolding add_id
length-add_id x ys = ground (arith, length-append ys (x ∷ []))

pub contains-erase_value :
    (x y : String) (ys : List String)
    → contains y (erase_value x ys) ≡ (if x == y then false else contains y ys)
unfolding contains erase_value
contains-erase_value x y [] = ground arith
contains-erase_value x y (z ∷ ys) =
    ground (arith, eq_iff x y, eq_iff z x, eq_iff z y, contains-erase_value x y ys)

-- Every key of a map stands in it once.
abbrev pub IsMap {ℓ} : {V : Type ℓ} → List (String × V) → Type 0
IsMap [] = Unit
IsMap ((k, v) ∷ m) = (is_some (lookup k m) ≡ false) × IsMap m

module _ {ℓ} {V : Type ℓ} where
  pub assign-IsMap : (k : String) (v : V) (m : List (String × V)) → IsMap m → IsMap (assign k v m)
  unfolding assign
  assign-IsMap k v [] h = (unfold lookup in refl, tt)
  assign-IsMap k v ((j, w) ∷ m) h = elim (Bool-cases (j == k)) [
    | inl e ↦ rw e (subst (λ i. is_some (lookup i m) ≡ false) ((eq_iff j k).0 e) h.0, h.1)
    | inr e ↦ rw e (
      rw (lookup-assign k j v m) (ground (arith, eq_iff j k, eq_iff k j)),
      assign-IsMap k v m h.1,
    )
  ]

  -- What holds of every entry of a map holds of the one that is found.
  pub All-lookup :
      (P : String × V → Type 0) (k : String) (m : List (String × V)) {v : V}
      → All P m
      → lookup k m ≡ some v
      → P (k, v)
  unfolding lookup
  All-lookup P k [] a h = cc
  All-lookup P k ((j, w) ∷ m) {v} a h = elim (Bool-cases (j == k)) [
    | inl e ↦
        let hit : some w ≡ some v = rw e at h in
        let value : w ≡ v = some-injective w v hit in
        let key : j ≡ k = (eq_iff j k).0 e in subst₂ (λ x y. P (x, y)) key value a.0
    | inr e ↦ All-lookup P k m a.1 (rw e at h)
  ]

  pub All-assign :
      (P : String × V → Type 0) (k : String) (v : V) (m : List (String × V))
      → P (k, v)
      → All P m
      → All P (assign k v m)
  unfolding assign
  All-assign P k v [] p a = (p, tt)
  All-assign P k v ((j, w) ∷ m) p a = elim (Bool-cases (j == k)) [
    | inl e ↦ rw e (p, a.1)
    | inr e ↦ rw e (a.0, All-assign P k v m p a.1)
  ]

-- A list has every one of its elements.
pub All-contained : (xs : List String) → All (λ x. contains x xs ≡ true) xs
unfolding contains
All-contained [] = tt
All-contained (x ∷ xs) = (
  ground (arith, eq_iff x x),
  All-mono (λ y. contains y xs ≡ true) (λ y. contains y (x ∷ xs) ≡ true) xs
      (λ y h. ground (arith, h)) (All-contained xs),
)

-- A test that fails for every element fails for one that the list has.
pub contains-any_of :
    (p : String → Bool) (x : String) (xs : List String)
    → any_of p xs ≡ false
    → p x ≡ true
    → contains x xs ≡ false
unfolding contains
contains-any_of p x [] h k = refl
contains-any_of p x (y ∷ ys) h k = elim (Bool-cases (y == x)) [
  | inl e ↦
      let hit = subst (λ z. p z ≡ true) (sym ((eq_iff y x).0 e)) k in
      absurd (ground (arith, hit, h))
  | inr e ↦ rw e (contains-any_of p x ys (ground (arith, h)) k)
]
