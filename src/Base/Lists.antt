-- ===== src/Base/Lists.antt =====
-- Lists measured by native numbers, Boolean folds over them, and the predicate `All`.
use Prim.Native.Nat.{ℕ, suc, ◌+◌, ◌≤◌}
use mathlib.Core.Path.{◌≡◌, refl, sym, subst}
use mathlib.Core.Bool.{Bool, true, false, ◌&&◌, ◌||◌}
use mathlib.Core.List.{List, [], ◌∷◌, ◌++◌}
use mathlib.Core.Option.{Option, none, some}
use native.Mathlib.Omega.{arith}
use mathlib.Core.Logic.{◌⊎◌, inl, inr}
use task_orchestrator.Base.Tests.{if◌then◌else◌, Bool-cases}

module _ {ℓ} {A : Type ℓ} where
  abbrev pub length : List A → ℕ
  length [] = 0
  length (x ∷ xs) = suc (length xs)

  pub length-append : (xs ys : List A) → length (xs ++ ys) ≡ length xs + length ys
  length-append [] ys = omega arith
  length-append (x ∷ xs) ys = omega (arith, length-append xs ys)

  -- `std::ranges::all_of`, `any_of`, `find_if` and `remove_if` over a test.
  abbrev pub all_of : (A → Bool) → List A → Bool
  all_of p [] = true
  all_of p (x ∷ xs) = p x && all_of p xs

  abbrev pub any_of : (A → Bool) → List A → Bool
  any_of p [] = false
  any_of p (x ∷ xs) = p x || any_of p xs

  abbrev pub find_if : (A → Bool) → List A → Option A
  find_if p [] = none
  find_if p (x ∷ xs) = if p x then some x else find_if p xs

  abbrev pub keep_if : (A → Bool) → List A → List A
  keep_if p [] = []
  keep_if p (x ∷ xs) = if p x then x ∷ keep_if p xs else keep_if p xs

-- A predicate by recursion computes to tuples, which the tactics read and build.
abbrev pub All {ℓ κ} : {A : Type ℓ} → (A → Type κ) → List A → Type κ
All P [] = Unit
All P (x ∷ xs) = P x × All P xs

-- Every two elements of the list are related, the earlier to the later.
abbrev pub AllPairs : {A : Type 0} → (A → A → Type 0) → List A → Type 0
AllPairs R [] = Unit
AllPairs R (x ∷ xs) = All (R x) xs × AllPairs R xs

-- Some element has the property, and the proof says which.
abbrev pub Any {ℓ} : {A : Type ℓ} → (A → Type 0) → List A → Type 0
Any P [] = ⊥
Any P (x ∷ xs) = P x ⊎ Any P xs

module _ {ℓ κ} {A : Type ℓ} (P : A → Type κ) where
  pub All-append : (xs ys : List A) → All P xs → All P ys → All P (xs ++ ys)
  All-append [] ys hx hy = hy
  All-append (x ∷ xs) ys hx hy = (hx.0, All-append xs ys hx.1 hy)

  pub All-mono {μ} : (Q : A → Type μ) (xs : List A) → ((x : A) → P x → Q x) → All P xs → All Q xs
  All-mono Q [] f h = tt
  All-mono Q (x ∷ xs) f h = (f x h.0, All-mono Q xs f h.1)

  pub All-keep_if : (p : A → Bool) (xs : List A) → All P xs → All P (keep_if p xs)
  All-keep_if p [] h = tt
  All-keep_if p (x ∷ xs) h = ground (arith, All-keep_if p xs h.1)

pub all_of-All {ℓ} :
    {A : Type ℓ} (p : A → Bool) (xs : List A) → all_of p xs ≡ true → All (λ x. p x ≡ true) xs
all_of-All p [] h = tt
all_of-All p (x ∷ xs) h = (ground arith, all_of-All p xs (ground arith))

pub keep_if-All {ℓ} :
    {A : Type ℓ} (p : A → Bool) (xs : List A) → All (λ x. p x ≡ true) (keep_if p xs)
keep_if-All p [] = tt
keep_if-All p (x ∷ xs) = ground (arith, keep_if-All p xs)

pub length-keep_if {ℓ} :
    {A : Type ℓ} (p : A → Bool) (xs : List A) → length (keep_if p xs) ≤ length xs
length-keep_if p [] = omega arith
length-keep_if p (x ∷ xs) = ground (arith, length-keep_if p xs)

pub Any-any_of {ℓ} :
    {A : Type ℓ} (P : A → Type 0) (p : A → Bool) (xs : List A)
    → ((x : A) → P x → p x ≡ true)
    → Any P xs
    → any_of p xs ≡ true
Any-any_of P p [] f h = absurd h
Any-any_of P p (x ∷ xs) f (inl h) = ground (arith, f x h)
Any-any_of P p (x ∷ xs) f (inr h) = ground (arith, Any-any_of P p xs f h)

-- A test that fails for a list fails for one of its elements.
pub all_of_fails {ℓ} :
    {A : Type ℓ} (Q : A → Type 0) (p : A → Bool) (xs : List A)
    → All Q xs
    → all_of p xs ≡ false
    → (x : A) × (p x ≡ false) × Q x
all_of_fails Q p [] a h = cc
all_of_fails Q p (x ∷ xs) a h = elim (Bool-cases (p x)) [
  | inl e ↦ all_of_fails Q p xs a.1 (rw e at h)
  | inr e ↦ (x, e, a.0)
]

-- A narrower test keeps no more elements, and fewer where it drops one that the other keeps.
module _ {ℓ} {A : Type ℓ} (p q : A → Bool) (narrower : (x : A) → q x ≡ true → p x ≡ true) where
  pub length-keep_if_mono : (xs : List A) → length (keep_if q xs) ≤ length (keep_if p xs)
  length-keep_if_mono [] = omega arith
  length-keep_if_mono (x ∷ xs) = ground (arith, narrower x, length-keep_if_mono xs)

  pub length-keep_if_strict :
      (xs : List A)
      → Any (λ x. (p x ≡ true) × (q x ≡ false)) xs
      → suc (length (keep_if q xs)) ≤ length (keep_if p xs)
  length-keep_if_strict [] h = absurd h
  length-keep_if_strict (x ∷ xs) (inl h) = ground (arith, h.0, h.1, length-keep_if_mono xs)
  length-keep_if_strict (x ∷ xs) (inr h) = ground (arith, narrower x, length-keep_if_strict xs h)

-- `x` is an element.
abbrev pub In : {A : Type 0} → A → List A → Type 0
In x xs = Any (λ y. y ≡ x) xs

pub All-In : {A : Type 0} (xs : List A) → All (λ x. In x xs) xs
All-In [] = tt
All-In (x ∷ xs) =
    (inl refl, All-mono (λ y. In y xs) (λ y. In y (x ∷ xs)) xs (λ y h. inr h) (All-In xs))

pub All-at : {A : Type 0} (P : A → Type 0) (x : A) (xs : List A) → All P xs → In x xs → P x
All-at P x [] a h = absurd h
All-at P x (y ∷ ys) a (inl e) = subst P e a.0
All-at P x (y ∷ ys) a (inr h) = All-at P x ys a.1 h

pub List-cases {ℓ} :
    {A : Type ℓ} (xs : List A) → (xs ≡ []) ⊎ ((x : A) × (ys : List A) × (xs ≡ x ∷ ys))
List-cases [] = inl refl
List-cases (x ∷ xs) = inr (x, xs, refl)

pub All-intro : {A : Type 0} (P : A → Type 0) (xs : List A) → ((x : A) → In x xs → P x) → All P xs
All-intro P [] f = tt
All-intro P (x ∷ xs) f = (f x (inl refl), All-intro P xs (λ y m. f y (inr m)))

module _ {A : Type 0} (P : A → Type 0) where
  pub Any-append_left : (xs ys : List A) → Any P xs → Any P (xs ++ ys)
  Any-append_left [] ys h = absurd h
  Any-append_left (x ∷ xs) ys (inl h) = inl h
  Any-append_left (x ∷ xs) ys (inr h) = inr (Any-append_left xs ys h)

  pub Any-append_right : (xs ys : List A) → Any P ys → Any P (xs ++ ys)
  Any-append_right [] ys h = h
  Any-append_right (x ∷ xs) ys h = inr (Any-append_right xs ys h)

  pub Any-mono : (Q : A → Type 0) (xs : List A) → ((x : A) → P x → Q x) → Any P xs → Any Q xs
  Any-mono Q [] f h = h
  Any-mono Q (x ∷ xs) f (inl h) = inl (f x h)
  Any-mono Q (x ∷ xs) f (inr h) = inr (Any-mono Q xs f h)

  pub Any-In : (x : A) (xs : List A) → In x xs → P x → Any P xs
  Any-In x [] m p = m
  Any-In x (y ∷ ys) (inl e) p = inl (subst P (sym e) p)
  Any-In x (y ∷ ys) (inr m) p = inr (Any-In x ys m p)
