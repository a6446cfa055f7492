-- ===== src/Actor/Availability.antt =====
-- What `Actor::next_available_start` of actor.cpp returns.
use task_orchestrator.Base.{
  AllPairs, Any-sort_by, ≤ℤ-trans, max_ℤ-least, le→leb_ℤ, leb→le_ℤ, refl, any_of, Bool, false, ◌+ℤ◌,
  ◌≤ℤ◌, ◌<ℤ◌, leb_ℤ, max_ℤ, ◌≡◌, inl, inr, true, ◌&&◌, List, [], ◌∷◌, some, All, Any, Any-any_of,
  sort_by-Any, pos, All-sort_by, Bool-cases, arith, +ℤ_parts,
}
use task_orchestrator.Data.{Time, Duration, AvailabilityWindow, window_contains}
use task_orchestrator.Actor.{
  Actor, starts_before, sorted_windows, next_in_windows, can_accept_at, next_available_start,
}

-- Some window of the list holds all of [s, s + duration).
abbrev pub FitsIn : Time → Duration → AvailabilityWindow → Type 0
FitsIn s duration w = (w.start ≤ℤ s) × (s +ℤ duration ≤ℤ w.end)

next_in_windows-Fits :
    (t : Time) (d : Duration) (ws : List AvailabilityWindow) {s : Time}
    → next_in_windows t d ws ≡ some s
    → Any (FitsIn s d) ws
unfolding next_in_windows
next_in_windows-Fits t d [] h = cc
next_in_windows-Fits t d (w ∷ ws) {s} h = elim (Bool-cases (leb_ℤ (max_ℤ t w.start +ℤ d) w.end)) [
  | inl e ↦ inl (ground (arith, +ℤ_parts (max_ℤ t w.start) d))
  | inr e ↦ inr (next_in_windows-Fits w.end d ws (ground arith))
]

-- A start that next_available_start returns for a task of positive length is one that
-- can_accept_at accepts.
next_available_start-can_accept_at :
    {D : Type 0} (a : Actor D) (t : Time) (d : Duration) {s : Time}
    → pos 0 <ℤ d
    → next_available_start a t d ≡ some s
    → can_accept_at a s d ≡ true
unfolding next_available_start can_accept_at sorted_windows window_contains
next_available_start-can_accept_at a t d {s} p h =
    let fits =
      sort_by-Any starts_before (FitsIn s d) a.availability_windows
        (next_in_windows-Fits t d (sorted_windows a.availability_windows) (ground arith)) in
    ground (
      arith,
      Any-any_of (FitsIn s d) (λ w. window_contains w s && leb_ℤ (s +ℤ d) w.end)
          a.availability_windows (λ w f. ground (arith, +ℤ_parts s d)) fits,
    )

next_in_windows-le :
    (b t : Time) (d : Duration) (ws : List AvailabilityWindow) {s : Time}
    → b ≤ℤ t
    → All (λ w. b ≤ℤ w.end) ws
    → next_in_windows t d ws ≡ some s
    → b ≤ℤ s
unfolding next_in_windows
next_in_windows-le b t d [] bt a h = cc
next_in_windows-le b t d (w ∷ ws) {s} bt a h =
    ground (arith, next_in_windows-le b w.end d ws {s = s} a.0 a.1)

-- Where no window ends before the time asked for, next_available_start returns no start before it.
next_available_start-le :
    {D : Type 0} (a : Actor D) (t : Time) (d : Duration) {s : Time}
    → All (λ w. t ≤ℤ w.end) a.availability_windows
    → next_available_start a t d ≡ some s
    → t ≤ℤ s
unfolding next_available_start sorted_windows
next_available_start-le a t d ends h =
    next_in_windows-le t t d (sorted_windows a.availability_windows) (omega arith)
      (All-sort_by starts_before (λ w. t ≤ℤ w.end) a.availability_windows ends) (ground arith)

-- The first window is over before the second starts.
abbrev pub IsOverBefore : AvailabilityWindow → AvailabilityWindow → Type 0
IsOverBefore v w = v.end ≤ℤ w.start

-- A start that fits into one of some windows is not before any time that is not after them.
FitsIn-ge :
    (end u : Time) (d : Duration) (ws : List AvailabilityWindow)
    → All (λ w. end ≤ℤ w.start) ws
    → Any (FitsIn u d) ws
    → end ≤ℤ u
FitsIn-ge end u d [] a m = absurd m
FitsIn-ge end u d (w ∷ ws) a (inl fit) = ≤ℤ-trans end w.start u a.0 fit.0
FitsIn-ge end u d (w ∷ ws) a (inr m) = FitsIn-ge end u d ws a.1 m

-- Where the windows do not overlap, the loop finds a start, and none later than one that fits.
next_in_windows-earliest :
    (t u : Time) (d : Duration) (ws : List AvailabilityWindow)
    → pos 0 ≤ℤ d
    → AllPairs IsOverBefore ws
    → t ≤ℤ u
    → Any (FitsIn u d) ws
    → (s : Time) × (next_in_windows t d ws ≡ some s) × (s ≤ℤ u)
unfolding next_in_windows
next_in_windows-earliest t u d [] p apart from m = absurd m
next_in_windows-earliest t u d (w ∷ ws) p apart from (inl fit) =
    let least = max_ℤ-least t w.start u from fit.0 in
    let roomy : leb_ℤ (max_ℤ t w.start +ℤ d) w.end ≡ true =
      le→leb_ℤ (max_ℤ t w.start +ℤ d) w.end
        (omega (arith, least, fit.1, +ℤ_parts (max_ℤ t w.start) d, +ℤ_parts u d)) in
    (max_ℤ t w.start, rw (roomy, next_in_windows) refl, least)
next_in_windows-earliest t u d (w ∷ ws) p apart from (inr m) =
    let after = FitsIn-ge w.end u d ws apart.0 m in
    elim (Bool-cases (leb_ℤ (max_ℤ t w.start +ℤ d) w.end)) [
      | inl e ↦ (
        max_ℤ t w.start,
        rw (e, next_in_windows) refl,
        omega (
          arith,
          p,
          after,
          leb→le_ℤ (max_ℤ t w.start +ℤ d) w.end e,
          +ℤ_parts (max_ℤ t w.start) d,
        ),
      )
      | inr e ↦
          let (s, found, by) = next_in_windows-earliest w.end u d ws p apart.1 after m in
          (s, rw (e, next_in_windows) found, by)
    ]

any_of-Any :
    {A : Type 0} (P : A → Type 0) (p : A → Bool) (xs : List A)
    → ((x : A) → p x ≡ true → P x)
    → any_of p xs ≡ true
    → Any P xs
any_of-Any P p [] f h = cc
any_of-Any P p (x ∷ xs) f h = elim (Bool-cases (p x)) [
  | inl e ↦ inl (f x e)
  | inr e ↦ inr (any_of-Any P p xs f (rw e at h))
]

can_accept_at-Fits :
    {D : Type 0} (a : Actor D) (u : Time) (d : Duration)
    → can_accept_at a u d ≡ true
    → (leb_ℤ a.capacity a.current_load ≡ false) × Any (FitsIn u d) a.availability_windows
unfolding can_accept_at window_contains
can_accept_at-Fits a u d h = elim (Bool-cases (leb_ℤ a.capacity a.current_load)) [
  | inl e ↦ absurd (cc (rw e at h))
  | inr e ↦ (
    e,
    any_of-Any (FitsIn u d) (λ w. window_contains w u && leb_ℤ (u +ℤ d) w.end)
        a.availability_windows (λ w k. (ground (arith, k), ground (arith, k))) (rw e at h),
  )
]

-- Where an actor's windows do not overlap and none is over before the time asked for, and
-- can_accept_at accepts a task of positive length at some time from then on, next_available_start
-- returns a start that can_accept_at accepts too, not before the time asked for, and no later than
-- that or any other such time.
pub next_available_start-earliest :
    {D : Type 0} (a : Actor D) (t : Time) (d : Duration) (u : Time)
    → pos 0 <ℤ d
    → AllPairs IsOverBefore (sorted_windows a.availability_windows)
    → All (λ w. t ≤ℤ w.end) a.availability_windows
    → t ≤ℤ u
    → can_accept_at a u d ≡ true
    → (s : Time) × (next_available_start a t d ≡ some s)
      × (can_accept_at a s d ≡ true)
      × (t ≤ℤ s)
      × (s ≤ℤ u)
unfolding next_available_start sorted_windows
next_available_start-earliest a t d u p apart ends from accepted =
    let (free, fits) = can_accept_at-Fits a u d accepted in
    let (s, found, by) =
      next_in_windows-earliest t u d (sorted_windows a.availability_windows) (omega (arith, p))
        apart from (Any-sort_by starts_before (FitsIn u d) a.availability_windows fits) in
    let e : next_available_start a t d ≡ some s = rw (free, next_available_start) found in
    (s, e, next_available_start-can_accept_at a t d p e, next_available_start-le a t d ends e, by)
