-- ===== src/Scheduler/Capacity/Possible.antt =====
-- A start that `earliest_start` finds fits, in whatever order the windows are searched.
use mathlib.Core.Option.{some-injective}
use task_orchestrator.Base.{
  subst, ℤ, ◌+ℤ◌, ◌≤ℤ◌, ◌≡◌, inl, inr, List, [], ◌∷◌, some, arith, +ℤ_parts, -ℤ_parts, max_ℤ-bounds,
  Option-cases, Any,
}
use task_orchestrator.Data.{Time, Duration, AvailabilityWindow}
use task_orchestrator.Actor.Availability.{FitsIn}
use task_orchestrator.Scheduler.Types.{ScheduledInterval}
use task_orchestrator.Scheduler.Capacity.{search_one, search_windows}
use task_orchestrator.Scheduler.Capacity.Earliest.{Room, search_one-some}

module _ (rs : List ScheduledInterval) (capacity : ℤ) (duration : Duration) (demand : ℤ)
    (release : Time) where
  pub record IsPossibleIn (ws : List AvailabilityWindow) (c : Time) : Type 0 where
    pub released : release ≤ℤ c
    pub fits : Any (FitsIn c duration) ws
    pub room : Room rs capacity duration demand c

  here :
      (w : AvailabilityWindow) (ws : List AvailabilityWindow) (c : Time)
      → search_one w rs capacity release duration demand ≡ some c
      → IsPossibleIn (w ∷ ws) c
  here w ws c e =
      let first = search_one-some rs capacity duration demand release w e in
      let bounds = max_ℤ-bounds w.start release in
      let inside : c +ℤ duration ≤ℤ w.end =
        omega (arith, first.to, first.from, bounds, -ℤ_parts w.end duration, +ℤ_parts c duration) in
      record {
        released = omega (arith, first.from, bounds);
        fits = inl (omega (arith, first.from, bounds), inside);
        room = first.room;
      }

  pub search_windows-IsPossibleIn :
      (ws : List AvailabilityWindow) {c : Time}
      → search_windows ws rs capacity release duration demand ≡ some c
      → IsPossibleIn ws c
  unfolding search_windows
  search_windows-IsPossibleIn [] h = cc
  search_windows-IsPossibleIn (w ∷ ws) {c} h =
      elim (Option-cases (search_one w rs capacity release duration demand)) [
        | inl e ↦
            let later = search_windows-IsPossibleIn ws (rw e at h) in
            record { released = later.released; fits = inr later.fits; room = later.room }
        | inr (a, e) ↦
            let same : a ≡ c = some-injective a c (rw e at h) in
            here w ws c
              (subst (λ x. search_one w rs capacity release duration demand ≡ some x) same e)
      ]
