-- ===== src/Scheduler/Capacity/Starts.antt =====
-- `earliest_start` of scheduler.cpp, stated of the actor: which start it returns, and when none.
use mathlib.Core.Option.{some-injective}
use task_orchestrator.Base.{
  inl, inr, leb_ℤ, leb→le_ℤ, leb→gt_ℤ, +ℤ_parts, Bool-cases, ℤ, pos, ◌+ℤ◌, ◌≤ℤ◌, ◌<ℤ◌, ◌≡◌, sym,
  ◌∙◌, List, none, some, arith, Any, Any-sort_by, sort_by-Any, sort_by-IsSortedBy,
}
use task_orchestrator.Data.{Time, Duration, AvailabilityWindow}
use task_orchestrator.Actor.{Actor, starts_before, sorted_windows}
use task_orchestrator.Actor.Availability.{FitsIn}
use task_orchestrator.Scheduler.Types.{ScheduledInterval}
use task_orchestrator.Scheduler.Capacity.{search_windows, earliest_start}
use task_orchestrator.Scheduler.Capacity.Demand.{HasRoom}
use task_orchestrator.Scheduler.Capacity.Earliest.{search_windows-IsEarliestIn, search_windows-none}

-- `t` is a start that the actor's windows and reservations allow for the task.
pub record StartsAt {D : Type 0} (actor : Actor D) (rs : List ScheduledInterval) (release : Time)
    (duration : Duration) (demand : ℤ) (t : Time) : Type 0 where
  pub released : release ≤ℤ t
  pub fits : Any (FitsIn t duration) actor.availability_windows
  pub room : HasRoom rs actor.capacity t (t +ℤ duration) demand

module _ {D : Type 0} (actor : Actor D) (rs : List ScheduledInterval) (release : Time)
    (duration : Duration) (demand : ℤ) (long : pos 0 <ℤ duration) where
  abbrev windows : List AvailabilityWindow
  windows = sorted_windows actor.availability_windows

  searched :
      earliest_start actor rs release duration demand
      ≡ search_windows windows rs actor.capacity release duration demand
  unfolding earliest_start
  searched = ground arith

  in_sorted :
      (t : Time)
      → Any (FitsIn t duration) actor.availability_windows
      → Any (FitsIn t duration) windows
  unfolding sorted_windows
  in_sorted t fits = Any-sort_by starts_before (FitsIn t duration) actor.availability_windows fits

  -- For a task of positive length the start that earliest_start returns is possible for the
  -- actor's windows and reservations, and no possible start is earlier.
  pub earliest_start-StartsAt :
      {c : Time}
      → earliest_start actor rs release duration demand ≡ some c
      → StartsAt actor rs release duration demand c
        × ((t : Time) → StartsAt actor rs release duration demand t → c ≤ℤ t)
  unfolding sorted_windows
  earliest_start-StartsAt {c} h =
      let sorted =
        sort_by-IsSortedBy starts_before (λ x y h. ground arith) (λ x y z h k. ground arith)
          actor.availability_windows in
      let found =
        search_windows-IsEarliestIn rs actor.capacity duration demand release windows sorted
          (sym searched ∙ h) in
      (
        record {
          released = found.released;
          fits = sort_by-Any starts_before (FitsIn c duration) _ found.fits;
          room = found.room;
        },
        λ t s. found.least t s.released (in_sorted t s.fits) s.room,
      )

  -- Where earliest_start finds no start for a task of positive length, none is possible.
  pub earliest_start-none :
      earliest_start actor rs release duration demand ≡ none
      → (t : Time) → ¬ StartsAt actor rs release duration demand t
  earliest_start-none h t s =
      search_windows-none rs actor.capacity duration demand release windows t (sym searched ∙ h)
        s.released (in_sorted t s.fits) s.room

-- Whatever the duration, the start found is not before the release, and the task finds room there.
pub earliest_start_room :
    {D : Type 0} (actor : Actor D) (rs : List ScheduledInterval) (release : Time)
    (duration : Duration) (demand : ℤ) {c : Time}
    → earliest_start actor rs release duration demand ≡ some c
    → (release ≤ℤ c)
      × (pos 0 <ℤ duration → Any (FitsIn c duration) actor.availability_windows)
      × HasRoom rs actor.capacity c (c +ℤ duration) demand
unfolding earliest_start
earliest_start_room actor rs release duration demand {c} h =
    elim (Bool-cases (leb_ℤ duration (pos 0))) [
      | inl short ↦
          let same : release ≡ c = some-injective release c (rw short at h) in
          (
            rw same (omega arith),
            λ long. absurd (ground arith),
            λ t from to.
                absurd (omega (arith, +ℤ_parts c duration, leb→le_ℤ duration (pos 0) short)),
          )
      | inr long ↦
          let (found, _) =
            earliest_start-StartsAt actor rs release duration demand
              (omega (arith, leb→gt_ℤ duration (pos 0) long)) h in
          (found.released, λ _. found.fits, found.room)
    ]
