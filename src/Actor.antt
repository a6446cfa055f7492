-- ===== src/Actor.antt =====
-- task_orchestrator/include/task_orchestrator/core/actor.hpp and
-- task_orchestrator/src/core/actor.cpp: an actor and when it can take one more task.
pub mod Availability
use task_orchestrator.Base.{
  ℤ, ◌+ℤ◌, ltb_ℤ, leb_ℤ, max_ℤ, String, Bool, ◌&&◌, false, List, [], ◌∷◌, Option, none, some,
  any_of, sort_by, if◌then◌else◌,
}
use task_orchestrator.Data.{Time, Duration, AvailabilityWindow, window_contains}

pub record Actor (D : Type 0) : Type 0 where
  pub id : String
  pub kind : String
  pub capacity : ℤ
  pub availability_windows : List AvailabilityWindow
  pub capabilities : List String
  pub execution_cost_per_unit : D
  pub current_load : ℤ

-- The windows in the order of their starts.
abbrev pub starts_before : AvailabilityWindow → AvailabilityWindow → Bool
starts_before a b = ltb_ℤ a.start b.start

unfoldable pub sorted_windows : List AvailabilityWindow → List AvailabilityWindow
sorted_windows windows = sort_by starts_before windows

-- The loop of `next_available_start` over the sorted windows.
unfoldable pub next_in_windows : Time → Duration → List AvailabilityWindow → Option Time
next_in_windows candidate duration [] = none
next_in_windows candidate duration (window ∷ windows) =
    let from = max_ℤ candidate window.start in
    let rest = next_in_windows window.end duration windows in
    if leb_ℤ (from +ℤ duration) window.end then some from else rest

module _ {D : Type 0} where
  unfoldable pub can_accept_at : Actor D → Time → Duration → Bool
  unfolding window_contains
  can_accept_at a t duration =
      let end = t +ℤ duration in
      if leb_ℤ a.capacity a.current_load
      then false
      else any_of (λ w. window_contains w t && leb_ℤ end w.end) a.availability_windows

  unfoldable pub next_available_start : Actor D → Time → Duration → Option Time
  unfolding sorted_windows
  next_available_start a t duration =
      if leb_ℤ a.capacity a.current_load
      then none
      else next_in_windows t duration (sorted_windows a.availability_windows)
