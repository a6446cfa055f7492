-- ===== src/Scheduler/Capacity.antt =====
-- How much of an actor is taken at an instant, and the first start at which a task fits.
pub mod Demand
pub mod Earliest
pub mod Starts
pub mod Possible
use task_orchestrator.Base.{
  ℕ, zero, suc, ◌+◌, ◌-◌, ℤ, pos, pos_part, neg_part, ◌+ℤ◌, ◌-ℤ◌, ltb_ℤ, leb_ℤ, max_ℤ, rounds_to,
  Bool, true, false, ◌&&◌, List, [], ◌∷◌, Option, none, some, if◌then◌else◌,
}
use task_orchestrator.Data.{Time, Duration, AvailabilityWindow}
use task_orchestrator.Actor.{Actor, sorted_windows}
use task_orchestrator.Scheduler.Types.{ScheduledInterval}

-- The fold of `concurrent_demand_at`, from the demand that is counted so far.
unfoldable pub demand_from : ℤ → List ScheduledInterval → Time → ℤ
demand_from running [] instant = running
demand_from running (r ∷ rs) instant =
    demand_from
      (if leb_ℤ r.start instant && ltb_ℤ instant r.end then running +ℤ r.demand else running) rs
      instant

unfoldable pub concurrent_demand_at : List ScheduledInterval → Time → ℤ
unfolding demand_from
concurrent_demand_at reservations instant = demand_from (pos 0) reservations instant

-- `for (instant = start; instant < end; ++instant)`, on the rounds that are left.
unfoldable pub has_capacity_rounds : ℕ → List ScheduledInterval → ℤ → Time → ℤ → Bool
has_capacity_rounds zero reservations capacity instant demand = true
has_capacity_rounds (suc n) reservations capacity instant demand =
    let rest = has_capacity_rounds n reservations capacity (instant +ℤ pos 1) demand in
    if ltb_ℤ capacity (concurrent_demand_at reservations instant +ℤ demand) then false else rest

unfoldable pub has_capacity_for_interval : List ScheduledInterval → ℤ → Time → Time → ℤ → Bool
unfolding has_capacity_rounds
has_capacity_for_interval reservations capacity start end demand =
    has_capacity_rounds (rounds_to start (end -ℤ pos 1)) reservations capacity start demand

-- `for (candidate = window_start; candidate <= latest_start; ++candidate)`.
unfoldable pub search_window : ℕ → List ScheduledInterval → ℤ → Time → Duration → ℤ → Option Time
search_window zero reservations capacity candidate duration demand = none
search_window (suc n) reservations capacity candidate duration demand =
    let rest = search_window n reservations capacity (candidate +ℤ pos 1) duration demand in
    if has_capacity_for_interval reservations capacity candidate (candidate +ℤ duration) demand
    then some candidate
    else rest

-- The first answer, or else the second, which is computed only then.
abbrev pub or_else {ℓ} : {A : Type ℓ} → Option A → Option A → Option A
or_else (some a) o = some a
or_else none o = o

-- The body of the loop over the windows: a window that is too short is passed over.
unfoldable pub search_one :
    AvailabilityWindow → List ScheduledInterval → ℤ → Time → Duration → ℤ → Option Time
unfolding search_window
search_one window reservations capacity release_time duration demand =
    let window_start = max_ℤ window.start release_time in
    let latest_start = window.end -ℤ duration in
    if ltb_ℤ latest_start window_start
    then none
    else search_window (rounds_to window_start latest_start) reservations capacity window_start
        duration demand

unfoldable pub search_windows :
    List AvailabilityWindow → List ScheduledInterval → ℤ → Time → Duration → ℤ → Option Time
unfolding search_one
search_windows [] reservations capacity release_time duration demand = none
search_windows (window ∷ windows) reservations capacity release_time duration demand =
    let rest = search_windows windows reservations capacity release_time duration demand in
    or_else (search_one window reservations capacity release_time duration demand) rest

unfoldable pub earliest_start :
    {D : Type 0} → Actor D → List ScheduledInterval → Time → Duration → ℤ → Option Time
unfolding search_windows sorted_windows
earliest_start actor reservations release_time duration demand =
    if leb_ℤ duration (pos 0)
    then some release_time
    else search_windows (sorted_windows actor.availability_windows) reservations actor.capacity
        release_time duration demand
