-- ===== src/Scheduler/Capacity/Demand.antt =====
-- What `concurrent_demand_at` and `has_capacity_for_interval` of scheduler.cpp compute.
use task_orchestrator.Base.{
  ℕ, zero, suc, ◌+◌, ◌≤◌, ℤ, pos, pos_part, neg_part, ◌+ℤ◌, ◌-ℤ◌, ◌≤ℤ◌, ◌<ℤ◌, ltb_ℤ, leb_ℤ,
  rounds_to, ◌≡◌, refl, inl, inr, Bool, true, ◌&&◌, List, [], ◌∷◌, ◌++◌, arith, +ℤ_parts, -ℤ_parts,
  Bool-cases, if◌then◌else◌,
}
use task_orchestrator.Data.{Time}
use task_orchestrator.Scheduler.Types.{ScheduledInterval}
use task_orchestrator.Scheduler.Capacity.{
  demand_from, concurrent_demand_at, has_capacity_rounds, has_capacity_for_interval,
}

-- A reservation counts from its start up to, and not including, its end.
abbrev pub is_active : ScheduledInterval → Time → Bool
is_active r t = leb_ℤ r.start t && ltb_ℤ t r.end

demand_from-append :
    (rs : List ScheduledInterval) (running : ℤ) (r : ScheduledInterval) (t : Time)
    → demand_from running (rs ++ r ∷ []) t
      ≡ (if is_active r t then demand_from running rs t +ℤ r.demand else demand_from running rs t)
unfolding demand_from
demand_from-append [] running r t = refl
demand_from-append (x ∷ rs) running r t =
    demand_from-append rs (if is_active x t then running +ℤ x.demand else running) r t

-- One more reservation adds its demand where it is active, and nothing elsewhere.
pub concurrent_demand_at-append :
    (rs : List ScheduledInterval) (r : ScheduledInterval) (t : Time)
    → concurrent_demand_at (rs ++ r ∷ []) t
      ≡ (if is_active r t then concurrent_demand_at rs t +ℤ r.demand else concurrent_demand_at rs t)
unfolding concurrent_demand_at
concurrent_demand_at-append rs r t = demand_from-append rs (pos 0) r t

-- At every instant of [start, end) the demand has room below the capacity.
abbrev pub HasRoom : List ScheduledInterval → ℤ → Time → Time → ℤ → Type 0
HasRoom rs capacity start end demand =
    (t : Time) → start ≤ℤ t → t <ℤ end → concurrent_demand_at rs t +ℤ demand ≤ℤ capacity

has_capacity_rounds-HasRoom :
    (n : ℕ) (rs : List ScheduledInterval) (capacity start end demand : ℤ)
    → pos_part end + neg_part start ≤ n + (pos_part start + neg_part end)
    → has_capacity_rounds n rs capacity start demand ≡ true
    → HasRoom rs capacity start end demand
unfolding has_capacity_rounds
has_capacity_rounds-HasRoom zero rs capacity start end demand bound h t from to =
    absurd (omega arith)
has_capacity_rounds-HasRoom (suc n) rs capacity start end demand bound h t from to =
    elim (Bool-cases (leb_ℤ t start)) [
      | inl e ↦ let same : start ≡ t = ground arith in rw (← same) (ground arith)
      | inr e ↦
          has_capacity_rounds-HasRoom n rs capacity (start +ℤ pos 1) end demand
            (omega (arith, +ℤ_parts start (pos 1))) (ground arith) t
            (ground (arith, +ℤ_parts start (pos 1))) to
    ]

has_capacity_rounds-of_HasRoom :
    (n : ℕ) (rs : List ScheduledInterval) (capacity start end demand : ℤ)
    → n + (pos_part start + neg_part end) ≤ pos_part end + neg_part start
    → HasRoom rs capacity start end demand
    → has_capacity_rounds n rs capacity start demand ≡ true
unfolding has_capacity_rounds
has_capacity_rounds-of_HasRoom zero rs capacity start end demand bound room = refl
has_capacity_rounds-of_HasRoom (suc n) rs capacity start end demand bound room =
    let here = room start (omega arith) (omega arith) in
    let later =
      has_capacity_rounds-of_HasRoom n rs capacity (start +ℤ pos 1) end demand
        (omega (arith, +ℤ_parts start (pos 1)))
        (λ t from to. room t (omega (arith, +ℤ_parts start (pos 1))) to) in
    ground arith

-- has_capacity_for_interval holds exactly if the demand fits below the capacity at every instant
-- of the interval.
pub has_capacity_for_interval-HasRoom :
    (rs : List ScheduledInterval) (capacity start end demand : ℤ)
    → ((has_capacity_for_interval rs capacity start end demand ≡ true)
        → HasRoom rs capacity start end demand)
      × (HasRoom rs capacity start end demand
          → has_capacity_for_interval rs capacity start end demand ≡ true)
unfolding has_capacity_for_interval
has_capacity_for_interval-HasRoom rs capacity start end demand = (
  has_capacity_rounds-HasRoom _ rs capacity start end demand (omega (arith, -ℤ_parts end (pos 1))),
  forwards,
)
  where
    n : ℕ
    n = rounds_to start (end -ℤ pos 1)

    forwards :
        HasRoom rs capacity start end demand → has_capacity_rounds n rs capacity start demand ≡ true
    forwards room = elim (Bool-cases (ltb_ℤ start end)) [
      | inl e ↦
          has_capacity_rounds-of_HasRoom n rs capacity start end demand
            (ground (arith, -ℤ_parts end (pos 1))) room
      | inr e ↦ let none_left : n ≡ 0 = ground (arith, -ℤ_parts end (pos 1)) in rw none_left
    ]
