-- ===== src/Scheduler/Capacity/Earliest.antt =====
-- `earliest_start` of scheduler.cpp finds the earliest start at which a task fits, if there is one.
use mathlib.Core.Option.{some-injective}
use task_orchestrator.Base.{
  subst, ℕ, zero, suc, ◌+◌, ◌≤◌, ◌<◌, ℤ, pos, pos_part, neg_part, ◌+ℤ◌, ◌-ℤ◌, ◌≤ℤ◌, ltb_ℤ, leb_ℤ,
  max_ℤ, rounds_to, ◌≡◌, inl, inr, Bool, false, List, [], ◌∷◌, none, some, arith, +ℤ_parts,
  -ℤ_parts, Bool-cases, max_ℤ-least, max_ℤ-bounds, ltb→lt_ℤ, leb→le_ℤ, Option-cases, All, Any,
  IsSortedBy,
}
use task_orchestrator.Data.{Time, Duration, AvailabilityWindow}
use task_orchestrator.Actor.{starts_before}
use task_orchestrator.Actor.Availability.{FitsIn}
use task_orchestrator.Scheduler.Types.{ScheduledInterval}
use task_orchestrator.Scheduler.Capacity.{
  has_capacity_for_interval, search_window, search_one, search_windows,
}
use task_orchestrator.Scheduler.Capacity.Demand.{HasRoom, has_capacity_for_interval-HasRoom}

module _ (rs : List ScheduledInterval) (capacity : ℤ) (duration : Duration) (demand : ℤ) where
  abbrev pub Room : Time → Type 0
  Room t = HasRoom rs capacity t (t +ℤ duration) demand

  abbrev has_room : Time → Bool
  has_room t = has_capacity_for_interval rs capacity t (t +ℤ duration) demand

  -- `c` is the first start of the range from `a` on, `n` long, with room.
  pub record IsFirst (a : Time) (n : ℕ) (c : Time) : Type 0 where
    pub from : a ≤ℤ c
    pub to : pos_part c + neg_part a < n + (pos_part a + neg_part c)
    pub room : Room c
    pub least : (t : Time) → a ≤ℤ t → Room t → c ≤ℤ t

  -- A time with room is not `a`, which has none, so it is later.
  not_first : (a t : Time) → a ≤ℤ t → Room t → has_room a ≡ false → a +ℤ pos 1 ≤ℤ t
  not_first a t from room e = elim (Bool-cases (leb_ℤ t a)) [
    | inl at ↦
        let same : t ≡ a = ground arith in
        let yes_ =
          (has_capacity_for_interval-HasRoom rs capacity a (a +ℤ duration) demand).1
            (subst Room same room) in
        absurd (ground arith)
    | inr after ↦ ground (arith, +ℤ_parts a (pos 1))
  ]

  search_window-IsFirst :
      (n : ℕ) (a : Time) {c : Time}
      → search_window n rs capacity a duration demand ≡ some c
      → IsFirst a n c
  unfolding search_window
  search_window-IsFirst zero a h = cc
  search_window-IsFirst (suc n) a {c} h = elim (Bool-cases (has_room a)) [
    | inl e ↦ subst (IsFirst a (suc n)) (some-injective a c (rw e at h)) (record {
      from = omega arith;
      to = omega arith;
      room = (has_capacity_for_interval-HasRoom rs capacity a (a +ℤ duration) demand).0 e;
      least = λ t from room. from;
    })
    | inr e ↦
        let later = search_window-IsFirst n (a +ℤ pos 1) (rw e at h) in
        record {
          from = omega (arith, later.from, +ℤ_parts a (pos 1));
          to = omega (arith, later.to, +ℤ_parts a (pos 1));
          room = later.room;
          least = λ t from room. later.least t (not_first a t from room e) room;
        }
  ]

  search_window-none :
      (n : ℕ) (a t : Time)
      → search_window n rs capacity a duration demand ≡ none
      → a ≤ℤ t
      → pos_part t + neg_part a < n + (pos_part a + neg_part t)
      → ¬ Room t
  unfolding search_window
  search_window-none zero a t h from to room = omega arith
  search_window-none (suc n) a t h from to room = elim (Bool-cases (has_room a)) [
    | inl e ↦ absurd (ground arith)
    | inr e ↦
        let next = not_first a t from room e in
        search_window-none n (a +ℤ pos 1) t (rw e at h) next (omega (arith, +ℤ_parts a (pos 1)))
          room
  ]

  later_start :
      (w : AvailabilityWindow) (t : Time) (ws : List AvailabilityWindow)
      → All (λ v. starts_before v w ≡ false) ws
      → Any (FitsIn t duration) ws
      → w.start ≤ℤ t
  later_start w t [] a h = absurd h
  later_start w t (v ∷ ws) a (inl h) = ground arith
  later_start w t (v ∷ ws) a (inr h) = later_start w t ws a.1 h

  module _ (release : Time) where
    -- `c` is a start that the windows and the reservations allow, and the earliest such.
    pub record IsEarliestIn (ws : List AvailabilityWindow) (c : Time) : Type 0 where
      pub released : release ≤ℤ c
      pub fits : Any (FitsIn c duration) ws
      pub room : Room c
      pub least : (t : Time) → release ≤ℤ t → Any (FitsIn t duration) ws → Room t → c ≤ℤ t

    pub search_one-some :
        (w : AvailabilityWindow) {c : Time}
        → search_one w rs capacity release duration demand ≡ some c
        → IsFirst (max_ℤ w.start release) (rounds_to (max_ℤ w.start release) (w.end -ℤ duration)) c
    unfolding search_one
    search_one-some w {c} h =
        elim (Bool-cases (ltb_ℤ (w.end -ℤ duration) (max_ℤ w.start release))) [
          | inl e ↦ absurd (ground arith)
          | inr e ↦ search_window-IsFirst _ (max_ℤ w.start release) (rw e at h)
        ]

    search_one-none :
        (w : AvailabilityWindow) (t : Time)
        → search_one w rs capacity release duration demand ≡ none
        → release ≤ℤ t
        → FitsIn t duration w
        → ¬ Room t
    unfolding search_one
    search_one-none w t h from fits room =
        let from' = max_ℤ-least w.start release t fits.0 from in
        let to' : pos_part t + neg_part (w.end -ℤ duration)
            ≤ pos_part (w.end -ℤ duration) + neg_part t =
          omega (arith, -ℤ_parts w.end duration, +ℤ_parts t duration) in
        elim (Bool-cases (ltb_ℤ (w.end -ℤ duration) (max_ℤ w.start release))) [
          | inl e ↦ omega (arith, ltb→lt_ℤ (w.end -ℤ duration) (max_ℤ w.start release) e)
          | inr e ↦
              search_window-none _ (max_ℤ w.start release) t (rw e at h) from' (omega arith) room
        ]

    -- A start found in the first window is before every start in a later one, which begins later.
    in_first :
        (w : AvailabilityWindow) (ws : List AvailabilityWindow) (c : Time)
        → IsSortedBy starts_before (w ∷ ws)
        → search_one w rs capacity release duration demand ≡ some c
        → IsEarliestIn (w ∷ ws) c
    in_first w ws c s e =
        let first = search_one-some w e in
        let bounds = max_ℤ-bounds w.start release in
        let inside : c +ℤ duration ≤ℤ w.end =
          omega
            (arith, first.to, first.from, bounds, -ℤ_parts w.end duration, +ℤ_parts c duration) in
        record {
          released = omega (arith, first.from, bounds);
          fits = inl (omega (arith, first.from, bounds), inside);
          room = first.room;
          least = λ t from fits room. elim fits [
            | inl here ↦ first.least t (max_ℤ-least w.start release t here.0 from) room
            | inr there ↦
                let begun = later_start w t ws s.0 there in
                elim (Bool-cases (leb_ℤ c t)) [
                  | inl before ↦ leb→le_ℤ c t before
                  | inr after ↦ first.least t (max_ℤ-least w.start release t begun from) room
                ]
          ];
        }

    pub search_windows-IsEarliestIn :
        (ws : List AvailabilityWindow) {c : Time}
        → IsSortedBy starts_before ws
        → search_windows ws rs capacity release duration demand ≡ some c
        → IsEarliestIn ws c
    unfolding search_windows
    search_windows-IsEarliestIn [] s h = cc
    search_windows-IsEarliestIn (w ∷ ws) {c} s h =
        elim (Option-cases (search_one w rs capacity release duration demand)) [
          | inl e ↦
              let later = search_windows-IsEarliestIn ws s.1 (rw e at h) in
              record {
                released = later.released;
                fits = inr later.fits;
                room = later.room;
                least = λ t from fits room. elim fits [
                  | inl here ↦ absurd (search_one-none w t e from here room)
                  | inr there ↦ later.least t from there room
                ];
              }
          | inr (a, e) ↦
              let same : a ≡ c = some-injective a c (rw e at h) in
              in_first w ws c s
                (subst (λ x. search_one w rs capacity release duration demand ≡ some x) same e)
        ]

    pub search_windows-none :
        (ws : List AvailabilityWindow) (t : Time)
        → search_windows ws rs capacity release duration demand ≡ none
        → release ≤ℤ t
        → Any (FitsIn t duration) ws
        → ¬ Room t
    unfolding search_windows
    search_windows-none [] t h from fits room = fits
    search_windows-none (w ∷ ws) t h from fits room =
        elim (Option-cases (search_one w rs capacity release duration demand)) [
          | inl e ↦ elim fits [
            | inl here ↦ search_one-none w t e from here room
            | inr there ↦ search_windows-none ws t (rw e at h) from there room
          ]
          | inr (a, e) ↦ absurd (ground arith)
        ]
