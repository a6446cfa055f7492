-- ===== src/Clock/Runs.antt =====
-- What `run_until` of sim_clock.cpp leaves, and when it ends.
use mathlib.Core.Option.{some-injective}
use task_orchestrator.Base.{
  ℕ, zero, suc, ◌<◌, length, ◌≤ℤ◌, ◌<ℤ◌, ltb_ℤ, leb_ℤ, max_ℤ, eq_of_parts, ◌≡◌, refl, subst, inl,
  inr, true, false, List, [], ◌∷◌, Option, none, some, is_some, All, All-mono, IsSortedBy, arith,
  Bool-cases, Option-cases, if_cases,
}
use task_orchestrator.Data.{Time}
use task_orchestrator.Clock.{
  QueuedEvent, SimClock, Request, before, answer_all, advance_to_next, call, is_due, run_loop,
  run_until,
}
use task_orchestrator.Clock.Order.{
  IsTimely, is_timeless, no_earlier, advance_to_next-IsTimely, advance_to_next-le,
}

module _ {C : Type 0} (react : C → Time → List (Request C))
    (timeless : (f : C) (t : Time) → All (λ r. is_timeless r ≡ true) (react f t)) where
  run_loop-IsTimely :
      (fuel : ℕ) (limit : Time) (c : SimClock C) {c' : SimClock C}
      → IsTimely c
      → c.now ≤ℤ limit
      → run_loop react fuel limit c ≡ some c'
      → IsTimely c' × (c'.now ≤ℤ limit) × (is_due react limit c'.queue ≡ false)
  unfolding run_loop
  run_loop-IsTimely zero limit c h now e = cc
  run_loop-IsTimely (suc fuel) limit c {c'} h now e =
      elim (Bool-cases (is_due react limit c.queue)) [
        | inl due ↦
            run_loop-IsTimely fuel limit (advance_to_next react c)
              (advance_to_next-IsTimely react timeless c h).0
              (advance_to_next-le react timeless c limit due h) (rw due at e)
        | inr idle ↦
            subst (λ x. IsTimely x × (x.now ≤ℤ limit) × (is_due react limit x.queue ≡ false))
              (some-injective c c' (rw idle at e)) (h, now, idle)
      ]

  later_than :
      (limit : Time) (q : List (QueuedEvent C))
      → IsSortedBy before q
      → is_due react limit q ≡ false
      → All (λ e. limit <ℤ e.at) q
  later_than limit [] sorted idle = tt
  later_than limit (event ∷ rest) sorted idle = (
    ground arith,
    All-mono (λ y. before y event ≡ false) (λ y. limit <ℤ y.at) rest
        (λ y h. beyond y (no_earlier react timeless event y h) idle) sorted.0,
  )
    where
      beyond : (y : QueuedEvent C) → event.at ≤ℤ y.at → leb_ℤ event.at limit ≡ false → limit <ℤ y.at
      beyond y h i = ground arith

  -- Where callbacks do not set the time and the queue is in order with no event in the past, a run
  -- up to a time that is not past, if it ends, leaves the clock at that time, the queue in order,
  -- and only later events.
  pub run_until-IsTimely :
      (fuel : ℕ) (limit : Time) (c : SimClock C) {c' : SimClock C}
      → IsTimely c
      → c.now ≤ℤ limit
      → run_until react fuel limit c ≡ some c'
      → IsTimely c' × (c'.now ≡ limit) × All (λ e. limit <ℤ e.at) c'.queue
  unfolding run_until
  run_until-IsTimely fuel limit c {c'} h now e = elim (Option-cases (run_loop react fuel limit c)) [
    | inl none_ ↦ absurd (ground (arith, rw (none_, run_until) at e))
    | inr (r, found) ↦
        let (timely, by, idle) = run_loop-IsTimely fuel limit c h now found in
        let later = later_than limit r.queue timely.0 idle in
        let at_limit : max_ℤ r.now limit ≡ limit = ground (arith, eq_of_parts r.now limit) in
        let not_past : ltb_ℤ limit c.now ≡ false = ground arith in
        subst (λ x. IsTimely x × (x.now ≡ limit) × All (λ e. limit <ℤ e.at) x.queue)
          (some-injective (record r { now = max_ℤ r.now limit }) c'
            (rw (found, run_until, not_past) at e))
          (
            (
              timely.0,
              rw at_limit (
                  All-mono (λ e. limit <ℤ e.at) (λ e. limit ≤ℤ e.at) r.queue (λ e l. omega arith)
                    later),
              timely.2,
            ),
            at_limit,
            later,
          )
  ]

module _ {C : Type 0} (react : C → Time → List (Request C))
    (quiet : (f : C) (t : Time) → react f t ≡ []) where
  called-queue : (cb : Option C) (t : Time) (c : SimClock C) → call react cb t c ≡ c
  unfolding answer_all
  called-queue none t c = refl
  called-queue (some f) t c = rw (quiet f t)

  shorter :
      (c : SimClock C) (q : List (QueuedEvent C)) (limit : Time)
      → is_due react limit q ≡ true
      → length (advance_to_next react (record c { queue = q })).queue < length q
  unfolding advance_to_next
  shorter c [] limit due = cc
  shorter c (event ∷ rest) limit due =
      rw (called-queue event.cb event.at (record c { now = event.at; queue = rest })) (omega arith)

  run_loop_total :
      (fuel : ℕ) (limit : Time) (c : SimClock C)
      → length c.queue < fuel
      → is_some (run_loop react fuel limit c) ≡ true
  unfolding run_loop
  run_loop_total zero limit c h = absurd (omega arith)
  run_loop_total (suc fuel) limit c h =
      if_cases (λ (o : Option (SimClock C)). is_some o ≡ true) (is_due react limit c.queue)
        (λ due.
          run_loop_total fuel limit (advance_to_next react c)
            (omega (arith, shorter c c.queue limit due)))
        (λ _. refl)

  -- Where callbacks ask for nothing, a run of the clock ends within as many rounds as there are
  -- events, and one.
  pub run_until_total :
      (fuel : ℕ) (limit : Time) (c : SimClock C)
      → length c.queue < fuel
      → is_some (run_until react fuel limit c) ≡ true
  unfolding run_until
  run_until_total fuel limit c h =
      if_cases (λ (o : Option (SimClock C)). is_some o ≡ true) (ltb_ℤ limit c.now) (λ _. refl)
        (λ _. finished (run_loop react fuel limit c) (run_loop_total fuel limit c h))
    where
      finished :
          (o : Option (SimClock C))
          → is_some o ≡ true
          → is_some (elim o as (λ x. Option (SimClock C)) [
            | none ↦ none
            | some c' ↦ some (record c' { now = max_ℤ c'.now limit })
          ])
            ≡ true
      finished none e = cc
      finished (some c') e = refl
