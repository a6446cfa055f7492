-- ===== src/Clock/Order.antt =====
-- The order of the events of sim_clock.cpp, and that its clock does not go back.
use task_orchestrator.Base.{
  suc, ◌<◌, ◌≤ℤ◌, max_ℤ, max_ℤ-bounds, ◌≡◌, refl, ◌∙◌, Bool, true, false, List, [], ◌∷◌, Option,
  none, some, All, All-mono, All-insert_by, IsSortedBy, insert_by-IsSortedBy, arith,
}
use task_orchestrator.Data.{Time}
use task_orchestrator.Clock.{
  QueuedEvent, SimClock, Request, to_schedule_at, to_set_time, to_clear_events, before, schedule_at,
  clear_events, answer, answer_all, advance_to_next, call, is_due,
}

before-asym : {C : Type 0} (x y : QueuedEvent C) → before x y ≡ true → before y x ≡ false
before-asym x y h = ground arith

before_trans :
    {C : Type 0} (x y z : QueuedEvent C)
    → before y x ≡ false
    → before z y ≡ false
    → before z x ≡ false
before_trans x y z h k = ground arith

module _ {C : Type 0} where
  -- The queue is in order, by time and then by insertion, and no event lies in the past.
  abbrev pub IsTimely : SimClock C → Type 0
  IsTimely c =
      IsSortedBy before c.queue
      × All (λ e. c.now ≤ℤ e.at) c.queue
      × All (λ e. e.seq < c.next_seq) c.queue

  schedule_at-IsTimely :
      (t : Time) (cb : Option C) (c : SimClock C) → IsTimely c → IsTimely (schedule_at t cb c)
  unfolding schedule_at
  schedule_at-IsTimely t cb c (sorted, future, numbered) =
      let e : QueuedEvent C = record { at = max_ℤ t c.now; seq = c.next_seq; cb = cb } in
      (
        insert_by-IsSortedBy before before-asym before_trans e c.queue sorted,
        All-insert_by before (λ x. c.now ≤ℤ x.at) e c.queue (max_ℤ-bounds t c.now).1 future,
        All-insert_by before (λ x. x.seq < suc c.next_seq) e c.queue (omega arith)
            (All-mono (λ x. x.seq < c.next_seq) (λ x. x.seq < suc c.next_seq) c.queue
              (λ x h. omega arith) numbered),
      )

  -- The request leaves the clock's time alone.
  abbrev pub is_timeless : Request C → Bool
  is_timeless (to_set_time t) = false
  is_timeless _ = true

  answer-IsTimely :
      (r : Request C) (c : SimClock C)
      → is_timeless r ≡ true
      → IsTimely c
      → IsTimely (answer r c) × ((answer r c).now ≡ c.now)
  unfolding answer clear_events schedule_at
  answer-IsTimely (to_schedule_at t cb) c q h = (schedule_at-IsTimely t cb c h, refl)
  answer-IsTimely (to_set_time t) c q h = cc
  answer-IsTimely to_clear_events c q h = ((tt, tt, tt), refl)

  answer_all-IsTimely :
      (rs : List (Request C)) (c : SimClock C)
      → All (λ r. is_timeless r ≡ true) rs
      → IsTimely c
      → IsTimely (answer_all rs c) × ((answer_all rs c).now ≡ c.now)
  unfolding answer_all
  answer_all-IsTimely [] c q h = (h, refl)
  answer_all-IsTimely (r ∷ rs) c q h =
      let (first, same) = answer-IsTimely r c q.0 h in
      let (rest, same') = answer_all-IsTimely rs (answer r c) q.1 first in (rest, same' ∙ same)

  module _ (react : C → Time → List (Request C))
      (timeless : (f : C) (t : Time) → All (λ r. is_timeless r ≡ true) (react f t)) where
    called-IsTimely :
        (cb : Option C) (t : Time) (c : SimClock C)
        → IsTimely c
        → IsTimely (call react cb t c) × ((call react cb t c).now ≡ c.now)
    called-IsTimely none t c h = (h, refl)
    called-IsTimely (some f) t c h = answer_all-IsTimely (react f t) c (timeless f t) h

    pub no_earlier : (x y : QueuedEvent C) → before y x ≡ false → x.at ≤ℤ y.at
    no_earlier x y h = ground arith

    stepped :
        (c : SimClock C) (q : List (QueuedEvent C))
        → IsTimely (record c { queue = q })
        → let c' = advance_to_next react (record c { queue = q }) in IsTimely c' × (c.now ≤ℤ c'.now)
    unfolding advance_to_next
    stepped c [] h = (h, omega arith)
    stepped c (event ∷ rest) (sorted, future, numbered) =
        let popped = record c { now = event.at; queue = rest } in
        let (timely, same) = called-IsTimely event.cb event.at popped (
          sorted.1,
          All-mono (λ y. before y event ≡ false) (λ y. event.at ≤ℤ y.at) rest (no_earlier event)
              sorted.0,
          numbered.1,
        ) in
        (timely, rw same future.0)

    -- An event that is due by the limit takes the clock no further than the limit.
    stepped-le :
        (c : SimClock C) (q : List (QueuedEvent C)) (limit : Time)
        → is_due react limit q ≡ true
        → IsTimely (record c { queue = q })
        → (advance_to_next react (record c { queue = q })).now ≤ℤ limit
    unfolding advance_to_next
    stepped-le c [] limit due h = cc
    stepped-le c (event ∷ rest) limit due (sorted, future, numbered) =
        let popped = record c { now = event.at; queue = rest } in
        let (timely, same) = called-IsTimely event.cb event.at popped (
          sorted.1,
          All-mono (λ y. before y event ≡ false) (λ y. event.at ≤ℤ y.at) rest (no_earlier event)
              sorted.0,
          numbered.1,
        ) in
        rw same (ground arith)

    pub advance_to_next-le :
        (c : SimClock C) (limit : Time)
        → is_due react limit c.queue ≡ true
        → IsTimely c
        → (advance_to_next react c).now ≤ℤ limit
    advance_to_next-le c limit due h = stepped-le c c.queue limit due h

    -- Where callbacks do not set the time, running the next event keeps the queue in order, by
    -- time and then by insertion, with no event in the past, and the clock does not go back.
    pub advance_to_next-IsTimely :
        (c : SimClock C)
        → IsTimely c
        → IsTimely (advance_to_next react c) × (c.now ≤ℤ (advance_to_next react c).now)
    advance_to_next-IsTimely c h = stepped c c.queue h
