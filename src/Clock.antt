-- ===== src/Clock.antt =====
-- utils/include/utils/sim_clock.hpp and utils/src/sim_clock.cpp: the clock of the simulation and its
-- queue of events.
pub mod Order
pub mod Runs
use task_orchestrator.Base.{
  ℕ, zero, suc, ◌+◌, ltb, ℤ, pos, max_ℤ, ltb_ℤ, leb_ℤ, eqb_ℤ, Bool, true, false, ◌||◌, ◌&&◌, List,
  [], ◌∷◌, Option, none, some, insert_by, if◌then◌else◌,
}
use task_orchestrator.Data.{Time}

-- `SimClock::Event`. A callback is a value of `C`; `none` is the empty `std::function`.
pub record QueuedEvent (C : Type 0) : Type 0 where
  pub at : Time
  pub seq : ℕ
  pub cb : Option C

pub record SimClock (C : Type 0) : Type 0 where
  pub now : Time
  pub next_seq : ℕ
  pub queue : List (QueuedEvent C)

-- What a callback asks of the clock.
pub data Request (C : Type 0) : Type 0 where
  to_schedule_at : (t : Time) → (cb : Option C) → Request C
  to_set_time : (t : Time) → Request C
  to_clear_events : Request C

module _ {C : Type 0} where
  -- `operator>` of the events, turned round: the queue's top is its least event.
  abbrev pub before : QueuedEvent C → QueuedEvent C → Bool
  before x y = ltb_ℤ x.at y.at || (eqb_ℤ x.at y.at && ltb x.seq y.seq)

  unfoldable pub new_clock : SimClock C
  new_clock = record { now = pos 0; next_seq = 0; queue = [] }

  unfoldable pub set_time : Time → SimClock C → SimClock C
  set_time t c = record c { now = t }

  unfoldable pub schedule_at : Time → Option C → SimClock C → SimClock C
  schedule_at t cb c = record c {
    next_seq = suc c.next_seq;
    queue = insert_by before (record { at = max_ℤ t c.now; seq = c.next_seq; cb = cb }) c.queue;
  }

  unfoldable pub clear_events : SimClock C → SimClock C
  clear_events c = record c { next_seq = 0; queue = [] }

  unfoldable pub answer : Request C → SimClock C → SimClock C
  unfolding schedule_at set_time clear_events
  answer (to_schedule_at t cb) c = schedule_at t cb c
  answer (to_set_time t) c = set_time t c
  answer to_clear_events c = clear_events c

  unfoldable pub answer_all : List (Request C) → SimClock C → SimClock C
  unfolding answer
  answer_all [] c = c
  answer_all (r ∷ rs) c = answer_all rs (answer r c)

  -- What each callback asks for at a time.
  module _ (react : C → Time → List (Request C)) where
    abbrev call : Option C → Time → SimClock C → SimClock C
    call none t c = c
    call (some f) t c = answer_all (react f t) c

    unfoldable pub advance_to_next : SimClock C → SimClock C
    unfolding answer_all
    advance_to_next c = elim c.queue [
      | [] ↦ c
      | ◌∷◌ event rest ↦ call event.cb event.at (record c { now = event.at; queue = rest })
    ]

    -- The top of the queue is due.
    abbrev pub is_due : Time → List (QueuedEvent C) → Bool
    is_due time_limit [] = false
    is_due time_limit (event ∷ rest) = leb_ℤ event.at time_limit

    -- The `while` loop, on fuel: `none` means that the fuel ran out.
    unfoldable pub run_loop : ℕ → Time → SimClock C → Option (SimClock C)
    unfolding advance_to_next
    run_loop zero time_limit c = none
    run_loop (suc fuel) time_limit c =
        let rest = run_loop fuel time_limit (advance_to_next c) in
        if is_due time_limit c.queue then rest else some c

    unfoldable pub run_until : ℕ → Time → SimClock C → Option (SimClock C)
    unfolding run_loop
    run_until fuel time_limit c =
        if ltb_ℤ time_limit c.now then some c else elim (run_loop fuel time_limit c) [
          | none ↦ none
          | some c' ↦ some (record c' { now = max_ℤ c'.now time_limit })
        ]
