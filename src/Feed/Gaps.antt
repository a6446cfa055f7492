-- ===== src/Feed/Gaps.antt =====
-- Which updates a reader of the feed of workflow_update_feed.cpp gets.
use task_orchestrator.Base.{
  ℕ, suc, ◌+◌, ◌≤◌, ◌<◌, ltb, ◌≡◌, refl, sym, ◌∙◌, ap, subst, inl, inr, ◌⊎◌, String, false, List,
  [], ◌∷◌, ◌++◌, some, find_if, length, length-append, arith, Bool-cases,
}
use task_orchestrator.Feed.{
  WorkflowUpdateEvent, InMemoryWorkflowUpdateFeed, make_in_memory_workflow_update_feed, pop_excess,
  publish, newer_event, wait_for_update,
}

-- The events are numbered from the one after `k` to the last one.
abbrev pub AreNumbered : ℕ → List WorkflowUpdateEvent → ℕ → Type 0
AreNumbered k [] last = k ≡ last
AreNumbered k (e ∷ es) last = (e.event_id ≡ suc k) × AreNumbered (suc k) es last

-- The events kept are the latest ones without a gap, not more than are retained, and fewer only
-- while none is lost.
pub record IsFeed (feed : InMemoryWorkflowUpdateFeed) : Type 0 where
  pub lost : ℕ
  pub numbered : AreNumbered lost feed.events feed.latest_event_id
  pub bounded : length feed.events ≤ feed.retained_events
  pub filled : (lost ≡ 0) ⊎ (length feed.events ≡ feed.retained_events)

AreNumbered-append :
    (k : ℕ) (es : List WorkflowUpdateEvent) (last : ℕ) (e : WorkflowUpdateEvent)
    → e.event_id ≡ suc last
    → AreNumbered k es last
    → AreNumbered k (es ++ e ∷ []) (suc last)
AreNumbered-append k [] last e new h = (new ∙ ap suc (sym h), ap suc h)
AreNumbered-append k (x ∷ es) last e new h = (h.0, AreNumbered-append (suc k) es last e new h.1)

-- Of a list that is one too long the first event goes.
pop_excess_one :
    (retained : ℕ) (e : WorkflowUpdateEvent) (es : List WorkflowUpdateEvent)
    → length es ≡ retained
    → pop_excess retained (e ∷ es) ≡ es
unfolding pop_excess
pop_excess_one retained e [] h = ground arith
pop_excess_one retained e (x ∷ es) h = ground arith

pop_excess_none :
    (retained : ℕ) (es : List WorkflowUpdateEvent)
    → length es ≤ retained
    → pop_excess retained es ≡ es
unfolding pop_excess
pop_excess_none retained [] h = refl
pop_excess_none retained (e ∷ es) h = ground arith

pop_excess-AreNumbered :
    (retained k last : ℕ) (es : List WorkflowUpdateEvent) (e : WorkflowUpdateEvent)
    → 0 < retained
    → length es ≡ retained
    → AreNumbered k (es ++ e ∷ []) last
    → AreNumbered (suc k) (pop_excess retained (es ++ e ∷ [])) last
      × (length (pop_excess retained (es ++ e ∷ [])) ≡ retained)
pop_excess-AreNumbered retained k last [] e some_kept full h = absurd (omega arith)
pop_excess-AreNumbered retained k last (x ∷ es) e some_kept full h =
    let len : length (es ++ e ∷ []) ≡ retained = omega (arith, length-append es (e ∷ [])) in
    rw (pop_excess_one retained x (es ++ e ∷ []) len) (h.1, len)

module _ (feed : InMemoryWorkflowUpdateFeed) (workflow_id : String) where
  -- Publishing keeps the events without a gap, and as many of them as are retained.
  pub publish-IsFeed : 0 < feed.retained_events → IsFeed feed → IsFeed (publish workflow_id feed).0
  unfolding publish
  publish-IsFeed some_kept f =
      let event : WorkflowUpdateEvent = record {
        event_id = feed.latest_event_id + 1;
        workflow_id = workflow_id;
      } in
      let longer =
        AreNumbered-append f.lost feed.events feed.latest_event_id event (omega arith) f.numbered in
      let counted : suc feed.latest_event_id ≡ feed.latest_event_id + 1 = omega arith in
      elim (Bool-cases (ltb (length feed.events) feed.retained_events)) [
        | inl room ↦
            let len : length (feed.events ++ event ∷ []) ≤ feed.retained_events =
              ground (arith, length-append feed.events (event ∷ [])) in
            let none_lost : f.lost ≡ 0 = elim f.filled [
              | inl z ↦ z
              | inr full ↦ absurd (ground arith)
            ] in
            let same = pop_excess_none feed.retained_events (feed.events ++ event ∷ []) len in
            record {
              lost = f.lost;
              numbered =
                  rw same (subst (AreNumbered f.lost (feed.events ++ event ∷ [])) counted longer);
              bounded = rw same len;
              filled = inl none_lost;
            }
        | inr no_room ↦
            let full : length feed.events ≡ feed.retained_events = ground (arith, f.bounded) in
            let (numbered, len) =
              pop_excess-AreNumbered feed.retained_events f.lost (suc feed.latest_event_id)
                feed.events event some_kept full longer in
            record {
              lost = suc f.lost;
              numbered =
                  subst
                    (AreNumbered (suc f.lost)
                      (pop_excess feed.retained_events (feed.events ++ event ∷ [])))
                    counted numbered;
              bounded = omega (arith, len);
              filled = inr len;
            }
      ]

find-AreNumbered :
    (k last after : ℕ) (es : List WorkflowUpdateEvent)
    → AreNumbered k es last
    → k ≤ after
    → after < last
    → (e : WorkflowUpdateEvent) × (find_if (λ x. ltb after x.event_id) es ≡ some e)
      × (e.event_id ≡ suc after)
find-AreNumbered k last after [] h low high = absurd (omega (arith, h))
find-AreNumbered k last after (x ∷ es) h low high = elim (Bool-cases (ltb after x.event_id)) [
  | inl newer ↦ (x, rw newer refl, ground (arith, h.0))
  | inr older ↦
      let (e, found, next) =
        find-AreNumbered (suc k) last after es h.1 (ground (arith, h.0)) high in
      (e, rw older found, next)
]

-- A reader who asks for what comes after an event that is not the last, and lags by no more than
-- the events kept, gets the very next event at once; where the feed is not shut down and keeps the
-- latest events without a gap.
pub wait_for_update_next :
    (feed woken : InMemoryWorkflowUpdateFeed) (after : ℕ)
    → IsFeed feed
    → feed.shutting_down ≡ false
    → after < feed.latest_event_id
    → feed.latest_event_id ≤ after + length feed.events
    → (e : WorkflowUpdateEvent) × (wait_for_update after feed woken ≡ some e)
      × (e.event_id ≡ suc after)
unfolding wait_for_update newer_event
wait_for_update_next feed woken after f up behind lag =
    let (e, found, next) =
      find-AreNumbered f.lost feed.latest_event_id after feed.events f.numbered
        (omega (arith, span f.lost feed.events feed.latest_event_id f.numbered)) behind in
    (e, rw (up, found) (ground arith), next)
  where
    span :
        (k : ℕ) (es : List WorkflowUpdateEvent) (last : ℕ)
        → AreNumbered k es last
        → k + length es ≡ last
    span k [] last h = omega (arith, h)
    span k (x ∷ es) last h = omega (arith, span (suc k) es last h.1)

-- The feed after a sequence of publications.
abbrev pub publish_all : List String → InMemoryWorkflowUpdateFeed → InMemoryWorkflowUpdateFeed
publish_all [] feed = feed
publish_all (w ∷ ws) feed = publish_all ws (publish w feed).0

publish-retained :
    (w : String) (feed : InMemoryWorkflowUpdateFeed)
    → (publish w feed).0.retained_events ≡ feed.retained_events
unfolding publish
publish-retained w feed = refl

publish_all-IsFeed :
    (ws : List String) (feed : InMemoryWorkflowUpdateFeed)
    → 0 < feed.retained_events
    → IsFeed feed
    → IsFeed (publish_all ws feed)
publish_all-IsFeed [] feed p f = f
publish_all-IsFeed (w ∷ ws) feed p f =
    publish_all-IsFeed ws (publish w feed).0 (omega (arith, publish-retained w feed))
      (publish-IsFeed feed w p f)

-- However many updates are published, the feed keeps the latest ones without a gap: all of them,
-- or as many as it retains.
pub published-IsFeed :
    (ws : List String) (retained : ℕ)
    → IsFeed (publish_all ws (make_in_memory_workflow_update_feed retained))
unfolding make_in_memory_workflow_update_feed
published-IsFeed ws retained =
    publish_all-IsFeed ws (make_in_memory_workflow_update_feed retained) (ground arith)
      (record { lost = 0; numbered = refl; bounded = omega arith; filled = inl refl })
