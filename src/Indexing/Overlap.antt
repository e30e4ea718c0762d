-- ===== src/Indexing/Overlap.antt =====
-- When the runs of one process do not overlap
-- (apis/knowledge-base-api/src/services/IndexingLoopService.ts).
use homelab_apps.Prelude.{
  ◌≤◌, ◌≡◌, Bool, true, false, not, ◌&&◌, List, [], ◌∷◌, arith, ltb, inl, inr, Option-cases,
}
use homelab_apps.Indexing.{
  IndexerConfig, Loop, LoopEvent, ready_begins, ready_over, timer_fires, run_over, destroyed,
  triggered, new_loop, schedule, start, trigger, start_next, after_run, on_event, on_events,
}

-- The loop is made ready while nothing runs or waits, and no request comes before it is.
abbrev pub is_calm : LoopEvent → Loop → Bool
is_calm ready_begins l = not (ltb 0 l.runs) && not l.armed
is_calm (triggered request) l = not l.restoring
is_calm event l = true

abbrev pub are_calm : IndexerConfig → List LoopEvent → Loop → Bool
are_calm config [] l = true
are_calm config (event ∷ events) l =
    is_calm event l && are_calm config events (on_event config event l).0

-- At most one run, which `running` tells; no timer is armed beside it, and nothing runs or waits while
-- the loop is made ready.
pub record IsValid (l : Loop) : Type 0 where
  pub single : l.runs ≤ 1
  pub told : l.running ≡ ltb 0 l.runs
  pub waits : l.armed ≡ true → l.runs ≡ 0
  pub quiet : l.restoring ≡ true → (l.runs ≡ 0) × (l.armed ≡ false)

on_event-IsValid :
    (config : IndexerConfig) (event : LoopEvent) (l : Loop)
    → is_calm event l ≡ true
    → IsValid l
    → IsValid (on_event config event l).0
unfolding on_event schedule start trigger start_next after_run
on_event-IsValid config ready_begins l calm v = ground arith
on_event-IsValid config ready_over l calm v = ground arith
on_event-IsValid config timer_fires l calm v = ground arith
on_event-IsValid config run_over l calm v = elim (Option-cases l.pending) [
  | inl nothing ↦ rw nothing (ground arith)
  | inr (next, waiting) ↦ rw waiting (ground arith)
]
on_event-IsValid config destroyed l calm v = ground arith
on_event-IsValid config (triggered request) l calm v = ground arith

new_loop-IsValid : IsValid new_loop
unfolding new_loop
new_loop-IsValid = ground arith

both : (a b : Bool) → (a && b) ≡ true → (a ≡ true) × (b ≡ true)
both a b h = (ground (arith, h), ground (arith, h))

on_events-IsValid :
    (config : IndexerConfig) (events : List LoopEvent) (l : Loop)
    → are_calm config events l ≡ true
    → IsValid l
    → IsValid (on_events config events l).0
unfolding on_events
on_events-IsValid config [] l calm v = v
on_events-IsValid config (event ∷ events) l calm v =
    let (first, rest) =
      both (is_calm event l) (are_calm config events (on_event config event l).0) calm in
    on_events-IsValid config events (on_event config event l).0 rest
      (on_event-IsValid config event l first v)

-- Whatever the order of timers, requests and ends of runs, at most one run of a process is in progress,
-- and `running` tells whether one is, if the loop is made ready only while nothing runs or waits and no
-- request comes before it is ready.
pub single_run :
    (config : IndexerConfig) (events : List LoopEvent)
    → are_calm config events new_loop ≡ true
    → ((on_events config events new_loop).0.runs ≤ 1)
      × ((on_events config events new_loop).0.running
          ≡ ltb 0 (on_events config events new_loop).0.runs)
single_run config events calm =
    let v = on_events-IsValid config events new_loop calm new_loop-IsValid in (v.single, v.told)
