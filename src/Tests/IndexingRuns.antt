-- ===== src/Tests/IndexingRuns.antt =====
-- The indexing loop at work: requests that queue, and the runs that overlap when a request comes before
-- the loop is ready.
use homelab_apps.Prelude.{ℕ, ◌≤◌, ◌≡◌, refl, true, false, List, [], ◌∷◌, ltb, arith, none}
use homelab_apps.Prelude.Text.{units, contains}
use homelab_apps.Indexing.{
  RunRequest, IndexerConfig, Loop, LoopEvent, ready_begins, ready_over, timer_fires, run_over,
  triggered, begins, new_loop, on_event, on_events, schedule, trigger, start, start_next, after_run,
  merge, distinct, scheduled_request,
}
use homelab_apps.Indexing.Overlap.{are_calm, single_run}
use homelab_apps.Indexing.Queue.{any_asks, any_full, any_manual, triggers, busy, queue-covered}

abbrev config : IndexerConfig
config = record { enabled = true; knowledge_bases = units "home" ∷ units "work" ∷ [] }

abbrev by_hand : RunRequest
by_hand = record { knowledge_bases = units "home" ∷ []; full = true; manual = true }

abbrev another : RunRequest
another = record { knowledge_bases = units "work" ∷ units "home" ∷ []; full = false; manual = true }

-- A proof that unfolds this runs the loop.
looping : ℕ
unfolding on_event on_events schedule trigger start start_next after_run merge distinct
    scheduled_request new_loop
looping = 0

-- A request between the halves of `$onReady` starts a run, and the timer armed after it starts another.
abbrev early : List LoopEvent
early = ready_begins ∷ triggered by_hand ∷ ready_over ∷ timer_fires ∷ []

two_runs : (on_events config early new_loop).0.runs ≡ 2
unfolding looping
two_runs = refl

-- When the second one ends, the loop does not tell that the first is in progress.
not_told :
    (on_events config
      (ready_begins ∷ triggered by_hand ∷ ready_over ∷ timer_fires ∷ run_over ∷ [])
      new_loop).0.running
    ≡ false
unfolding looping
not_told = refl

abbrev usual : List LoopEvent
usual =
    ready_begins
    ∷ ready_over
    ∷ triggered by_hand
    ∷ triggered another
    ∷ run_over
    ∷ run_over
    ∷ timer_fires
    ∷ []

usual_calm : are_calm config usual new_loop ≡ true
unfolding looping
usual_calm = refl

single_run_example :
    ((on_events config usual new_loop).0.runs ≤ 1)
    × ((on_events config usual new_loop).0.running ≡ ltb 0 (on_events config usual new_loop).0.runs)
single_run_example = single_run config usual usual_calm

abbrev in_run : Loop
in_run = record {
  stopped = false;
  restoring = false;
  armed = false;
  runs = 1;
  running = true;
  pending = none;
}

queue-covered_example :
    (next : RunRequest) × ((on_event config run_over
        (on_events config (triggers (by_hand ∷ another ∷ [])) (busy none in_run)).0).1
      ≡ begins next ∷ [])
    × (contains next.knowledge_bases (units "work")
        ≡ any_asks (units "work") (by_hand ∷ another ∷ []))
    × (next.full ≡ any_full (by_hand ∷ another ∷ []))
    × (next.manual ≡ any_manual (by_hand ∷ another ∷ []))
queue-covered_example =
    queue-covered config (units "work") by_hand (another ∷ []) in_run (omega arith) refl
