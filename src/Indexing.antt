-- ===== src/Indexing.antt =====
-- The background loop that indexes the knowledge bases, as a machine over its events: the two halves of
-- `$onReady` around the read of the last runs, the timer, a request to run, the end of a run, and
-- `$onDestroy` (apis/knowledge-base-api/src/services/IndexingLoopService.ts).
pub mod Overlap
pub mod Queue
pub mod Run
pub mod Isolation
use homelab_apps.Prelude.{
  ℕ, zero, suc, ◌+◌, ◌-◌, Bool, true, false, not, ◌&&◌, ◌||◌, Option, none, some, List, [], ◌∷◌,
  ◌++◌, if◌then◌else◌, ltb, leb,
}
use homelab_apps.Prelude.Text.{Units, contains}

-- RunRequest
pub record RunRequest : Type 0 where
  pub knowledge_bases : List Units
  pub full : Bool
  pub manual : Bool

-- What the loop reads of the configuration.
pub record IndexerConfig : Type 0 where
  pub enabled : Bool
  pub knowledge_bases : List Units

-- `stopped`, whether `$onReady` reads the last runs, whether the timer is armed, how many runs are in
-- progress, whether `running` is defined, and `pending`.
pub record Loop : Type 0 where
  pub stopped : Bool
  pub restoring : Bool
  pub armed : Bool
  pub runs : ℕ
  pub running : Bool
  pub pending : Option RunRequest

-- The members as the constructor leaves them.
unfoldable pub new_loop : Loop
new_loop = record {
  stopped = false;
  restoring = false;
  armed = false;
  runs = 0;
  running = false;
  pending = none;
}

pub data LoopEvent : Type 0 where
  ready_begins ready_over timer_fires run_over destroyed : LoopEvent
  triggered : RunRequest → LoopEvent

-- What comes of an event: a run begins, or a request is answered with `QUEUED`.
pub data LoopEffect : Type 0 where
  begins : RunRequest → LoopEffect
  queued : LoopEffect

-- `[...new Set(ids)]`, of the ids in front of which `seen` stand
unfoldable pub distinct : List Units → List Units → List Units
distinct seen [] = []
distinct seen (id ∷ ids) =
    let rest = distinct (id ∷ seen) ids in if contains seen id then rest else id ∷ rest

-- merge
unfoldable pub merge : Option RunRequest → RunRequest → RunRequest
merge none request = request
merge (some q) request = record {
  knowledge_bases = distinct [] (q.knowledge_bases ++ request.knowledge_bases);
  full = q.full || request.full;
  manual = q.manual || request.manual;
}

-- schedule
unfoldable pub schedule : Loop → Loop
schedule l = if l.stopped then l else record l { armed = true }

-- start, up to its first await
unfoldable pub start : RunRequest → Loop → Loop × List LoopEffect
start request l = (record l { runs = suc l.runs; running = true }, begins request ∷ [])

-- The request of the timer.
unfoldable pub scheduled_request : IndexerConfig → RunRequest
scheduled_request config = record {
  knowledge_bases = config.knowledge_bases;
  full = false;
  manual = false;
}

-- trigger
unfoldable pub trigger : RunRequest → Loop → Loop × List LoopEffect
trigger request l =
    if l.running
    then (record l { pending = some (merge l.pending request) }, queued ∷ [])
    else start request (record l { armed = false })

-- The end of start, of what was pending.
unfoldable pub start_next : IndexerConfig → Option RunRequest → Loop → Loop × List LoopEffect
start_next config (some next) l = start next l
start_next config none l = (if config.enabled then schedule l else l, [])

-- start behind its await
unfoldable pub after_run : IndexerConfig → Loop → Loop × List LoopEffect
after_run config l =
    let ended : Loop = record l { runs = l.runs - 1; running = false } in
    if l.stopped then (ended, []) else start_next config l.pending (record ended { pending = none })

-- The loop at one event; the timer's callback starts a run without asking whether one is in progress.
unfoldable pub on_event : IndexerConfig → LoopEvent → Loop → Loop × List LoopEffect
on_event config ready_begins l = (record l { stopped = false; restoring = true }, [])
on_event config ready_over l =
    let restored : Loop = record l { restoring = false } in
    (if l.restoring && config.enabled then schedule restored else restored, [])
on_event config timer_fires l =
    if l.armed then start (scheduled_request config) (record l { armed = false }) else (l, [])
on_event config run_over l = if ltb 0 l.runs then after_run config l else (l, [])
on_event config destroyed l = (record l { stopped = true; armed = false }, [])
on_event config (triggered request) l = trigger request l

unfoldable pub on_events : IndexerConfig → List LoopEvent → Loop → Loop × List LoopEffect
on_events config [] l = (l, [])
on_events config (event ∷ events) l =
    let (next, now) = on_event config event l in
    let (last, later) = on_events config events next in (last, now ++ later)
