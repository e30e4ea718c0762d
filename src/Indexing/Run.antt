-- ===== src/Indexing/Run.antt =====
-- One run of the loop under its lock: run and runLocked of
-- apis/knowledge-base-api/src/services/IndexingLoopService.ts over index of IndexerService.ts, with getCursor,
-- recordRunStart and recordRunEnd of storage/postgres/KnowledgeBaseRepository.ts. `aborts` says of each look at
-- `signal.aborted` what it sees, and `stops` of each question whether it throws. Every knowledge base of the
-- configuration has its row. Log lines, spans and the gauge of the last success are left out.
use homelab_apps.Prelude.{Bool, true, false, Option, none, some, List, [], ◌∷◌, ◌++◌, if◌then◌else◌}
use homelab_apps.Miot.Error.{Thrown, Attempt, returned, threw}
use homelab_apps.Indexer.Tables.{Document, Chunk, Store}
use homelab_apps.Indexer.{SourceChanges, IndexConfig, IndexResult, Run, next_stop, index}
use homelab_apps.Indexing.{RunRequest}
use homelab_apps.Prelude.Text.{Units, contains, units_eq}

-- RunOutcome, with the error whose message is stored; a run that is begun and not ended has none
pub data LastRun : Type 0 where
  never running success interrupted : LastRun
  failure : Thrown → LastRun

-- RunStart, as the listener of a run is told it, or the error that it is rejected with
pub data Told : Type 0 where
  started skipped : Told
  rejected : Thrown → Told

-- A knowledge base of the configuration, with the cut of its documents and its source.
pub record KnowledgeBase : Type 0 where
  pub config : IndexConfig
  pub chunk_of : Document → List Chunk
  pub source : Option Units → SourceChanges

-- The tables, and what the run meets. `items` has the items of the job, with whether they succeeded.
pub record World : Type 0 where
  pub store : Store
  pub cursors : Units → Option Units
  pub last_runs : Units → LastRun
  pub items : List Bool
  pub stops : List (Option Thrown)
  pub embeds : List Bool
  pub aborts : List Bool

abbrev pub Step : Type 0
Step = World → Attempt (Unit {0}) × World

-- `UPDATE knowledge_bases SET ... WHERE id = $1`
abbrev pub set_at : {A : Type 0} → Units → A → (Units → A) → Units → A
set_at id a rows other = if units_eq id other then a else rows other

-- a question that may throw
unfoldable pub ask : Step
ask w = ((next_stop w.stops).0, record w { stops = (next_stop w.stops).1 })

abbrev pub next_look : List Bool → Bool × List Bool
next_look [] = (false, [])
next_look (aborted ∷ aborts) = (aborted, aborts)

-- `signal.aborted`
unfoldable pub look : World → Bool × World
look w = ((next_look w.aborts).0, record w { aborts = (next_look w.aborts).1 })

unfoldable pub after : Attempt (Unit {0}) × World → Step → Attempt (Unit {0}) × World
after (returned u, w) k = k w
after (threw e, w) k = (threw e, w)

-- recordRunStart and recordRunEnd
unfoldable pub record_run : Units → LastRun → Step
unfolding ask after
record_run id last w =
    after (ask w) (λ w. (returned tt, record w { last_runs = set_at id last w.last_runs }))

-- `.catch(() => undefined)`
abbrev pub caught : Attempt (Unit {0}) × World → World
caught (result, w) = w

module _ (request : RunRequest) where
  abbrev pub config_of : KnowledgeBase → IndexConfig
  config_of kb = record kb.config { full = request.full; manual = request.manual }

  abbrev pub run_of : KnowledgeBase → World → Run
  run_of kb w = record {
    store = w.store;
    cursor = w.cursors kb.config.kb;
    stops = w.stops;
    embeds = w.embeds;
  }

  abbrev pub without_result : Attempt IndexResult → Attempt (Unit {0})
  without_result (returned r) = returned tt
  without_result (threw e) = threw e

  -- what a run of the indexer leaves
  abbrev pub put_run : Units → Run → World → World
  put_run id s w = record w {
    store = s.store;
    cursors = λ other. if units_eq id other then s.cursor else w.cursors other;
    stops = s.stops;
    embeds = s.embeds;
  }

  -- `this.indexer.index(...)`
  unfoldable pub index_one : KnowledgeBase → Step
  unfolding index
  index_one kb w =
      let done = index kb.chunk_of (config_of kb) kb.source (run_of kb w) in
      (without_result done.0, put_run kb.config.kb done.1 w)

  -- a failure, behind the look at the signal; `next` takes the knowledge bases behind this one
  unfoldable pub after_failure : Step → Units → Thrown → Bool × World → Attempt (Unit {0}) × World
  unfolding record_run
  after_failure next id e (true, w) = (returned tt, caught (record_run id interrupted w))
  after_failure next id e (false, w) =
      next (caught (record_run id (failure e) (record w { items = w.items ++ (false ∷ []) })))

  -- the `try` and the `catch` of one knowledge base
  unfoldable pub settle : Step → Units → Attempt (Unit {0}) × World → Attempt (Unit {0}) × World
  unfolding after_failure look
  settle next id (returned u, w) = next (record w { items = w.items ++ (true ∷ []) })
  settle next id (threw e, w) = after_failure next id e (look w)

  unfoldable pub index_and_record : Step → KnowledgeBase → Step
  unfolding index_one after record_run settle
  index_and_record next kb w =
      settle next kb.config.kb (after (index_one kb w) (record_run kb.config.kb success))

  -- recordRunStart and what follows
  unfoldable pub begin : Step → KnowledgeBase → Step
  unfolding after record_run index_and_record
  begin next kb w = after (record_run kb.config.kb running w) (index_and_record next kb)

  -- the cursor of a scheduled run, behind getCursor
  unfoldable pub begin_if_built : Step → KnowledgeBase → Option Units → Step
  unfolding begin
  begin_if_built next kb none w = next w
  begin_if_built next kb (some cursor) w = begin next kb w

  unfoldable pub begin_as_asked : Step → KnowledgeBase → Bool → Step
  unfolding begin_if_built begin ask after
  begin_as_asked next kb true w = begin next kb w
  begin_as_asked next kb false w =
      after (ask w) (λ w. begin_if_built next kb (w.cursors kb.config.kb) w)

  unfoldable pub unless_aborted : Step → KnowledgeBase → Bool × World → Attempt (Unit {0}) × World
  unfolding begin_as_asked
  unless_aborted next kb (true, w) = (returned tt, w)
  unless_aborted next kb (false, w) = begin_as_asked next kb request.manual w

  -- runLocked
  unfoldable pub run_locked : List KnowledgeBase → Step
  unfolding look unless_aborted
  run_locked [] w = (returned tt, w)
  run_locked (kb ∷ kbs) w = unless_aborted (run_locked kbs) kb (look w)

  -- `config.knowledgeBases.filter(...)`
  unfoldable pub only_requested : List KnowledgeBase → List KnowledgeBase
  only_requested [] = []
  only_requested (kb ∷ kbs) =
      let later = only_requested kbs in
      if contains request.knowledge_bases kb.config.kb then kb ∷ later else later

  abbrev pub told_of : Attempt (Unit {0}) → List Told
  told_of (returned u) = started ∷ []
  told_of (threw e) = started ∷ rejected e ∷ []

  -- the end of `run`, given what withTryAdvisoryLock came to: what the listener is told, and the end
  unfoldable pub with_lock :
      List KnowledgeBase → Attempt Bool → World → List Told × Attempt (Unit {0}) × World
  unfolding run_locked
  with_lock kbs (threw e) w = (rejected e ∷ [], threw e, w)
  with_lock kbs (returned false) w = (skipped ∷ [], returned tt, w)
  with_lock kbs (returned true) w =
      let (result, w') = run_locked kbs w in (told_of result, result, w')

  -- run, given what the question for the lock comes to
  unfoldable pub run :
      List KnowledgeBase → Attempt Bool → World → List Told × Attempt (Unit {0}) × World
  unfolding only_requested with_lock
  run kbs lock w = with_lock (only_requested kbs) lock w
