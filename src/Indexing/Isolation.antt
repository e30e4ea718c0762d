-- ===== src/Indexing/Isolation.antt =====
-- Which knowledge bases a run of the loop leaves alone
-- (run of apis/knowledge-base-api/src/services/IndexingLoopService.ts).
use mathlib.Core.Path.{subst}
use homelab_apps.Prelude.{
  ◌≡◌, refl, sym, sym, ap, ◌∙◌, ◌⊎◌, inl, inr, Bool, true, false, Option, none, some, List, [], ◌∷◌,
  ◌++◌, arith, Bool-cases, All,
}
use homelab_apps.Miot.Error.{Thrown, Attempt, returned, threw}
use homelab_apps.Indexer.Documents.{view}
use homelab_apps.Indexing.{RunRequest}
use homelab_apps.Indexer.Others.{index_others}
use homelab_apps.Indexing.Run.{
  LastRun, running, success, interrupted, failure, KnowledgeBase, World, Step, ask, look, after,
  record_run, config_of, run_of, index_one, after_failure, settle, index_and_record, begin,
  begin_if_built, begin_as_asked, unless_aborted, run_locked, only_requested, with_lock, run,
}
use homelab_apps.Prelude.Text.{Units, units_eq, contains, eq_of_units_eq}

module _ (request : RunRequest) (other : Units) (w₀ : World) where
  -- The documents, the cursor and the record of the knowledge base are as before.
  pub record Same (w : World) : Type 0 where
    pub rows : (id : Units) → view other id w.store.rows ≡ view other id w₀.store.rows
    pub cursor : w.cursors other ≡ w₀.cursors other
    pub last_run : w.last_runs other ≡ w₀.last_runs other

  after-Same :
      (x : Attempt (Unit {0}) × World) (k : Step)
      → Same x.1
      → ((w : World) → Same w → Same (k w).1)
      → Same (after x k).1
  unfolding after
  after-Same (returned u, w) k s on = on w s
  after-Same (threw e, w) k s on = s

  ask-Same : (w : World) → Same w → Same (ask w).1
  unfolding ask
  ask-Same w s = record { rows = s.rows; cursor = s.cursor; last_run = s.last_run }

  look-Same : (w : World) → Same w → Same (look w).1
  unfolding look
  look-Same w s = record { rows = s.rows; cursor = s.cursor; last_run = s.last_run }

  record_run-Same :
      (id : Units) (last : LastRun) (w : World)
      → units_eq id other ≡ false
      → Same w
      → Same (record_run id last w).1
  unfolding record_run
  record_run-Same id last w apart s =
      after-Same (ask w) _ (ask-Same w s)
        (λ w s. record { rows = s.rows; cursor = s.cursor; last_run = rw apart s.last_run })

  item-Same : (ok : Bool) (w : World) → Same w → Same (record w { items = w.items ++ (ok ∷ []) })
  item-Same ok w s = record { rows = s.rows; cursor = s.cursor; last_run = s.last_run }

  module _ (next : Step) (on : (w : World) → Same w → Same (next w).1) (kb : KnowledgeBase) where
    module _ (apart : units_eq kb.config.kb other ≡ false) where
      index_one-Same : (w : World) → Same w → Same (index_one request kb w).1
      unfolding index_one
      index_one-Same w s = record {
        rows = λ id.
            index_others kb.chunk_of (config_of request kb) kb.source (run_of request kb w) other id
              apart
            ∙ s.rows id;
        cursor = rw apart s.cursor;
        last_run = s.last_run;
      }

      after_failure-Same :
          (e : Thrown) (seen : Bool) (w : World)
          → Same w
          → Same (after_failure request next kb.config.kb e (seen, w)).1
      unfolding after_failure
      after_failure-Same e true w s = record_run-Same kb.config.kb interrupted w apart s
      after_failure-Same e false w s =
          on _ (record_run-Same kb.config.kb (failure e) _ apart (item-Same false w s))

      settle-Same :
          (x : Attempt (Unit {0}) × World) → Same x.1 → Same (settle request next kb.config.kb x).1
      unfolding settle look
      settle-Same (returned u, w) s = on _ (item-Same true w s)
      settle-Same (threw e, w) s = after_failure-Same e (look w).0 (look w).1 (look-Same w s)

      begin-Same : (w : World) → Same w → Same (begin request next kb w).1
      unfolding begin index_and_record
      begin-Same w s =
          after-Same (record_run kb.config.kb running w) (index_and_record request next kb)
            (record_run-Same kb.config.kb running w apart s)
            (λ w s. settle-Same (after (index_one request kb w) (record_run kb.config.kb success)) (
              after-Same (index_one request kb w) (record_run kb.config.kb success)
                (index_one-Same w s) (λ w s. record_run-Same kb.config.kb success w apart s)))

      if_built-Same :
          (cursor : Option Units) (w : World)
          → Same w
          → Same (begin_if_built request next kb cursor w).1
      unfolding begin_if_built
      if_built-Same none w s = on w s
      if_built-Same (some cursor) w s = begin-Same w s

      as_asked-Same :
          (manual : Bool) (w : World) → Same w → Same (begin_as_asked request next kb manual w).1
      unfolding begin_as_asked
      as_asked-Same true w s = begin-Same w s
      as_asked-Same false w s =
          after-Same (ask w) _ (ask-Same w s) (λ w s. if_built-Same (w.cursors kb.config.kb) w s)

    -- a scheduled run does not begin it, for it has no cursor
    unbuilt-Same :
        (w : World)
        → units_eq kb.config.kb other ≡ true
        → w₀.cursors other ≡ none
        → Same w
        → Same (begin_as_asked request next kb false w).1
    unfolding begin_as_asked begin_if_built
    unbuilt-Same w it unbuilt s = after-Same (ask w) _ (ask-Same w s) (λ w s.
        let no_cursor : w.cursors kb.config.kb ≡ none =
          ap w.cursors (eq_of_units_eq kb.config.kb other it) ∙ s.cursor ∙ unbuilt in
        rw (no_cursor, begin_if_built) (on w s))

  -- It is not the knowledge base, or the run is scheduled and the knowledge base was never indexed.
  abbrev pub Spared : KnowledgeBase → Type 0
  Spared kb =
      (units_eq kb.config.kb other ≡ false) ⊎ ((request.manual ≡ false) × (w₀.cursors other ≡ none))

  Spared-Same :
      (next : Step) (on : (w : World) → Same w → Same (next w).1) (kb : KnowledgeBase) (w : World)
      → Spared kb
      → Same w
      → Same (begin_as_asked request next kb request.manual w).1
  Spared-Same next on kb w (inl apart) s = as_asked-Same next on kb apart request.manual w s
  Spared-Same next on kb w (inr (scheduled, unbuilt)) s =
      elim (Bool-cases (units_eq kb.config.kb other)) [
        | inl it ↦
            subst (λ m. Same (begin_as_asked request next kb m w).1) (sym scheduled)
              (unbuilt-Same next on kb w it unbuilt s)
        | inr apart ↦ as_asked-Same next on kb apart request.manual w s
      ]

  unless_aborted-Same :
      (next : Step) (on : (w : World) → Same w → Same (next w).1) (kb : KnowledgeBase) (seen : Bool)
      (w : World)
      → Spared kb
      → Same w
      → Same (unless_aborted request next kb (seen, w)).1
  unfolding unless_aborted
  unless_aborted-Same next on kb true w spared s = s
  unless_aborted-Same next on kb false w spared s = Spared-Same next on kb w spared s

  run_locked-Same :
      (kbs : List KnowledgeBase) (w : World)
      → All Spared kbs
      → Same w
      → Same (run_locked request kbs w).1
  unfolding run_locked look
  run_locked-Same [] w spared s = s
  run_locked-Same (kb ∷ kbs) w (spared, later) s =
      unless_aborted-Same (run_locked request kbs) (λ w s. run_locked-Same kbs w later s) kb
        (look w).0 (look w).1 spared (look-Same w s)

  unlisted-apart :
      (id : Units)
      → contains request.knowledge_bases id ≡ true
      → contains request.knowledge_bases other ≡ false
      → units_eq id other ≡ false
  unlisted-apart id listed unlisted = elim (Bool-cases (units_eq id other)) [
    | inr apart ↦ apart
    | inl it ↦
        let same : contains request.knowledge_bases id ≡ contains request.knowledge_bases other =
          ap (contains request.knowledge_bases) (eq_of_units_eq id other it) in
        ground arith
  ]

  requested-Spared :
      (kbs : List KnowledgeBase)
      → ((kb : KnowledgeBase) → contains request.knowledge_bases kb.config.kb ≡ true → Spared kb)
      → All Spared (only_requested request kbs)
  unfolding only_requested
  requested-Spared [] h = tt
  requested-Spared (kb ∷ kbs) h =
      elim (Bool-cases (contains request.knowledge_bases kb.config.kb)) [
        | inr out ↦ rw (out, only_requested) (requested-Spared kbs h)
        | inl listed ↦ rw (listed, only_requested) (h kb listed, requested-Spared kbs h)
      ]

  -- It is not asked for, or it was never indexed and the run is scheduled.
  abbrev pub LeftOut : Type 0
  LeftOut =
      (contains request.knowledge_bases other ≡ false)
      ⊎ ((request.manual ≡ false) × (w₀.cursors other ≡ none))

  left_out-Spared :
      (kb : KnowledgeBase)
      → LeftOut
      → contains request.knowledge_bases kb.config.kb ≡ true
      → Spared kb
  left_out-Spared kb (inl unlisted) listed = inl (unlisted-apart kb.config.kb listed unlisted)
  left_out-Spared kb (inr unbuilt) listed = inr unbuilt

  begun-Same : Same w₀
  begun-Same = record { rows = λ id. refl; cursor = refl; last_run = refl }

  with_lock-Same :
      (kbs : List KnowledgeBase) (lock : Attempt Bool)
      → All Spared kbs
      → Same (with_lock request kbs lock w₀).2
  unfolding with_lock
  with_lock-Same kbs (threw e) spared = begun-Same
  with_lock-Same kbs (returned false) spared = begun-Same
  with_lock-Same kbs (returned true) spared = run_locked-Same kbs w₀ spared begun-Same

  -- Whatever fails and wherever it is stopped, a run leaves the documents, the cursor and the record of a
  -- knowledge base as they are if it is not asked for that knowledge base, or if the run is scheduled and the
  -- knowledge base was never indexed.
  pub run-Same :
      (kbs : List KnowledgeBase) (lock : Attempt Bool) → LeftOut → Same (run request kbs lock w₀).2
  unfolding run
  run-Same kbs lock left_out =
      with_lock-Same (only_requested request kbs) lock
        (requested-Spared kbs (λ kb listed. left_out-Spared kb left_out listed))
