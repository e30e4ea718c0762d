-- ===== src/Indexer/Retry.antt =====
-- A run of the indexer that stops anywhere is made good by a later one
-- (index of apis/knowledge-base-api/src/services/IndexerService.ts).
use homelab_apps.Prelude.{
  ◌≡◌, ◌≢◌, refl, [], ◌∷◌, inl, inr, Bool, true, false, Option, none, List, if◌then◌else◌,
}
use homelab_apps.Prelude.Text.{Units}
use homelab_apps.Miot.Error.{Thrown, returned, threw}
use homelab_apps.Indexer.Tables.{Document, Chunk}
use homelab_apps.Indexer.{
  ◌>>=◌, SourceChanges, IndexConfig, Run, point, take_changes, ◌>>◌, start_cursor, IndexResult,
  index,
}
use homelab_apps.Indexer.Documents.{Stored}
use homelab_apps.Indexer.Upserts.{Ends, Ends-mono, stop-cases, point-Ends}
use homelab_apps.Indexer.Target.{target, Indexed, Stopped}
use homelab_apps.Indexer.Stages.{take_changes-Ends}

module _ (chunk_of : Document → List Chunk) (config : IndexConfig)
    (source : Option Units → SourceChanges) where
  -- What a run asks the source for.
  abbrev pub asked : Bool → Run → SourceChanges
  asked full s = source (if full then none else s.cursor)

  module _ (changes : SourceChanges) (s : Run) (stops : List (Option Thrown)) where
    abbrev resumed : Run
    resumed = record s { stops = stops }

    resumed-Indexed :
        (a : Run) → Indexed chunk_of config changes resumed a → Indexed chunk_of config changes s a
    resumed-Indexed a d = record { rows = d.rows; others = d.others; cursor = d.cursor }

    resumed-Stopped :
        (a : Run) → Stopped chunk_of config changes resumed a → Stopped chunk_of config changes s a
    resumed-Stopped a (inl b) = inl (record { rows = b.rows; others = b.others; cursor = b.cursor })
    resumed-Stopped a (inr d) = inr (resumed-Indexed a d)

  not_begun :
      (changes : SourceChanges) (s : Run) (stops : List (Option Thrown))
      → Stopped chunk_of config changes s (record s { stops = stops })
  not_begun changes s stops =
      inl (record { rows = λ id. refl; others = λ kb id other. refl; cursor = refl })

  asked-Ends :
      (changes : SourceChanges) (s : Run)
      → Ends
          (Indexed chunk_of config changes s)
          (Stopped chunk_of config changes s)
          ((point >> take_changes chunk_of config changes) s)
  asked-Ends changes s =
      point-Ends _ _ (take_changes chunk_of config changes) s (not_begun changes s) (λ stops.
        Ends-mono _ _ _ _ _ (resumed-Indexed changes s stops) (resumed-Stopped changes s stops)
          (take_changes-Ends chunk_of config changes (record s { stops = stops })))

  pub index-Ends :
      (full : Bool) (s : Run)
      → Ends (Indexed chunk_of config (asked full s) s) (Stopped chunk_of config (asked full s) s) (
          (start_cursor chunk_of config full >>= λ cursor.
          point >> take_changes chunk_of config (source cursor))
            s)
  unfolding start_cursor
  index-Ends true s = asked-Ends (source none) s
  index-Ends false s = elim (stop-cases s.stops) [
    | inl (stops, e) ↦
        rw (e, start_cursor, point)
          (Ends-mono _ _ _ _ _ (resumed-Indexed (source s.cursor) s stops)
            (resumed-Stopped (source s.cursor) s stops)
            (asked-Ends (source s.cursor) (record s { stops = stops })))
    | inr (f, stops, e) ↦ rw (e, start_cursor, point) (not_begun (source s.cursor) s stops)
  ]

  -- Runs that throw, wherever they stop, and then one that returns: `s` is the state before the first of
  -- them, and each later one meets points of its own. The list holds the changes that each run asked for
  -- which left the cursor at another place, and those of the run that returns.
  pub data Retried : Run → List SourceChanges → Run → Type 0 where
    last :
        (s : Run) (r : IndexResult)
        → (index chunk_of config source s).0 ≡ returned r
        → Retried s (asked config.full s ∷ []) (index chunk_of config source s).1
    again :
        {s' : Run} {all : List SourceChanges} (s : Run) (e : Thrown) (stops : List (Option Thrown))
        (embeds : List Bool)
        → (index chunk_of config source s).0 ≡ threw e
        → (index chunk_of config source s).1.cursor ≡ s.cursor
        → Retried
            (record (index chunk_of config source s).1 { stops = stops; embeds = embeds })
            all
            s'
        → Retried s all s'
    moved :
        {s' : Run} {all : List SourceChanges} (s : Run) (e : Thrown) (stops : List (Option Thrown))
        (embeds : List Bool)
        → (index chunk_of config source s).0 ≡ threw e
        → (index chunk_of config source s).1.cursor ≢ s.cursor
        → Retried
            (record (index chunk_of config source s).1 { stops = stops; embeds = embeds })
            all
            s'
        → Retried s (asked config.full s ∷ all) s'

  -- What changes, one after another, make of a document.
  abbrev pub made : List SourceChanges → Option Stored → Units → Option Stored
  made [] old id = old
  made (changes ∷ all) old id = made all (target chunk_of config changes old id) id
