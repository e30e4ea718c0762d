-- ===== src/Indexer/Others.antt =====
-- A run of the indexer leaves the other knowledge bases alone
-- (index of apis/knowledge-base-api/src/services/IndexerService.ts).
use homelab_apps.Prelude.{◌≡◌, inl, inr, false, Option, List}
use homelab_apps.Prelude.Text.{Units, units_eq}
use homelab_apps.Miot.Error.{Attempt, returned, threw}
use homelab_apps.Indexer.Tables.{Document, Chunk}
use homelab_apps.Indexer.{SourceChanges, IndexConfig, IndexResult, Run, index}
use homelab_apps.Indexer.Documents.{view}
use homelab_apps.Indexer.Upserts.{Ends}
use homelab_apps.Indexer.Target.{Indexed, Stopped}
use homelab_apps.Indexer.Retry.{asked, index-Ends}

Ends-others :
    (chunk_of : Document → List Chunk) (config : IndexConfig) (changes : SourceChanges) (s : Run)
    (x : Attempt IndexResult × Run) (kb id : Units)
    → units_eq config.kb kb ≡ false
    → Ends (Indexed chunk_of config changes s) (Stopped chunk_of config changes s) x
    → view kb id x.1.store.rows ≡ view kb id s.store.rows
Ends-others chunk_of config changes s (returned r, a) kb id other d = d.others kb id other
Ends-others chunk_of config changes s (threw e, a) kb id other (inl b) = b.others kb id other
Ends-others chunk_of config changes s (threw e, a) kb id other (inr d) = d.others kb id other

pub index_others :
    (chunk_of : Document → List Chunk) (config : IndexConfig)
    (source : Option Units → SourceChanges) (s : Run) (kb id : Units)
    → units_eq config.kb kb ≡ false
    → view kb id (index chunk_of config source s).1.store.rows ≡ view kb id s.store.rows
unfolding index
index_others chunk_of config source s kb id other =
    Ends-others chunk_of config (asked chunk_of config source config.full s) s
      (index chunk_of config source s) kb id other (index-Ends chunk_of config source config.full s)
