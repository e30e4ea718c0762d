-- ===== src/Tests/IndexerRuns.antt =====
-- Runs of the indexer on concrete inputs.
use homelab_apps.Prelude.{◌≡◌, refl, Bool, false, Option, none, some, List, [], ◌∷◌, arith}
use homelab_apps.Prelude.Text.{Units, units, units_eq}
use homelab_apps.Miot.Error.{plain_error}
use homelab_apps.Indexer.Tables.{find_row, Document, Chunk, Store}
use homelab_apps.Indexer.{SourceChanges, IndexConfig, IndexResult, Run, embed_all, index}
use homelab_apps.Indexer.Documents.{view}
use homelab_apps.Indexer.Embeddings.{Drained, embed_all-Drained}

abbrev note : Units → Units → Document
note id content = record {
  external_id = id;
  title = none;
  date = none;
  url = none;
  content = content;
  version = units "v1";
  metadata = units "{}";
}

-- Each document is one chunk, and its hash is its content.
abbrev whole : Document → List Chunk
whole d =
    record { ord = 0; heading = units ""; anchor = units ""; body = d.content; hash = d.content }
    ∷ []

abbrev config : IndexConfig
config = record {
  kb = units "home";
  models = units "m" ∷ [];
  full = false;
  manual = false;
  batch_size = 2;
  max_scheduled_embeddings = 100;
}

abbrev changes : SourceChanges
changes = record {
  upserts =
      record { document = note (units "a") (units "new"); holds_nul = false }
      ∷ record { document = note (units "b") (units "other"); holds_nul = false }
      ∷ [];
  deletes = units "c" ∷ units "b" ∷ [];
  cursor = units "2";
  complete = false;
}

abbrev source : Option Units → SourceChanges
source cursor = changes

abbrev stored : Store
stored = record {
  rows =
      record {
        kb = units "home";
        document = note (units "a") (units "old");
        chunks =
            record {
              id = 1;
              chunk = record {
                ord = 0;
                heading = units "";
                anchor = units "";
                body = units "old";
                hash = units "old";
              };
            }
            ∷ [];
      }
      ∷ record { kb = units "home"; document = note (units "c") (units "gone"); chunks = [] }
      ∷ [];
  next_id = 2;
  vectors = (1, units "m") ∷ [];
}

-- The first run is stopped behind its first document, the second one behind the cursor, and the third one
-- gets through.
abbrev first_run : Run
first_run = record {
  store = stored;
  cursor = some (units "1");
  stops = none ∷ none ∷ none ∷ none ∷ some (plain_error "aborted") ∷ [];
  embeds = [];
}

abbrev second_run : Run
second_run = record (index whole config source first_run).1 {
  stops =
      none
      ∷ none
      ∷ none
      ∷ none
      ∷ none
      ∷ none
      ∷ none
      ∷ none
      ∷ none
      ∷ none
      ∷ none
      ∷ some (plain_error "aborted")
      ∷ [];
  embeds = [];
}

abbrev third_run : Run
third_run = record (index whole config source second_run).1 { stops = []; embeds = [] }

abbrev result : IndexResult
result = record {
  cursor = units "2";
  complete = false;
  upserted = 0;
  unchanged = 2;
  deleted = 0;
  embedded = (units "m", 2) ∷ [];
  embedding_failed = [];
  embedding_deferred = [];
}

abbrev at_second : Option Units → Bool
at_second none = false
at_second (some cursor) = units_eq cursor (units "2")

gone : view (units "home") (units "c") (index whole config source third_run).1.store.rows ≡ none
unfolding index find_row
gone = refl

embed_all-Drained_example :
    Drained whole config (units "n") (embed_all whole config (units "n") first_run)
embed_all-Drained_example = embed_all-Drained whole config (units "n") first_run (omega arith)
