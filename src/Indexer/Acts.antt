-- ===== src/Indexer/Acts.antt =====
-- What a run of the indexer is given, holds and gives, and the sequencing of its questions
-- (apis/knowledge-base-api/src/services/IndexerService.ts).
use homelab_apps.Prelude.{ℕ, Bool, Option, none, some, List, [], ◌∷◌}
use homelab_apps.Prelude.Text.{Units}
use homelab_apps.Miot.Error.{Thrown, Attempt, returned, threw}
use homelab_apps.Indexer.Tables.{Document, Store}

-- SourceDocument, with the answer of holdsNul
pub record SourceDocument : Type 0 where
  pub document : Document
  pub holds_nul : Bool

-- SourceChanges
pub record SourceChanges : Type 0 where
  pub upserts : List SourceDocument
  pub deletes : List Units
  pub cursor : Units
  pub complete : Bool

-- KnowledgeBaseConfig and IndexOptions, as far as `index` reads them, with `config.embeddings.batchSize` and
-- `config.indexer.maxScheduledEmbeddings`
pub record IndexConfig : Type 0 where
  pub kb : Units
  pub models : List Units
  pub full : Bool
  pub manual : Bool
  pub batch_size : ℕ
  pub max_scheduled_embeddings : ℕ

-- IndexResult; the counts of vectors stand in the order of their models
pub record IndexResult : Type 0 where
  pub cursor : Units
  pub complete : Bool
  pub upserted : ℕ
  pub unchanged : ℕ
  pub deleted : ℕ
  pub embedded : List (Units × ℕ)
  pub embedding_failed : List Units
  pub embedding_deferred : List Units

pub record Run : Type 0 where
  pub store : Store
  pub cursor : Option Units
  pub stops : List (Option Thrown)
  pub embeds : List Bool

abbrev pub Act : Type 0 → Type 0
Act A = Run → Attempt A × Run

abbrev pub pure : {A : Type 0} → A → Act A
pure a s = (returned a, s)

module _ {A B : Type 0} where
  abbrev pub continue : Attempt A → (A → Act B) → Act B
  continue (returned a) f s = f a s
  continue (threw e) f s = (threw e, s)

infixl 5 ◌>>=◌ ◌>>◌
abbrev pub ◌>>=◌ : {A B : Type 0} → Act A → (A → Act B) → Act B
◌>>=◌ m f s = continue (m s).0 f (m s).1

abbrev pub ◌>>◌ : {A B : Type 0} → Act A → Act B → Act B
m >> k = m >>= λ _. k

abbrev pub next_stop : List (Option Thrown) → Attempt (Unit {0}) × List (Option Thrown)
next_stop [] = (returned tt, [])
next_stop (none ∷ stops) = (returned tt, stops)
next_stop (some e ∷ stops) = (threw e, stops)

-- One point at which the run can be stopped: `signal.throwIfAborted()`, or a question that may fail.
unfoldable pub point : Act (Unit {0})
point s = ((next_stop s.stops).0, record s { stops = (next_stop s.stops).1 })

-- a statement, behind such a point
unfoldable pub statement : {A : Type 0} → (Store → A × Store) → Act A
unfolding point
statement f = do asked ← point; λ s. (returned (f s.store).0, record s { store = (f s.store).1 })

-- the vectors by model, the models that failed and those put off
abbrev pub Embedded : Type 0
Embedded = List (Units × ℕ) × List Units × List Units
