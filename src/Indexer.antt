-- ===== src/Indexer.antt =====
-- One run of the indexer over a knowledge base (apis/knowledge-base-api/src/services/IndexerService.ts):
-- the changes of its source, the documents, the cursor, and then the vectors. `stops` says of each look at
-- the abort signal, and of each question to the database or the source, whether it throws, and `embeds`
-- whether the embedder answers. Spans, metrics and log lines are left out.
pub mod Tables
pub mod Vectors
mod Acts
pub mod Documents
pub mod Upserts
pub mod Calm
pub mod Target
pub mod Stages
pub mod Retry
pub mod Others
pub mod Embeddings
use homelab_apps.Prelude.{
  ℕ, zero, suc, ◌+◌, Bool, true, false, Option, none, some, List, [], ◌∷◌, ◌++◌, map, ltb,
  if◌then◌else◌, length, take,
}
use homelab_apps.Prelude.Text.{Units, units_eq, contains}
use homelab_apps.Miot.Error.{returned}
unfoldable pub use Acts.*
use homelab_apps.Indexer.Tables.{
  Document, Chunk, ChunkRow, Change, upserted, unchanged, Store, upsert, delete, delete_all_except,
}
use homelab_apps.Indexer.Vectors.{copy_by_hash, pending, insert_vectors}

module _ (chunk_of : Document → List Chunk) (config : IndexConfig) where
  unfoldable pub count_change : Change → ℕ × ℕ → ℕ × ℕ
  count_change unchanged (up, un) = (up, un + 1)
  count_change upserted (up, un) = (up + 1, un)

  -- `for (const document of changes.upserts)`
  unfoldable pub upsert_each : List SourceDocument → ℕ × ℕ → Act (ℕ × ℕ)
  unfolding statement upsert count_change
  upsert_each [] counts = pure counts
  upsert_each (d ∷ documents) counts = point >> elim d.holds_nul [
    | true ↦ upsert_each documents counts
    | false ↦ do
      change ← statement (upsert config.kb d.document (chunk_of d.document))
      upsert_each documents (count_change change counts)
  ]

  -- `embedded[model] = ...`
  abbrev pub set_count : Units → ℕ → List (Units × ℕ) → List (Units × ℕ)
  set_count model n [] = (model, n) ∷ []
  set_count model n ((m, k) ∷ embedded) =
      if units_eq m model then (m, n) ∷ embedded else (m, k) ∷ set_count model n embedded

  -- `for (const model of kb.models)`, before deletions
  unfoldable pub copy_each : List Units → List (Units × ℕ) → Act (List (Units × ℕ))
  unfolding statement copy_by_hash
  copy_each [] embedded = pure embedded
  copy_each (model ∷ models) embedded = do
    copied ← statement (copy_by_hash config.kb model)
    copy_each models (set_count model copied embedded)

  abbrev pub ids_of : List SourceDocument → List Units
  ids_of documents = map (λ (d : SourceDocument). d.document.external_id) documents

  -- `changes.deletes.filter((id) => !upsertedIds.includes(id))`
  unfoldable pub only_gone : List Units → List Units → List Units
  only_gone ids [] = []
  only_gone ids (id ∷ deletes) =
      let later = only_gone ids deletes in if contains ids id then later else id ∷ later

  -- delete, which does not ask the database for no document
  unfoldable pub delete_named : List Units → Act ℕ
  unfolding statement delete
  delete_named [] = pure 0
  delete_named (id ∷ ids) = statement (delete config.kb (id ∷ ids))

  -- `changes.complete ? ... : ...`
  unfoldable pub delete_all_or_named : Bool → List Units → List Units → Act ℕ
  unfolding statement only_gone delete_named delete_all_except
  delete_all_or_named true ids deletes = statement (delete_all_except config.kb ids)
  delete_all_or_named false ids deletes = delete_named (only_gone ids deletes)

  -- the deletions of a run
  unfoldable pub delete_gone : SourceChanges → Act ℕ
  unfolding delete_all_or_named
  delete_gone changes =
      delete_all_or_named changes.complete (ids_of changes.upserts) changes.deletes

  -- setCursor
  unfoldable pub set_cursor : Units → Act (Unit {0})
  unfolding point
  set_cursor cursor = point >> (λ s. (returned tt, record s { cursor = some cursor }))

  unfoldable pub answer_from : List Bool → Act Bool
  answer_from [] s = (returned true, s)
  answer_from (answered ∷ embeds) s = (returned answered, record s { embeds = embeds })

  -- `embeddings.embedDocuments(...)`: whether it answered
  unfoldable pub embed_batch : Act Bool
  unfolding answer_from
  embed_batch s = answer_from s.embeds s

  -- the end of a round; `again` is the next one
  unfoldable pub after_insert : (ℕ → Act (ℕ × Bool)) → ℕ → ℕ → Act (ℕ × Bool)
  after_insert again embedded zero = pure (embedded, false)
  after_insert again embedded (suc n) = again (embedded + suc n)

  unfoldable pub after_answer :
      (ℕ → Act (ℕ × Bool)) → Units → List ChunkRow → ℕ → Bool → Act (ℕ × Bool)
  unfolding point statement insert_vectors after_insert
  after_answer again model batch embedded false = point >> pure (embedded, true)
  after_answer again model batch embedded true = do
    inserted ← statement (insert_vectors model batch)
    after_insert again embedded inserted

  unfoldable pub embed_round : (ℕ → Act (ℕ × Bool)) → Units → ℕ → List ChunkRow → Act (ℕ × Bool)
  unfolding embed_batch after_answer
  embed_round again model embedded [] = pure (embedded, false)
  embed_round again model embedded (c ∷ chunks) = do
    answered ← embed_batch
    after_answer again model (c ∷ chunks) embedded answered

  abbrev pub next_batch : Units → Store → List ChunkRow × Store
  next_batch model store = (take config.batch_size (pending config.kb model store), store)

  -- embedPending on fuel for its rounds: how many chunks it embedded, and whether it failed
  unfoldable pub embed_pending : ℕ → Units → ℕ → Act (ℕ × Bool)
  unfolding point statement pending embed_round
  embed_pending zero model embedded = pure (embedded, false)
  embed_pending (suc fuel) model embedded = do
    looked ← point
    batch ← statement (next_batch model)
    embed_round (embed_pending fuel model) model embedded batch

  abbrev pub add_count : Units → ℕ → List (Units × ℕ) → List (Units × ℕ)
  add_count model n [] = []
  add_count model n ((m, k) ∷ embedded) =
      if units_eq m model then (m, k + n) ∷ embedded else (m, k) ∷ add_count model n embedded

  abbrev pub failed_if : Bool → Units → List Units
  failed_if true model = model ∷ []
  failed_if false model = []

  -- countPending, which a run by hand does not ask for
  unfoldable pub backlog_of : Bool → Units → Act ℕ
  unfolding statement pending
  backlog_of true model = pure 0
  backlog_of false model = statement (λ store. (length (pending config.kb model store), store))

  -- embedPending with fuel for one round more than there are chunks to embed
  unfoldable pub embed_all : Units → Act (ℕ × Bool)
  unfolding pending embed_pending
  embed_all model s = embed_pending (length (pending config.kb model s.store) + 1) model 0 s

  -- one model, which is put off or embedded; `again` are the models behind it
  unfoldable pub embed_model :
      (List (Units × ℕ) → Act Embedded) → Units → List (Units × ℕ) → Bool → Act Embedded
  unfolding embed_all
  embed_model again model embedded true = do
    later ← again embedded
    pure (later.0, later.1, model ∷ later.2)
  embed_model again model embedded false = do
    count ← embed_all model
    later ← again (add_count model count.0 embedded)
    pure (later.0, failed_if count.1 model ++ later.1, later.2)

  -- the loop over the models behind the cursor
  unfoldable pub embed_each : List Units → List (Units × ℕ) → Act Embedded
  unfolding backlog_of embed_model
  embed_each [] embedded = pure (embedded, [], [])
  embed_each (model ∷ models) embedded = do
    backlog ← backlog_of config.manual model
    embed_model (embed_each models) model embedded (ltb config.max_scheduled_embeddings backlog)

  -- `index` behind the cursor
  unfoldable pub finish : SourceChanges → ℕ × ℕ → ℕ → List (Units × ℕ) → Act IndexResult
  unfolding embed_each
  finish changes counts deleted copied = do
    done ← embed_each config.models copied
    pure (record {
      cursor = changes.cursor;
      complete = changes.complete;
      upserted = counts.0;
      unchanged = counts.1;
      deleted = deleted;
      embedded = done.0;
      embedding_failed = done.1;
      embedding_deferred = done.2;
    })

  -- `index` from the changes on to the cursor
  unfoldable pub take_changes : SourceChanges → Act IndexResult
  unfolding upsert_each copy_each point delete_gone set_cursor finish
  take_changes changes = do
    counts ← upsert_each changes.upserts (0, 0)
    copied ← copy_each config.models []
    looked ← point
    deleted ← delete_gone changes
    stored ← set_cursor changes.cursor
    finish changes counts deleted copied

  -- the stored cursor, or none where everything is asked for
  unfoldable pub start_cursor : Bool → Act (Option Units)
  unfolding point
  start_cursor true = pure none
  start_cursor false = point >> (λ s. (returned s.cursor, s))

  -- index
  unfoldable pub index : (Option Units → SourceChanges) → Act IndexResult
  unfolding start_cursor point take_changes
  index source = do cursor ← start_cursor config.full; asked ← point; take_changes (source cursor)
