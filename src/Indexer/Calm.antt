-- ===== src/Indexer/Calm.antt =====
-- The steps of a run of the indexer that touch neither documents nor the cursor: all that deals in vectors
-- (apis/knowledge-base-api/src/services/IndexerService.ts).
use homelab_apps.Prelude.{ℕ, zero, suc, ◌+◌, ◌≡◌, refl, ◌∙◌, Bool, true, false, List, [], ◌∷◌, ltb}
use homelab_apps.Prelude.Text.{Units}
use homelab_apps.Miot.Error.{Attempt, returned, threw}
use homelab_apps.Indexer.Tables.{Document, Chunk, ChunkRow, Store}
use homelab_apps.Indexer.Vectors.{copy_by_hash, insert_vectors}
use homelab_apps.Indexer.{
  answer_from, after_insert, after_answer, embed_round, next_batch, embed_all, backlog_of, Embedded,
  embed_model, add_count, SourceChanges, IndexConfig, Run, Act, ◌>>=◌, continue, point, statement,
  copy_each, embed_batch, embed_pending, embed_each, finish,
}

-- The documents and the cursor are as before.
pub record Unmoved (s s' : Run) : Type 0 where
  pub rows : s'.store.rows ≡ s.store.rows
  pub cursor : s'.cursor ≡ s.cursor

-- An action that moves neither, whether it returns or throws.
abbrev pub Calm : {A : Type 0} → Act A → Type 0
Calm m = (s : Run) → Unmoved s (m s).1

-- A statement on the vectors.
abbrev CalmStatement : {A : Type 0} → (Store → A × Store) → Type 0
CalmStatement f = (store : Store) → (f store).1.rows ≡ store.rows

pub trans-Unmoved : {s t u : Run} → Unmoved s t → Unmoved t u → Unmoved s u
trans-Unmoved p q = record { rows = q.rows ∙ p.rows; cursor = q.cursor ∙ p.cursor }

pub still : (s : Run) → Unmoved s s
still s = record { rows = refl; cursor = refl }

continue-Calm :
    {A B : Type 0} (r : Attempt A) (f : A → Act B)
    → ((a : A) → Calm (f a))
    → (s : Run) → Unmoved s (continue r f s).1
continue-Calm (returned a) f h s = h a s
continue-Calm (threw e) f h s = still s

pub bind-Calm :
    {A B : Type 0} (m : Act A) (f : A → Act B) → Calm m → ((a : A) → Calm (f a)) → Calm (m >>= f)
bind-Calm m f hm hf s = trans-Unmoved (hm s) (continue-Calm (m s).0 f hf (m s).1)

pub point-Calm : Calm point
unfolding point
point-Calm s = record { rows = refl; cursor = refl }

statement-Calm : {A : Type 0} (f : Store → A × Store) → CalmStatement f → Calm (statement f)
unfolding statement
statement-Calm f h =
    bind-Calm point _ point-Calm (λ asked s. record { rows = h s.store; cursor = refl })

module _ (chunk_of : Document → List Chunk) (config : IndexConfig) where
  pub copy_each-Calm :
      (models : List Units) (embedded : List (Units × ℕ))
      → Calm (copy_each chunk_of config models embedded)
  unfolding copy_each copy_by_hash
  copy_each-Calm [] embedded = still
  copy_each-Calm (model ∷ models) embedded =
      bind-Calm (statement (copy_by_hash config.kb model)) _
        (statement-Calm (copy_by_hash config.kb model) (λ store. refl))
        (λ copied. copy_each-Calm models _)

  answer_from-Calm : (embeds : List Bool) → Calm (answer_from chunk_of config embeds)
  unfolding answer_from
  answer_from-Calm [] s = still s
  answer_from-Calm (answered ∷ embeds) s = record { rows = refl; cursor = refl }

  embed_batch-Calm : Calm (embed_batch chunk_of config)
  unfolding embed_batch
  embed_batch-Calm s = answer_from-Calm s.embeds s

  module _ (again : ℕ → Act (ℕ × Bool)) (calm : (n : ℕ) → Calm (again n)) where
    after_insert-Calm : (embedded n : ℕ) → Calm (after_insert chunk_of config again embedded n)
    unfolding after_insert
    after_insert-Calm embedded zero = still
    after_insert-Calm embedded (suc n) = calm (embedded + suc n)

    after_answer-Calm :
        (model : Units) (batch : List ChunkRow) (embedded : ℕ) (answered : Bool)
        → Calm (after_answer chunk_of config again model batch embedded answered)
    unfolding after_answer insert_vectors
    after_answer-Calm model batch embedded false = bind-Calm point _ point-Calm (λ looked. still)
    after_answer-Calm model batch embedded true =
        bind-Calm (statement (insert_vectors model batch)) _
          (statement-Calm (insert_vectors model batch) (λ store. refl))
          (λ inserted. after_insert-Calm embedded inserted)

    embed_round-Calm :
        (model : Units) (embedded : ℕ) (batch : List ChunkRow)
        → Calm (embed_round chunk_of config again model embedded batch)
    unfolding embed_round
    embed_round-Calm model embedded [] = still
    embed_round-Calm model embedded (c ∷ chunks) =
        bind-Calm (embed_batch chunk_of config) _ embed_batch-Calm
          (λ answered. after_answer-Calm model (c ∷ chunks) embedded answered)

  embed_pending-Calm :
      (fuel : ℕ) (model : Units) (embedded : ℕ)
      → Calm (embed_pending chunk_of config fuel model embedded)
  unfolding embed_pending
  embed_pending-Calm zero model embedded = still
  embed_pending-Calm (suc fuel) model embedded = bind-Calm point _ point-Calm (λ looked.
      bind-Calm (statement (next_batch chunk_of config model)) _
        (statement-Calm (next_batch chunk_of config model) (λ store. refl))
        (λ batch.
          embed_round-Calm (embed_pending chunk_of config fuel model)
            (embed_pending-Calm fuel model) model embedded batch))

  embed_all-Calm : (model : Units) → Calm (embed_all chunk_of config model)
  unfolding embed_all
  embed_all-Calm model s = embed_pending-Calm _ model 0 s

  backlog_of-Calm : (manual : Bool) (model : Units) → Calm (backlog_of chunk_of config manual model)
  unfolding backlog_of
  backlog_of-Calm true model = still
  backlog_of-Calm false model = statement-Calm _ (λ store. refl)

  embed_model-Calm :
      (again : List (Units × ℕ) → Act Embedded)
      → ((copied : List (Units × ℕ)) → Calm (again copied))
      → (model : Units) (embedded : List (Units × ℕ)) (off : Bool)
      → Calm (embed_model chunk_of config again model embedded off)
  unfolding embed_model
  embed_model-Calm again calm model embedded true =
      bind-Calm (again embedded) _ (calm embedded) (λ later. still)
  embed_model-Calm again calm model embedded false =
      bind-Calm (embed_all chunk_of config model) _ (embed_all-Calm model) (λ count.
        bind-Calm (again (add_count chunk_of config model count.0 embedded)) _
          (calm (add_count chunk_of config model count.0 embedded)) (λ later. still))

  embed_each-Calm :
      (models : List Units) (embedded : List (Units × ℕ))
      → Calm (embed_each chunk_of config models embedded)
  unfolding embed_each
  embed_each-Calm [] embedded = still
  embed_each-Calm (model ∷ models) embedded =
      bind-Calm (backlog_of chunk_of config config.manual model) _
        (backlog_of-Calm config.manual model)
        (λ backlog.
          embed_model-Calm (embed_each chunk_of config models) (embed_each-Calm models) model
            embedded (ltb config.max_scheduled_embeddings backlog))

  pub finish-Calm :
      (changes : SourceChanges) (counts : ℕ × ℕ) (deleted : ℕ) (copied : List (Units × ℕ))
      → Calm (finish chunk_of config changes counts deleted copied)
  unfolding finish
  finish-Calm changes counts deleted copied =
      bind-Calm (embed_each chunk_of config config.models copied) _
        (embed_each-Calm config.models copied) (λ done. still)
