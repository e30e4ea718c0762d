-- ===== src/Indexer/Embeddings.antt =====
-- The loop over the chunks without a vector ends with none of them, or because the embedder fails
-- (embedPending of apis/knowledge-base-api/src/services/IndexerService.ts).
use homelab_apps.Prelude.{
  ℕ, zero, suc, ◌+◌, ◌≤◌, ◌<◌, ◌≡◌, refl, inl, inr, Bool, true, false, ◌||◌, Option, List, [], ◌∷◌,
  ◌++◌, arith, Bool-cases, length, take,
}
use homelab_apps.Prelude.Text.{Units, units_eq_refl}
use homelab_apps.Miot.Error.{Thrown, Attempt, returned, threw}
use homelab_apps.Indexer.Tables.{Document, Chunk, ChunkRow, Row, Store, has_id}
use homelab_apps.Indexer.Vectors.{
  has_vector, all_chunks, chunks_in, without_vector, pending, storable, insert_vectors,
}
use homelab_apps.Indexer.{
  IndexConfig, Run, Act, ◌>>=◌, ◌>>◌, point, statement, answer_from, embed_batch, after_insert,
  after_answer, embed_round, next_batch, embed_pending, embed_all,
}
use homelab_apps.Indexer.Upserts.{stop-cases}

has_vector-append :
    (id : ℕ) (model : Units) (vs ws : List (ℕ × Units))
    → has_vector id model (vs ++ ws) ≡ (has_vector id model vs || has_vector id model ws)
unfolding has_vector
has_vector-append id model [] ws = refl
has_vector-append id model ((i, m) ∷ vs) ws = ground (arith, has_vector-append id model vs ws)

length-without_vector-append :
    (model : Units) (vs ws : List (ℕ × Units)) (chunks : List ChunkRow)
    → length (without_vector model (vs ++ ws) chunks) ≤ length (without_vector model vs chunks)
unfolding without_vector
length-without_vector-append model vs ws [] = omega arith
length-without_vector-append model vs ws (c ∷ chunks) =
    ground
      (arith, has_vector-append c.id model vs ws, length-without_vector-append model vs ws chunks)

-- A vector for the first chunk without one leaves fewer of them.
length-without_vector-lt :
    (model : Units) (vs ws : List (ℕ × Units)) (chunks : List ChunkRow) (c : ChunkRow)
    (rest : List ChunkRow)
    → without_vector model vs chunks ≡ c ∷ rest
    → has_vector c.id model ws ≡ true
    → length (without_vector model (vs ++ ws) chunks) < length (without_vector model vs chunks)
unfolding without_vector
length-without_vector-lt model vs ws [] c rest e h = absurd (cc)
length-without_vector-lt model vs ws (x ∷ chunks) c rest e h =
    elim (Bool-cases (has_vector x.id model vs)) [
      | inl has ↦ ground (
        arith,
        has_vector-append x.id model vs ws,
        length-without_vector-lt model vs ws chunks c rest,
      )
      | inr lacks ↦ ground (
        arith,
        has_vector-append x.id model vs ws,
        length-without_vector-append model vs ws chunks,
      )
    ]

head_lacks :
    (model : Units) (vs : List (ℕ × Units)) (chunks : List ChunkRow) (c : ChunkRow)
    (rest : List ChunkRow)
    → without_vector model vs chunks ≡ c ∷ rest
    → (has_vector c.id model vs ≡ false) × (has_id c.id chunks ≡ true)
unfolding without_vector has_id
head_lacks model vs [] c rest e = absurd (cc)
head_lacks model vs (x ∷ chunks) c rest e = elim (Bool-cases (has_vector x.id model vs)) [
  | inl has ↦ ground (arith, head_lacks model vs chunks c rest)
  | inr lacks ↦ ground arith
]

has_id-append :
    (id : ℕ) (xs ys : List ChunkRow) → has_id id (xs ++ ys) ≡ (has_id id xs || has_id id ys)
unfolding has_id
has_id-append id [] ys = refl
has_id-append id (x ∷ xs) ys = ground (arith, has_id-append id xs ys)

has_id-all_chunks :
    (kb : Units) (id : ℕ) (rows : List Row)
    → has_id id (chunks_in kb rows) ≡ true
    → has_id id (all_chunks rows) ≡ true
unfolding chunks_in all_chunks has_id
has_id-all_chunks kb id [] h = h
has_id-all_chunks kb id (row ∷ rows) h = ground (
  arith,
  has_id-append id row.chunks (all_chunks rows),
  has_id-append id row.chunks (chunks_in kb rows),
  has_id-all_chunks kb id rows,
)

storable_head :
    (model : Units) (s : Store) (c : ChunkRow) (batch : List ChunkRow)
    → has_id c.id (all_chunks s.rows) ≡ true
    → has_vector c.id model s.vectors ≡ false
    → storable model s (c ∷ batch) ≡ (c.id, model) ∷ storable model s batch
unfolding storable
storable_head model s c batch known lacks = rw (known, lacks) refl

-- The insert of a batch that begins with the first chunk without a vector leaves fewer of them, and stores
-- one at least.
insert_progress :
    (kb model : Units) (s : Store) (c : ChunkRow) (batch rest : List ChunkRow)
    → pending kb model s ≡ c ∷ rest
    → let after = insert_vectors model (c ∷ batch) s in
      (0 < after.0) × (length (pending kb model after.1) < length (pending kb model s))
unfolding pending insert_vectors has_vector
insert_progress kb model s c batch rest e =
    let (lacks, listed) = head_lacks model s.vectors (chunks_in kb s.rows) c rest e in
    let new : storable model s (c ∷ batch) ≡ (c.id, model) ∷ storable model s batch =
      storable_head model s c batch (has_id-all_chunks kb c.id s.rows listed) lacks in
    (
      rw new (omega arith),
      length-without_vector-lt model s.vectors (storable model s (c ∷ batch)) (chunks_in kb s.rows)
          c rest e (rw new (ground (arith, units_eq_refl model))),
    )

module _ {A : Type 0} (P : Attempt A × Run → Type 0) where
  point-then :
      (k : Act A) (s : Run)
      → ((e : Thrown) (stops : List (Option Thrown)) → P (threw e, record s { stops = stops }))
      → ((stops : List (Option Thrown)) → P (k (record s { stops = stops })))
      → P ((point >> k) s)
  unfolding point
  point-then k s stopped on = elim (stop-cases s.stops) [
    | inl (stops, e) ↦ rw (e, point) (on stops)
    | inr (f, stops, e) ↦ rw (e, point) (stopped f stops)
  ]

  statement-then :
      {B : Type 0} (f : Store → B × Store) (k : B → Act A) (s : Run)
      → ((e : Thrown) (stops : List (Option Thrown)) → P (threw e, record s { stops = stops }))
      → ((stops : List (Option Thrown))
          → P (k (f s.store).0 (record s { store = (f s.store).1; stops = stops })))
      → P ((statement f >>= k) s)
  unfolding statement point
  statement-then f k s stopped on = elim (stop-cases s.stops) [
    | inl (stops, e) ↦ rw (e, statement, point) (on stops)
    | inr (g, stops, e) ↦ rw (e, statement, point) (stopped g stops)
  ]

module _ (chunk_of : Document → List Chunk) (config : IndexConfig) (model : Units) where
  abbrev left : Run → List ChunkRow
  left s = pending config.kb model s.store

  -- What returns without a failure leaves no chunk without a vector.
  abbrev pub Drained : Attempt (ℕ × Bool) × Run → Type 0
  Drained (returned (n, false), s) = left s ≡ []
  Drained (returned (n, true), s) = Unit
  Drained (threw e, s) = Unit

  module _ (again : ℕ → Act (ℕ × Bool)) (fuel : ℕ)
      (drains : (n : ℕ) (s : Run) → length (left s) < fuel → Drained (again n s)) where
    insert-Drained :
        (embedded n : ℕ) (s : Run)
        → 0 < n
        → length (left s) < fuel
        → Drained (after_insert chunk_of config again embedded n s)
    unfolding after_insert
    insert-Drained embedded zero s h small = absurd (omega arith)
    insert-Drained embedded (suc n) s h small = drains (embedded + suc n) s small

    answer-Drained :
        (embedded : ℕ) (c : ChunkRow) (batch rest : List ChunkRow) (answered : Bool) (s : Run)
        → left s ≡ c ∷ rest
        → length (left s) < suc fuel
        → Drained (after_answer chunk_of config again model (c ∷ batch) embedded answered s)
    unfolding after_answer
    answer-Drained embedded c batch rest false s e small =
        point-then Drained _ s (λ f stops. tt) (λ stops. tt)
    answer-Drained embedded c batch rest true s e small =
        let (some_one, fewer) = insert_progress config.kb model s.store c batch rest e in
        statement-then Drained (insert_vectors model (c ∷ batch)) _ s (λ f stops. tt)
          (λ stops. insert-Drained embedded _ _ some_one (omega (arith, fewer)))

    answered_from-Drained :
        (embedded : ℕ) (c : ChunkRow) (batch rest : List ChunkRow) (embeds : List Bool) (s : Run)
        → left s ≡ c ∷ rest
        → length (left s) < suc fuel
        → Drained (
            (answer_from chunk_of config embeds
                >>= after_answer chunk_of config again model (c ∷ batch) embedded)
              s)
    unfolding answer_from
    answered_from-Drained embedded c batch rest [] s e small =
        answer-Drained embedded c batch rest true s e small
    answered_from-Drained embedded c batch rest (a ∷ embeds) s e small =
        answer-Drained embedded c batch rest a (record s { embeds = embeds }) e small

    round-Drained :
        (embedded k : ℕ) (chunks : List ChunkRow) (s : Run)
        → 0 < k
        → left s ≡ chunks
        → length (left s) < suc fuel
        → Drained (embed_round chunk_of config again model embedded (take k chunks) s)
    unfolding embed_round embed_batch
    round-Drained embedded zero chunks s pos e small = absurd (omega arith)
    round-Drained embedded (suc k) [] s pos e small = e
    round-Drained embedded (suc k) (c ∷ chunks) s pos e small =
        answered_from-Drained embedded c (take k chunks) chunks s.embeds s e small

  embed_pending-Drained :
      (fuel embedded : ℕ) (s : Run)
      → 0 < config.batch_size
      → length (left s) < fuel
      → Drained (embed_pending chunk_of config fuel model embedded s)
  unfolding embed_pending
  embed_pending-Drained zero embedded s pos small = absurd (omega arith)
  embed_pending-Drained (suc fuel) embedded s pos small =
      point-then Drained _ s (λ f stops. tt)
        (λ stops.
          statement-then Drained (next_batch chunk_of config model) _ (record s { stops = stops })
            (λ f later. tt)
            (λ later.
              round-Drained (embed_pending chunk_of config fuel model) fuel
                (λ n a less. embed_pending-Drained fuel n a pos less) embedded config.batch_size
                (left s) (record s { stops = later }) pos refl small))

  -- The loop over the chunks without a vector has rounds enough: if nothing stops it and the embedder does
  -- not fail, then every chunk of the knowledge base has a vector of the model behind it, for a batch size
  -- above 0.
  pub embed_all-Drained :
      (s : Run) → 0 < config.batch_size → Drained (embed_all chunk_of config model s)
  unfolding embed_all
  embed_all-Drained s pos = embed_pending-Drained _ 0 s pos (omega arith)
