-- ===== src/Indexer/Vectors.antt =====
-- The vectors of chunks, as the statements of the repository leave them
-- (apis/knowledge-base-api/src/storage/postgres/EmbeddingRepository.ts): which chunks have one of which model.
use homelab_apps.Prelude.{
  ℕ, Bool, false, not, ◌&&◌, ◌||◌, List, [], ◌∷◌, ◌++◌, ◌==◌, if◌then◌else◌, length,
}
use homelab_apps.Prelude.Text.{Units, units_eq}
use homelab_apps.Indexer.Tables.{ChunkRow, Row, Store, has_id}

unfoldable pub has_vector : ℕ → Units → List (ℕ × Units) → Bool
has_vector id model [] = false
has_vector id model ((i, m) ∷ vectors) =
    (i == id && units_eq m model) || has_vector id model vectors

-- every chunk, and those of one knowledge base
unfoldable pub all_chunks : List Row → List ChunkRow
all_chunks [] = []
all_chunks (row ∷ rows) = row.chunks ++ all_chunks rows

unfoldable pub chunks_in : Units → List Row → List ChunkRow
chunks_in kb [] = []
chunks_in kb (row ∷ rows) =
    if units_eq row.kb kb then row.chunks ++ chunks_in kb rows else chunks_in kb rows

unfoldable pub without_vector : Units → List (ℕ × Units) → List ChunkRow → List ChunkRow
unfolding has_vector
without_vector model vectors [] = []
without_vector model vectors (c ∷ chunks) =
    let later = without_vector model vectors chunks in
    if has_vector c.id model vectors then later else c ∷ later

-- pending, but for the order of its rows and its limit; its length is countPending
unfoldable pub pending : Units → Units → Store → List ChunkRow
unfolding chunks_in without_vector
pending kb model s = without_vector model s.vectors (chunks_in kb s.rows)

-- a chunk of the same hash that has a vector of the model
unfoldable pub has_twin : ChunkRow → Units → List (ℕ × Units) → List ChunkRow → Bool
unfolding has_vector
has_twin c model vectors [] = false
has_twin c model vectors (twin ∷ chunks) =
    (units_eq twin.chunk.hash c.chunk.hash
      && not (twin.id == c.id)
      && has_vector twin.id model vectors)
    || has_twin c model vectors chunks

unfoldable pub with_twin :
    Units → List (ℕ × Units) → List ChunkRow → List ChunkRow → List (ℕ × Units)
unfolding has_twin
with_twin model vectors everything [] = []
with_twin model vectors everything (c ∷ chunks) =
    let later = with_twin model vectors everything chunks in
    if has_twin c model vectors everything then (c.id, model) ∷ later else later

-- copyByHash
unfoldable pub copy_by_hash : Units → Units → Store → ℕ × Store
unfolding with_twin pending all_chunks
copy_by_hash kb model s =
    let copies = with_twin model s.vectors (all_chunks s.rows) (pending kb model s) in
    (length copies, record s { vectors = s.vectors ++ copies })

-- the rows of the insert: of chunks that exist and have no vector of the model
unfoldable pub storable : Units → Store → List ChunkRow → List (ℕ × Units)
unfolding has_vector has_id all_chunks
storable model s [] = []
storable model s (c ∷ batch) =
    let later = storable model s batch in
    if has_id c.id (all_chunks s.rows) && not (has_vector c.id model s.vectors)
    then (c.id, model) ∷ later
    else later

-- insert
unfoldable pub insert_vectors : Units → List ChunkRow → Store → ℕ × Store
unfolding storable
insert_vectors model batch s =
    let new = storable model s batch in (length new, record s { vectors = s.vectors ++ new })
