-- ===== src/Indexer/Tables.antt =====
-- The tables of the knowledge base as its statements leave them
-- (apis/knowledge-base-api/src/storage/postgres/DocumentRepository.ts): documents with
-- their chunks, and the vectors of chunks. Metadata stands as its text with sorted keys, which is how it is
-- compared; the text index and the vectors themselves are left out.
use homelab_apps.Prelude.{
  ℕ, ◌+◌, Bool, true, false, not, ◌&&◌, ◌||◌, Option, none, some, List, [], ◌∷◌, ◌++◌, ◌==◌,
  if◌then◌else◌, or_else, is_some,
}
use homelab_apps.Prelude.Text.{Units, units_eq, contains}

-- DocumentDTO, but for its knowledge base
pub record Document : Type 0 where
  pub external_id : Units
  pub title : Option Units
  pub date : Option Units
  pub url : Option Units
  pub content : Units
  pub version : Units
  pub metadata : Units

-- ChunkDTO
pub record Chunk : Type 0 where
  pub ord : ℕ
  pub heading : Units
  pub anchor : Units
  pub body : Units
  pub hash : Units

-- A row of `chunks`.
pub record ChunkRow : Type 0 where
  pub id : ℕ
  pub chunk : Chunk

-- A row of `documents`, with its chunks in their order.
pub record Row : Type 0 where
  pub kb : Units
  pub document : Document
  pub chunks : List ChunkRow

-- `vectors` has the chunk and the model of each row of `embeddings`.
pub record Store : Type 0 where
  pub rows : List Row
  pub next_id : ℕ
  pub vectors : List (ℕ × Units)

-- DOCUMENT_CHANGE_VALUE_UPSERT and DOCUMENT_CHANGE_VALUE_UNCHANGED
pub data Change : Type 0 where
  upserted unchanged : Change

unfoldable pub is_row : Units → Units → Row → Bool
is_row kb id row = units_eq row.kb kb && units_eq row.document.external_id id

unfoldable pub find_row : Units → Units → List Row → Option Row
unfolding is_row
find_row kb id [] = none
find_row kb id (row ∷ rows) = if is_row kb id row then some row else find_row kb id rows

abbrev pub same_text : Option Units → Option Units → Bool
same_text none none = true
same_text (some a) (some b) = units_eq a b
same_text _ _ = false

-- sameDocument
unfoldable pub same_document : Document → Document → Bool
same_document stored incoming =
    same_text stored.title incoming.title
    && same_text stored.date incoming.date
    && units_eq stored.content incoming.content
    && units_eq stored.metadata incoming.metadata

-- sameHashes
unfoldable pub same_hashes : List ChunkRow → List Chunk → Bool
same_hashes [] [] = true
same_hashes (row ∷ rows) (c ∷ chunks) = units_eq c.hash row.chunk.hash && same_hashes rows chunks
same_hashes _ _ = false

-- `reusable.get(chunk.hash)?.shift()`: the first old row with the hash, and the others
unfoldable pub take_reusable : Units → List ChunkRow → Option ℕ × List ChunkRow
take_reusable hash [] = (none, [])
take_reusable hash (row ∷ old) =
    let later = take_reusable hash old in
    if units_eq row.chunk.hash hash then (some row.id, old) else (later.0, row ∷ later.1)

-- reconcileChunks: the rows of the new chunks, the old rows that go, and the next id
unfoldable pub reconcile_chunks : List ChunkRow → List Chunk → ℕ → List ChunkRow × List ChunkRow × ℕ
unfolding take_reusable
reconcile_chunks old [] next_id = ([], old, next_id)
reconcile_chunks old (c ∷ chunks) next_id =
    let found = take_reusable c.hash old in
    let fresh = if is_some found.0 then next_id else next_id + 1 in
    let later = reconcile_chunks found.1 chunks fresh in
    (record { id = or_else found.0 next_id; chunk = c } ∷ later.0, later.1, later.2)

unfoldable pub has_id : ℕ → List ChunkRow → Bool
has_id id [] = false
has_id id (c ∷ chunks) = c.id == id || has_id id chunks

-- `ON DELETE CASCADE` from chunks to embeddings
unfoldable pub drop_vectors : List ChunkRow → List (ℕ × Units) → List (ℕ × Units)
unfolding has_id
drop_vectors gone [] = []
drop_vectors gone ((id, model) ∷ vectors) =
    let later = drop_vectors gone vectors in if has_id id gone then later else (id, model) ∷ later

-- the row put in the place of the one with its key, or behind the others
unfoldable pub put_row : Row → List Row → List Row
unfolding is_row
put_row new [] = new ∷ []
put_row new (row ∷ rows) =
    if is_row new.kb new.document.external_id row then new ∷ rows else row ∷ put_row new rows

abbrev pub chunks_of : Option Row → List ChunkRow
chunks_of none = []
chunks_of (some row) = row.chunks

-- the insert or update of a document, with its chunks
unfoldable pub write_row : Units → Document → List Chunk → Option Row → Store → Change × Store
unfolding reconcile_chunks put_row drop_vectors
write_row kb document chunks old s =
    let made = reconcile_chunks (chunks_of old) chunks s.next_id in
    (
      upserted,
      record {
        rows = put_row (record { kb = kb; document = document; chunks = made.0 }) s.rows;
        next_id = made.2;
        vectors = drop_vectors made.1 s.vectors;
      },
    )

-- `UPDATE documents SET version = $2, url = $3`
unfoldable pub touch_row : Units → Document → Row → Store → Change × Store
unfolding put_row
touch_row kb document row s = (
  unchanged,
  record s {
    rows =
        put_row
          (record row {
            document = record row.document { version = document.version; url = document.url };
          })
          s.rows;
  },
)

-- upsert, given the stored row
unfoldable pub upsert_over : Units → Document → List Chunk → Option Row → Store → Change × Store
unfolding same_document same_hashes touch_row write_row
upsert_over kb document chunks none s = write_row kb document chunks none s
upsert_over kb document chunks (some row) s =
    if same_document row.document document && same_hashes row.chunks chunks
    then touch_row kb document row s
    else write_row kb document chunks (some row) s

-- upsert
unfoldable pub upsert : Units → Document → List Chunk → Store → Change × Store
unfolding upsert_over find_row
upsert kb document chunks s =
    upsert_over kb document chunks (find_row kb document.external_id s.rows) s

-- the rows of a knowledge base that a test on their ids keeps, and all of the others, the chunks of the rest,
-- and how many these are
unfoldable pub keep_rows : (Units → Bool) → Units → List Row → List Row × List ChunkRow × ℕ
keep_rows keep kb [] = ([], [], 0)
keep_rows keep kb (row ∷ rows) =
    let later = keep_rows keep kb rows in
    if units_eq row.kb kb && not (keep row.document.external_id)
    then (later.0, row.chunks ++ later.1, later.2 + 1)
    else (row ∷ later.0, later.1, later.2)

-- a DELETE of documents, with their chunks and vectors
unfoldable pub delete_where : (Units → Bool) → Units → Store → ℕ × Store
unfolding keep_rows drop_vectors
delete_where keep kb s =
    let kept = keep_rows keep kb s.rows in
    (kept.2, record s { rows = kept.0; vectors = drop_vectors kept.1 s.vectors })

-- delete
unfoldable pub delete : Units → List Units → Store → ℕ × Store
unfolding delete_where
delete kb ids s = delete_where (λ id. not (contains ids id)) kb s

-- deleteAllExcept
unfoldable pub delete_all_except : Units → List Units → Store → ℕ × Store
unfolding delete_where
delete_all_except kb ids s = delete_where (λ id. contains ids id) kb s
