-- ===== src/Indexer/Documents.antt =====
-- What the statements on documents do to each document of each knowledge base.
use homelab_apps.Prelude.{
  ℕ, ◌+◌, ◌≡◌, refl, ap, inl, inr, Bool, true, not, ◌&&◌, Option, none, some, List, [], ◌∷◌, arith,
  if◌then◌else◌, Bool-cases, Option-cases, is_some,
}
use homelab_apps.Prelude.Text.{Units, units_eq, units_eq_iff}
use homelab_apps.Indexer.Tables.{
  Document, Chunk, ChunkRow, Row, Store, is_row, find_row, same_text, same_document, same_hashes,
  take_reusable, reconcile_chunks, put_row, write_row, touch_row, upsert_over, upsert, keep_rows,
}

abbrev pub hashes : List ChunkRow → List Units
hashes [] = []
hashes (row ∷ rows) = row.chunk.hash ∷ hashes rows

abbrev pub new_hashes : List Chunk → List Units
new_hashes [] = []
new_hashes (c ∷ chunks) = c.hash ∷ new_hashes chunks

-- A document with the hashes of its chunks.
abbrev pub Stored : Type 0
Stored = Document × List Units

abbrev pub stored_of : Option Row → Option Stored
stored_of none = none
stored_of (some row) = some (row.document, hashes row.chunks)

-- What is stored of a document.
abbrev pub view : Units → Units → List Row → Option Stored
view kb id rows = stored_of (find_row kb id rows)

find_row-put_row :
    (kb id : Units) (new : Row) (rows : List Row)
    → find_row kb id (put_row new rows)
      ≡ (if is_row kb id new then some new else find_row kb id rows)
unfolding find_row put_row is_row
find_row-put_row kb id new [] = refl
find_row-put_row kb id new (row ∷ rows) = ground (
  arith,
  units_eq_iff row.kb new.kb,
  units_eq_iff row.kb kb,
  units_eq_iff new.kb kb,
  units_eq_iff row.document.external_id new.document.external_id,
  units_eq_iff row.document.external_id id,
  units_eq_iff new.document.external_id id,
  find_row-put_row kb id new rows,
)

hashes-reconcile_chunks :
    (old : List ChunkRow) (chunks : List Chunk) (next_id : ℕ)
    → hashes (reconcile_chunks old chunks next_id).0 ≡ new_hashes chunks
unfolding reconcile_chunks
hashes-reconcile_chunks old [] next_id = refl
hashes-reconcile_chunks old (c ∷ chunks) next_id =
    ap (λ rest. c.hash ∷ rest)
      (hashes-reconcile_chunks (take_reusable c.hash old).1 chunks
        (if is_some (take_reusable c.hash old).0 then next_id else next_id + 1))

hashes_of_same :
    (rows : List ChunkRow) (chunks : List Chunk)
    → same_hashes rows chunks ≡ true
    → hashes rows ≡ new_hashes chunks
unfolding same_hashes
hashes_of_same [] [] h = refl
hashes_of_same [] (c ∷ chunks) h = cc
hashes_of_same (row ∷ rows) [] h = cc
hashes_of_same (row ∷ rows) (c ∷ chunks) h =
    ground (arith, units_eq_iff c.hash row.chunk.hash, hashes_of_same rows chunks)

same_text_eq : (a b : Option Units) → same_text a b ≡ true → a ≡ b
same_text_eq none none h = refl
same_text_eq none (some b) h = cc
same_text_eq (some a) none h = cc
same_text_eq (some a) (some b) h = ground (arith, units_eq_iff a b)

find_row-is_row :
    (kb id : Units) (rows : List Row) (row : Row)
    → find_row kb id rows ≡ some row
    → is_row kb id row ≡ true
unfolding find_row
find_row-is_row kb id [] row h = cc
find_row-is_row kb id (x ∷ rows) row h = ground (arith, find_row-is_row kb id rows row)

-- A document that is the same but for its version and link becomes the new one by taking these.
touched :
    (stored incoming : Document)
    → stored.external_id ≡ incoming.external_id
    → same_document stored incoming ≡ true
    → record stored { version = incoming.version; url = incoming.url } ≡ incoming
unfolding same_document
touched stored incoming same h = ground (
  arith,
  same_text_eq stored.title incoming.title,
  same_text_eq stored.date incoming.date,
  units_eq_iff stored.content incoming.content,
  units_eq_iff stored.metadata incoming.metadata,
)

module _ (kb : Units) (d : Document) (chunks : List Chunk) (kb' id : Units) where
  abbrev pub Written : List Row → List Row → Type 0
  Written before after = view kb' id after ≡ (
      if units_eq kb kb' && units_eq d.external_id id
      then some (d, new_hashes chunks)
      else view kb' id before)

  put_row-Written :
      (row : Row) (rows : List Row)
      → row.kb ≡ kb
      → row.document ≡ d
      → hashes row.chunks ≡ new_hashes chunks
      → Written rows (put_row row rows)
  unfolding is_row
  put_row-Written row rows k e h = ground (arith, find_row-put_row kb' id row rows)

  pub upsert-Written : (s : Store) → Written s.rows (upsert kb d chunks s).1.rows
  unfolding upsert upsert_over write_row touch_row is_row
  upsert-Written s = elim (Option-cases (find_row kb d.external_id s.rows)) [
    | inl e ↦
        rw (e, upsert, upsert_over)
          (put_row-Written _ s.rows refl refl (hashes-reconcile_chunks [] chunks s.next_id))
    | inr (row, e) ↦
        let found : is_row kb d.external_id row ≡ true =
          find_row-is_row kb d.external_id s.rows row e in
        elim (Bool-cases (same_document row.document d && same_hashes row.chunks chunks)) [
          | inl same ↦
              rw (e, same, upsert, upsert_over)
                (put_row-Written _ s.rows (ground (arith, units_eq_iff row.kb kb))
                  (touched row.document d
                    (ground (arith, units_eq_iff row.document.external_id d.external_id))
                    (ground arith))
                  (hashes_of_same row.chunks chunks (ground arith)))
          | inr changed ↦
              rw (e, changed, upsert, upsert_over)
                (put_row-Written _ s.rows refl refl
                  (hashes-reconcile_chunks row.chunks chunks s.next_id))
        ]
  ]

pub find_row-keep_rows :
    (keep : Units → Bool) (kb kb' id : Units) (rows : List Row)
    → find_row kb' id (keep_rows keep kb rows).0
      ≡ (if units_eq kb kb' && not (keep id) then none else find_row kb' id rows)
unfolding keep_rows find_row is_row
find_row-keep_rows keep kb kb' id [] = ground arith
find_row-keep_rows keep kb kb' id (row ∷ rows) = ground (
  arith,
  units_eq_iff row.kb kb,
  units_eq_iff row.kb kb',
  units_eq_iff kb kb',
  units_eq_iff row.document.external_id id,
  find_row-keep_rows keep kb kb' id rows,
)
