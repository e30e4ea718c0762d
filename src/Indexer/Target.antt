-- ===== src/Indexer/Target.antt =====
-- What a run of the indexer is to make of each document, and what its deletions do to that
-- (apis/knowledge-base-api/src/services/IndexerService.ts).
use homelab_apps.Prelude.{
  ◌≡◌, refl, ap, ◌⊎◌, inl, inr, Bool, true, false, not, ◌&&◌, ◌||◌, Option, none, some, List, [],
  ◌∷◌, arith, if◌then◌else◌, Bool-cases, is_some, first_of, or_left, or_right,
}
use homelab_apps.Prelude.Text.{Units, units_eq, units_eq_iff, units_eq_refl, contains}
use homelab_apps.Indexer.Tables.{Document, Chunk, Store, delete, delete_all_except, delete_where}
use homelab_apps.Indexer.{SourceDocument, SourceChanges, IndexConfig, Run, ids_of, only_gone}
use homelab_apps.Indexer.Documents.{Stored, view, find_row-keep_rows}
use homelab_apps.Indexer.Upserts.{last_upsert, own, Reached, Between}

pub contains-only_gone :
    (chunk_of : Document → List Chunk) (config : IndexConfig) (ids deletes : List Units)
    (id : Units)
    → contains (only_gone chunk_of config ids deletes) id
      ≡ (contains deletes id && not (contains ids id))
unfolding only_gone
contains-only_gone chunk_of config ids [] id = refl
contains-only_gone chunk_of config ids (x ∷ deletes) id =
    ground (arith, units_eq_iff x id, contains-only_gone chunk_of config ids deletes id)

view-delete_where :
    (keep : Units → Bool) (kb : Units) (store : Store) (kb' id : Units)
    → view kb' id (delete_where keep kb store).1.rows
      ≡ (if units_eq kb kb' && not (keep id) then none else view kb' id store.rows)
unfolding delete_where
view-delete_where keep kb store kb' id =
    ground (arith, find_row-keep_rows keep kb kb' id store.rows)

module _ (chunk_of : Document → List Chunk) (config : IndexConfig) where
  abbrev pub ids : SourceChanges → List Units
  ids changes = ids_of chunk_of config changes.upserts

  -- What a document is to become by the changes of the source, given what it is.
  abbrev pub target : SourceChanges → Option Stored → Units → Option Stored
  target changes old id = first_of (last_upsert chunk_of config id changes.upserts) (
      if contains (ids changes) id
      then old
      else if changes.complete || contains changes.deletes id
      then none
      else old)

  last_upsert_listed :
      (id : Units) (documents : List SourceDocument)
      → is_some (last_upsert chunk_of config id documents) ≡ true
      → contains (ids_of chunk_of config documents) id ≡ true
  last_upsert_listed id [] h = cc
  last_upsert_listed id (d ∷ documents) h =
      elim (Bool-cases (is_some (last_upsert chunk_of config id documents))) [
        | inl some_one ↦ or_right _ _ (last_upsert_listed id documents some_one)
        | inr no_one ↦ or_left (units_eq d.document.external_id id) _ (ground arith)
      ]

  pub target_again :
      (changes : SourceChanges) (old : Option Stored) (id : Units)
      → target changes (target changes old id) id ≡ target changes old id
  target_again changes old id = ground arith

  -- The rows that the deletions keep.
  pub view-delete :
      (complete : Bool) (keep deletes : List Units) (store : Store) (kb id : Units)
      → view kb id
          ((if complete
              then delete_all_except config.kb keep
              else delete config.kb (only_gone chunk_of config keep deletes))
            store).1.rows
        ≡ (if units_eq config.kb kb && (not (contains keep id) && (complete || contains deletes id))
            then none
            else view kb id store.rows)
  unfolding delete delete_all_except
  view-delete true keep deletes store kb id =
      ground (arith, view-delete_where (λ x. contains keep x) config.kb store kb id)
  view-delete false keep deletes store kb id = ground (
    arith,
    contains-only_gone chunk_of config keep deletes id,
    view-delete_where (λ x. not (contains (only_gone chunk_of config keep deletes) x)) config.kb
        store kb id,
  )

  -- The changes are stored, with their cursor.
  pub record Indexed (changes : SourceChanges) (s s' : Run) : Type 0 where
    pub rows :
        (id : Units) → own chunk_of config id s' ≡ target changes (own chunk_of config id s) id
    pub others :
        (kb id : Units)
        → units_eq config.kb kb ≡ false
        → view kb id s'.store.rows ≡ view kb id s.store.rows
    pub cursor : s'.cursor ≡ some changes.cursor

  -- The cursor is as before, and what the changes are to bring about is not lost.
  pub record Behind (changes : SourceChanges) (s s' : Run) : Type 0 where
    pub rows :
        (id : Units)
        → target changes (own chunk_of config id s') id
          ≡ target changes (own chunk_of config id s) id
    pub others :
        (kb id : Units)
        → units_eq config.kb kb ≡ false
        → view kb id s'.store.rows ≡ view kb id s.store.rows
    pub cursor : s'.cursor ≡ s.cursor

  abbrev pub Stopped : SourceChanges → Run → Run → Type 0
  Stopped changes s s' = Behind changes s s' ⊎ Indexed changes s s'

  pub Between-Behind :
      (changes : SourceChanges) (s s' : Run)
      → Between chunk_of config changes.upserts s s'
      → Behind changes s s'
  Between-Behind changes s s' b = record {
    rows = λ id. elim (b.rows id) [
      | inl same ↦ ap (λ old. target changes old id) same
      | inr some_one ↦ ground arith
    ];
    others = b.others;
    cursor = b.cursor;
  }

  pub Reached-Behind :
      (changes : SourceChanges) (s s' : Run)
      → Reached chunk_of config changes.upserts s s'
      → Behind changes s s'
  Reached-Behind changes s s' r = record {
    rows = λ id. ground (arith, r.rows id);
    others = r.others;
    cursor = r.cursor;
  }

  -- What the deletions make of a store that has all of the documents.
  pub deleted-rows :
      (changes : SourceChanges) (s s' : Run) (id : Units)
      → Reached chunk_of config changes.upserts s s'
      → (if units_eq config.kb config.kb
            && (not (contains (ids changes) id)
                && (changes.complete || contains changes.deletes id))
          then none
          else own chunk_of config id s')
        ≡ target changes (own chunk_of config id s) id
  deleted-rows changes s s' id r =
      ground (arith, r.rows id, units_eq_refl config.kb, last_upsert_listed id changes.upserts)
