-- ===== src/Indexer/Stages.antt =====
-- The stages of a run of the indexer over the changes of its source, and what holds where it ends
-- (index of apis/knowledge-base-api/src/services/IndexerService.ts).
use homelab_apps.Prelude.{
  ℕ, ◌≡◌, refl, sym, Bool, true, [], ◌∷◌, ap, ◌∙◌, inl, inr, false, Option, List, arith,
  if◌then◌else◌,
}
use mathlib.Core.Path.{subst}
use homelab_apps.Prelude.Text.{Units, units_eq, contains}
use homelab_apps.Miot.Error.{Thrown, Attempt, returned, threw}
use homelab_apps.Indexer.Tables.{Document, Chunk, Store, delete, delete_all_except}
use homelab_apps.Indexer.{
  SourceChanges, IndexConfig, Run, Act, continue, point, statement, upsert_each, copy_each,
  only_gone, delete_gone, delete_named, delete_all_or_named, set_cursor, finish, take_changes,
}
use homelab_apps.Indexer.Documents.{view}
use homelab_apps.Indexer.Upserts.{
  own, Reached, Between, Ends, Ends-mono, point-Ends, upsert_each-Ends,
}
use homelab_apps.Indexer.Calm.{Unmoved, point-Calm, copy_each-Calm, finish-Calm}
use homelab_apps.Indexer.Target.{
  target, target_again, view-delete, contains-only_gone, Indexed, Stopped, Between-Behind,
  Reached-Behind, deleted-rows, ids,
}

continue-Ends :
    {A B : Type 0} (ok bad ok' bad' : Run → Type 0) (x : Attempt A × Run) (f : A → Act B)
    → Ends ok bad x
    → ((s : Run) → bad s → bad' s)
    → ((a : A) (s : Run) → ok s → Ends ok' bad' (f a s))
    → Ends ok' bad' (continue x.0 f x.1)
continue-Ends ok bad ok' bad' (returned a, s) f h stop on = on a s h
continue-Ends ok bad ok' bad' (threw e, s) f h stop on = stop s h

calm-Ends : {A : Type 0} (P : Run → Type 0) (x : Attempt A × Run) → P x.1 → Ends P P x
calm-Ends P (returned a, s) h = h
calm-Ends P (threw e, s) h = h

statement_alone :
    {B : Type 0} (ok bad : Run → Type 0) (f : Store → B × Store) (a : Run)
    → ((stops : List (Option Thrown)) → bad (record a { stops = stops }))
    → ((stops : List (Option Thrown)) → ok (record a { store = (f a.store).1; stops = stops }))
    → Ends ok bad (statement f a)
unfolding statement
statement_alone ok bad f a stopped on = point-Ends ok bad _ a stopped on

module _ (chunk_of : Document → List Chunk) (config : IndexConfig) (changes : SourceChanges)
    (s : Run) where
  abbrev AllStored : Run → Type 0
  AllStored = Reached chunk_of config changes.upserts s

  abbrev pub Done : Run → Type 0
  Done = Indexed chunk_of config changes s

  abbrev pub Halted : Run → Type 0
  Halted = Stopped chunk_of config changes s

  -- The documents are as they are to be, and the cursor is not stored yet.
  record Cleared (s' : Run) : Type 0 where
    rows :
        (id : Units)
        → own chunk_of config id s' ≡ target chunk_of config changes (own chunk_of config id s) id
    others :
        (kb id : Units)
        → units_eq config.kb kb ≡ false
        → view kb id s'.store.rows ≡ view kb id s.store.rows
    cursor : s'.cursor ≡ s.cursor

  AllStored-move : (a b : Run) → Unmoved a b → AllStored a → AllStored b
  AllStored-move a b u r = record {
    rows = λ id. ap (view config.kb id) u.rows ∙ r.rows id;
    others = λ kb id other. ap (view kb id) u.rows ∙ r.others kb id other;
    cursor = u.cursor ∙ r.cursor;
  }

  Done-move : (a b : Run) → Unmoved a b → Done a → Done b
  Done-move a b u r = record {
    rows = λ id. ap (view config.kb id) u.rows ∙ r.rows id;
    others = λ kb id other. ap (view kb id) u.rows ∙ r.others kb id other;
    cursor = u.cursor ∙ r.cursor;
  }

  Cleared-Halted : (a : Run) → Cleared a → Halted a
  Cleared-Halted a c = inl (record {
    rows = λ id.
        ap (λ old. target chunk_of config changes old id) (c.rows id)
        ∙ target_again chunk_of config changes (own chunk_of config id s) id;
    others = c.others;
    cursor = c.cursor;
  })

  AllStored-Halted : (a : Run) → AllStored a → Halted a
  AllStored-Halted a r = inl (Reached-Behind chunk_of config changes s a r)

  abbrev listed : List Units
  listed = ids chunk_of config changes

  abbrev named : List Units
  named = only_gone chunk_of config listed changes.deletes

  abbrev deletion : Bool → Store → ℕ × Store
  deletion complete =
      if complete then delete_all_except config.kb listed else delete config.kb named

  deletion-Cleared :
      (complete : Bool) (a : Run) (stops : List (Option Thrown))
      → changes.complete ≡ complete
      → AllStored a
      → Cleared (record a { store = (deletion complete a.store).1; stops = stops })
  deletion-Cleared complete a stops e r = record {
    rows = λ id.
        view-delete chunk_of config complete listed changes.deletes a.store config.kb id
        ∙ rw (sym e) (deleted-rows chunk_of config changes s a id r);
    others = λ kb id other. ground (
      arith,
      r.others kb id other,
      view-delete chunk_of config complete listed changes.deletes a.store kb id,
    );
    cursor = r.cursor;
  }

  -- Where no document is to go, all are as they are to be.
  none_named-Cleared : (a : Run) → changes.complete ≡ false → named ≡ [] → AllStored a → Cleared a
  none_named-Cleared a e none_named r = record {
    rows = λ id. ground (
      arith,
      deleted-rows chunk_of config changes s a id r,
      contains-only_gone chunk_of config listed changes.deletes id,
      ap (λ gone. contains gone id) none_named,
    );
    others = r.others;
    cursor = r.cursor;
  }

  finish-Ends :
      (counts : ℕ × ℕ) (deleted : ℕ) (copied : List (Units × ℕ)) (a : Run)
      → Done a
      → Ends Done Halted (finish chunk_of config changes counts deleted copied a)
  finish-Ends counts deleted copied a d =
      Ends-mono Done Done Done Halted _ (λ b h. h) (λ b h. inr h)
        (calm-Ends Done (finish chunk_of config changes counts deleted copied a)
          (Done-move a _ (finish-Calm chunk_of config changes counts deleted copied a) d))

  set_cursor-Ends :
      (a : Run) → Cleared a → Ends Done Cleared (set_cursor chunk_of config changes.cursor a)
  unfolding set_cursor
  set_cursor-Ends a c =
      point-Ends Done Cleared _ a
        (λ stops. record { rows = c.rows; others = c.others; cursor = c.cursor })
        (λ stops. record { rows = c.rows; others = c.others; cursor = refl })

  AllStored-stopped :
      (a : Run) (stops : List (Option Thrown))
      → AllStored a
      → AllStored (record a { stops = stops })
  AllStored-stopped a stops r = AllStored-move a _ (record { rows = refl; cursor = refl }) r

  delete_named-Ends :
      (a : Run) (gone : List Units)
      → changes.complete ≡ false
      → named ≡ gone
      → AllStored a
      → Ends Cleared AllStored (delete_named chunk_of config gone a)
  unfolding delete_named
  delete_named-Ends a [] e none_named r = none_named-Cleared a e none_named r
  delete_named-Ends a (id ∷ gone) e some_named r =
      statement_alone Cleared AllStored _ a (λ stops. AllStored-stopped a stops r)
        (λ stops.
          subst
            (λ (gone : List Units).
              Cleared (record a { store = (delete config.kb gone a.store).1; stops = stops }))
            some_named (deletion-Cleared false a stops e r))

  delete_all_or_named-Ends :
      (complete : Bool) (a : Run)
      → changes.complete ≡ complete
      → AllStored a
      → Ends Cleared AllStored
          (delete_all_or_named chunk_of config complete listed changes.deletes a)
  unfolding delete_all_or_named
  delete_all_or_named-Ends true a e r =
      statement_alone Cleared AllStored (deletion true) a (λ stops. AllStored-stopped a stops r)
        (λ stops. deletion-Cleared true a stops e r)
  delete_all_or_named-Ends false a e r = delete_named-Ends a named e refl r

  delete_gone-Ends :
      (a : Run) → AllStored a → Ends Cleared AllStored (delete_gone chunk_of config changes a)
  unfolding delete_gone
  delete_gone-Ends a r = delete_all_or_named-Ends changes.complete a refl r

  upserts-Ends :
      Ends AllStored
        (Between chunk_of config changes.upserts s)
        (upsert_each chunk_of config changes.upserts (0, 0) s)
  upserts-Ends = upsert_each-Ends chunk_of config changes.upserts (0, 0) s

  -- A run over the changes that returns has stored them, and one that throws has stored them or is behind.
  pub take_changes-Ends : Ends Done Halted (take_changes chunk_of config changes s)
  unfolding take_changes
  take_changes-Ends =
      continue-Ends AllStored (Between chunk_of config changes.upserts s) Done Halted
        (upsert_each chunk_of config changes.upserts (0, 0) s) _ upserts-Ends
        (λ a b. inl (Between-Behind chunk_of config changes s a b))
        (λ counts a r.
          continue-Ends AllStored AllStored Done Halted
            (copy_each chunk_of config config.models [] a) _
            (calm-Ends AllStored _
              (AllStored-move a _ (copy_each-Calm chunk_of config config.models [] a) r))
            AllStored-Halted
            (λ copied b r.
              continue-Ends AllStored AllStored Done Halted (point b) _
                (calm-Ends AllStored (point b) (AllStored-move b _ (point-Calm b) r))
                AllStored-Halted
                (λ looked c r.
                  continue-Ends Cleared AllStored Done Halted
                    (delete_gone chunk_of config changes c) _ (delete_gone-Ends c r)
                    AllStored-Halted
                    (λ deleted d r.
                      continue-Ends Done Cleared Done Halted
                        (set_cursor chunk_of config changes.cursor d) _ (set_cursor-Ends d r)
                        Cleared-Halted (λ stored e r. finish-Ends counts deleted copied e r)))))
