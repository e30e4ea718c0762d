-- ===== src/Indexer/Upserts.antt =====
-- What the documents of a run leave in the tables, where it gets through them and where it stops.
use homelab_apps.Prelude.{
  ℕ, ◌≡◌, refl, ◌∙◌, ◌⊎◌, inl, inr, Bool, true, false, not, ◌&&◌, Option, none, some, List, [], ◌∷◌,
  arith, if◌then◌else◌, Bool-cases, is_some, first_of,
}
use homelab_apps.Prelude.Text.{Units, units_eq, units_eq_refl}
use homelab_apps.Miot.Error.{Thrown, Attempt, returned, threw}
use homelab_apps.Indexer.Tables.{Document, Chunk, Row, Store, upsert}
use homelab_apps.Indexer.{
  SourceDocument, IndexConfig, Run, Act, ◌>>=◌, ◌>>◌, point, next_stop, statement, upsert_each,
  count_change,
}
use homelab_apps.Indexer.Documents.{Stored, view, new_hashes, upsert-Written}

pub stop-cases :
    (stops : List (Option Thrown))
    → ((later : List (Option Thrown)) × (next_stop stops ≡ (returned tt, later)))
      ⊎ ((e : Thrown) × (later : List (Option Thrown)) × (next_stop stops ≡ (threw e, later)))
stop-cases [] = inl ([], refl)
stop-cases (none ∷ later) = inl (later, refl)
stop-cases (some e ∷ later) = inr (e, later, refl)

-- One relation if it returned, another one if it threw.
abbrev pub Ends : {A : Type 0} → (Run → Type 0) → (Run → Type 0) → Attempt A × Run → Type 0
Ends ok bad (returned a, s) = ok s
Ends ok bad (threw e, s) = bad s

pub Ends-mono :
    {A : Type 0} (ok bad ok' bad' : Run → Type 0) (x : Attempt A × Run)
    → ((s : Run) → ok s → ok' s)
    → ((s : Run) → bad s → bad' s)
    → Ends ok bad x
    → Ends ok' bad' x
Ends-mono ok bad ok' bad' (returned a, s) f g h = f s h
Ends-mono ok bad ok' bad' (threw e, s) f g h = g s h

first_of_left : {A : Type 0} (x y : Option A) → is_some x ≡ true → is_some (first_of x y) ≡ true
first_of_left none y h = cc
first_of_left (some a) y h = refl

first_of_right : {A : Type 0} (x y : Option A) → is_some y ≡ true → is_some (first_of x y) ≡ true
first_of_right none y h = h
first_of_right (some a) y h = refl

pub point-Ends :
    {A : Type 0} (ok bad : Run → Type 0) (k : Act A) (s : Run)
    → ((stops : List (Option Thrown)) → bad (record s { stops = stops }))
    → ((stops : List (Option Thrown)) → Ends ok bad (k (record s { stops = stops })))
    → Ends ok bad ((point >> k) s)
unfolding point
point-Ends ok bad k s stopped on = elim (stop-cases s.stops) [
  | inl (stops, e) ↦ rw (e, point) (on stops)
  | inr (f, stops, e) ↦ rw (e, point) (stopped stops)
]

pub statement-Ends :
    {A B : Type 0} (ok bad : Run → Type 0) (f : Store → B × Store) (k : B → Act A) (s : Run)
    → ((stops : List (Option Thrown)) → bad (record s { stops = stops }))
    → ((stops : List (Option Thrown))
        → Ends ok bad (k (f s.store).0 (record s { store = (f s.store).1; stops = stops })))
    → Ends ok bad ((statement f >>= k) s)
unfolding statement point
statement-Ends ok bad f k s stopped on = elim (stop-cases s.stops) [
  | inl (stops, e) ↦ rw (e, statement, point) (on stops)
  | inr (g, stops, e) ↦ rw (e, statement, point) (stopped stops)
]

module _ (chunk_of : Document → List Chunk) (config : IndexConfig) where
  -- What the documents of a source ask to be stored under an id: the last of them with it, with the chunks
  -- that it is cut into, those with a NUL byte left out.
  abbrev pub last_upsert : Units → List SourceDocument → Option Stored
  last_upsert id [] = none
  last_upsert id (d ∷ documents) = first_of (last_upsert id documents) (
      if not d.holds_nul && units_eq d.document.external_id id
      then some (d.document, new_hashes (chunk_of d.document))
      else none)

  abbrev pub own : Units → Run → Option Stored
  own id s = view config.kb id s.store.rows

  -- All of the documents are stored, and nothing else has changed.
  pub record Reached (documents : List SourceDocument) (s s' : Run) : Type 0 where
    pub rows : (id : Units) → own id s' ≡ first_of (last_upsert id documents) (own id s)
    pub others :
        (kb id : Units)
        → units_eq config.kb kb ≡ false
        → view kb id s'.store.rows ≡ view kb id s.store.rows
    pub cursor : s'.cursor ≡ s.cursor

  -- Only ids of the documents have changed.
  pub record Between (documents : List SourceDocument) (s s' : Run) : Type 0 where
    pub rows : (id : Units) → (own id s' ≡ own id s) ⊎ (is_some (last_upsert id documents) ≡ true)
    pub others :
        (kb id : Units)
        → units_eq config.kb kb ≡ false
        → view kb id s'.store.rows ≡ view kb id s.store.rows
    pub cursor : s'.cursor ≡ s.cursor

  skip-Ends :
      (d : SourceDocument) (documents : List SourceDocument) (s : Run)
      (stops : List (Option Thrown)) (x : Attempt (ℕ × ℕ) × Run)
      → d.holds_nul ≡ true
      → Ends
          (Reached documents (record s { stops = stops }))
          (Between documents (record s { stops = stops }))
          x
      → Ends (Reached (d ∷ documents) s) (Between (d ∷ documents) s) x
  skip-Ends d documents s stops x nul =
      Ends-mono _ _ _ _ x
        (λ s' r. record {
          rows = λ id. r.rows id ∙ skipped id (own id s);
          others = r.others;
          cursor = r.cursor;
        })
        (λ s' b. record {
          rows = λ id. elim (b.rows id) [
            | inl same ↦ inl same
            | inr some_one ↦ inr (first_of_left _ _ some_one)
          ];
          others = b.others;
          cursor = b.cursor;
        })
    where
      skipped :
          (id : Units) (old : Option Stored)
          → first_of (last_upsert id documents) old ≡ first_of (last_upsert id (d ∷ documents)) old
      skipped id old = ground arith

  stored-Ends :
      (d : SourceDocument) (documents : List SourceDocument) (s : Run)
      (stops : List (Option Thrown)) (x : Attempt (ℕ × ℕ) × Run)
      → d.holds_nul ≡ false
      → let s' : Run = record s {
        store = (upsert config.kb d.document (chunk_of d.document) s.store).1;
        stops = stops;
      } in
        Ends (Reached documents s') (Between documents s') x
        → Ends (Reached (d ∷ documents) s) (Between (d ∷ documents) s) x
  stored-Ends d documents s stops x fine =
      Ends-mono _ _ _ _ x
        (λ s' r. record {
          rows = λ id. r.rows id ∙ written id;
          others = λ kb id other. r.others kb id other ∙ untouched kb id other;
          cursor = r.cursor;
        })
        (λ s' b. record {
          rows = λ id. between id s' (b.rows id);
          others = λ kb id other. b.others kb id other ∙ untouched kb id other;
          cursor = b.cursor;
        })
    where
      after : List Row
      after = (upsert config.kb d.document (chunk_of d.document) s.store).1.rows

      untouched :
          (kb id : Units)
          → units_eq config.kb kb ≡ false
          → view kb id after ≡ view kb id s.store.rows
      untouched kb id other =
          ground (arith, upsert-Written config.kb d.document (chunk_of d.document) kb id s.store)

      written :
          (id : Units)
          → first_of (last_upsert id documents) (view config.kb id after)
            ≡ first_of (last_upsert id (d ∷ documents)) (own id s)
      written id = ground (
        arith,
        units_eq_refl config.kb,
        upsert-Written config.kb d.document (chunk_of d.document) config.kb id s.store,
      )

      between :
          (id : Units) (s' : Run)
          → (own id s' ≡ view config.kb id after) ⊎ (is_some (last_upsert id documents) ≡ true)
          → (own id s' ≡ own id s) ⊎ (is_some (last_upsert id (d ∷ documents)) ≡ true)
      between id s' (inr some_one) = inr (first_of_left _ _ some_one)
      between id s' (inl same) = elim (Bool-cases (units_eq d.document.external_id id)) [
        | inl this ↦ inr (first_of_right (last_upsert id documents) _ (rw (fine, this) refl))
        | inr other ↦ inl (
            same
            ∙ ground (
              arith,
              upsert-Written config.kb d.document (chunk_of d.document) config.kb id s.store,
            ))
      ]

  same-Between :
      (documents : List SourceDocument) (s : Run) (stops : List (Option Thrown))
      → Between documents s (record s { stops = stops })
  same-Between documents s stops = record {
    rows = λ id. inl refl;
    others = λ kb id other. refl;
    cursor = refl;
  }

  pub upsert_each-Ends :
      (documents : List SourceDocument) (counts : ℕ × ℕ) (s : Run)
      → Ends
          (Reached documents s)
          (Between documents s)
          (upsert_each chunk_of config documents counts s)
  unfolding upsert_each
  upsert_each-Ends [] counts s = record {
    rows = λ id. refl;
    others = λ kb id other. refl;
    cursor = refl;
  }
  upsert_each-Ends (d ∷ documents) counts s =
      let next : Bool → Act (ℕ × ℕ) = λ nul. elim nul [
        | true ↦ upsert_each chunk_of config documents counts
        | false ↦ statement (upsert config.kb d.document (chunk_of d.document)) >>= λ change.
            upsert_each chunk_of config documents (count_change chunk_of config change counts)
      ] in
      point-Ends (Reached (d ∷ documents) s) (Between (d ∷ documents) s) (next d.holds_nul) s
        (same-Between (d ∷ documents) s)
        (λ stops.
          elim d.holds_nul
              as (λ b.
                d.holds_nul ≡ b
                → Ends (Reached (d ∷ documents) s) (Between (d ∷ documents) s)
                    (next b (record s { stops = stops }))) [
                      | true ↦ (λ nul.
                          skip-Ends d documents s stops _ nul
                            (upsert_each-Ends documents counts (record s { stops = stops })))
                      | false ↦ (λ fine.
                          statement-Ends (Reached (d ∷ documents) s) (Between (d ∷ documents) s)
                            (upsert config.kb d.document (chunk_of d.document)) _
                            (record s { stops = stops }) (same-Between (d ∷ documents) s)
                            (λ later.
                              stored-Ends d documents s later _ fine
                                (upsert_each-Ends documents _ _)))
                    ]
            refl)
