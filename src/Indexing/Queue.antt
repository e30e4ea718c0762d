-- ===== src/Indexing/Queue.antt =====
-- What the run behind a queue of requests covers
-- (apis/knowledge-base-api/src/services/IndexingLoopService.ts).
use homelab_apps.Prelude.{
  ◌<◌, ◌≡◌, refl, Bool, true, false, not, ◌&&◌, ◌||◌, List, [], ◌∷◌, ◌++◌, Option, none, some,
  arith, ltb,
}
use homelab_apps.Prelude.Text.{Units, contains, units_eq, eq_of_units_eq}
use homelab_apps.Indexing.{
  RunRequest, IndexerConfig, Loop, LoopEvent, run_over, triggered, begins, distinct, merge, start,
  trigger, start_next, after_run, on_event, on_events,
}

contains-append :
    (a b : List Units) (k : Units) → contains (a ++ b) k ≡ (contains a k || contains b k)
contains-append [] b k = ground arith
contains-append (x ∷ a) b k = ground (arith, contains-append a b k)

contains-same :
    (seen : List Units) (id k : Units) → units_eq id k ≡ true → contains seen id ≡ contains seen k
contains-same seen id k same = rw (eq_of_units_eq id k same) refl

-- A set of ids has the ids of the list, but for those it is to leave out.
contains-distinct :
    (seen ids : List Units) (k : Units)
    → contains (distinct seen ids) k ≡ (contains ids k && not (contains seen k))
unfolding distinct
contains-distinct seen [] k = refl
contains-distinct seen (id ∷ ids) k =
    ground (arith, contains-distinct (id ∷ seen) ids k, contains-same seen id k)

-- Whether one of the requests asks for a knowledge base, for everything, or by hand.
abbrev pub any_asks : Units → List RunRequest → Bool
any_asks k [] = false
any_asks k (r ∷ rs) = contains r.knowledge_bases k || any_asks k rs

abbrev pub any_full : List RunRequest → Bool
any_full [] = false
any_full (r ∷ rs) = r.full || any_full rs

abbrev pub any_manual : List RunRequest → Bool
any_manual [] = false
any_manual (r ∷ rs) = r.manual || any_manual rs

abbrev pub triggers : List RunRequest → List LoopEvent
triggers [] = []
triggers (r ∷ rs) = triggered r ∷ triggers rs

-- The request asks for just what a queued one and these do.
abbrev Merges : Units → RunRequest → List RunRequest → RunRequest → Type 0
Merges k p rs q =
    (contains q.knowledge_bases k ≡ (contains p.knowledge_bases k || any_asks k rs))
    × (q.full ≡ (p.full || any_full rs))
    × (q.manual ≡ (p.manual || any_manual rs))

merge-contains :
    (p r : RunRequest) (k : Units)
    → contains (merge (some p) r).knowledge_bases k
      ≡ (contains p.knowledge_bases k || contains r.knowledge_bases k)
unfolding merge
merge-contains p r k = ground (
  arith,
  contains-distinct [] (p.knowledge_bases ++ r.knowledge_bases) k,
  contains-append p.knowledge_bases r.knowledge_bases k,
)

-- A loop in a run, with a request queued or none.
abbrev pub busy : Option RunRequest → Loop → Loop
busy p l = record l { running = true; pending = p }

Merges-merge :
    (k : Units) (p r : RunRequest) (rs : List RunRequest) (q : RunRequest)
    → Merges k (merge (some p) r) rs q
    → Merges k p (r ∷ rs) q
unfolding merge
Merges-merge k p r rs q (asks, full, manual) =
    (ground (arith, asks, merge-contains p r k), ground (arith, full), ground (arith, manual))

triggers-Merges :
    (config : IndexerConfig) (k : Units) (rs : List RunRequest) (p : RunRequest) (l : Loop)
    → (q : RunRequest) × ((on_events config (triggers rs) (busy (some p) l)).0 ≡ busy (some q) l)
      × Merges k p rs q
unfolding on_events on_event trigger
triggers-Merges config k [] p l = (p, refl, (ground arith, ground arith, ground arith))
triggers-Merges config k (r ∷ rs) p l =
    let (q, same, merges) = triggers-Merges config k rs (merge (some p) r) l in
    (q, same, Merges-merge k p r rs q merges)

-- Requests that come during a run are queued, and when it ends one run begins, which covers a knowledge
-- base just if one of the requests names it, and is full or manual just if one of them is.
pub queue-covered :
    (config : IndexerConfig) (k : Units) (first : RunRequest) (rs : List RunRequest) (l : Loop)
    → 0 < l.runs
    → l.stopped ≡ false
    → (next : RunRequest) × ((on_event config run_over
          (on_events config (triggers (first ∷ rs)) (busy none l)).0).1
        ≡ begins next ∷ [])
      × (contains next.knowledge_bases k ≡ any_asks k (first ∷ rs))
      × (next.full ≡ any_full (first ∷ rs))
      × (next.manual ≡ any_manual (first ∷ rs))
unfolding on_events on_event trigger merge after_run start_next start
queue-covered config k first rs l some_run going =
    let (q, same, (asks, full, manual)) = triggers-Merges config k rs first l in
    let is_run : ltb 0 l.runs ≡ true = ground (arith, some_run) in
    (q, rw same (rw (is_run, going) refl), asks, full, manual)
