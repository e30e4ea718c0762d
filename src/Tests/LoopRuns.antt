-- ===== src/Tests/LoopRuns.antt =====
-- Runs of the loop over knowledge bases on concrete inputs.
use homelab_apps.Prelude.{
  ◌≡◌, refl, inr, true, false, Option, none, some, List, [], ◌∷◌, if◌then◌else◌,
}
use homelab_apps.Miot.Error.{Attempt, returned, plain_error}
use homelab_apps.Indexer.{SourceChanges, index}
use homelab_apps.Indexing.{RunRequest}
use homelab_apps.Indexing.Run.{never, success, failure, Told, skipped, KnowledgeBase, World, run}
use homelab_apps.Indexing.Isolation.{Same, run-Same}
use homelab_apps.Prelude.Text.{units_eq, units, Units}

abbrev nothing_new : Option Units → SourceChanges
nothing_new cursor = record { upserts = []; deletes = []; cursor = units "2"; complete = false }

abbrev base : Units → KnowledgeBase
base id = record {
  config = record {
    kb = id;
    models = [];
    full = false;
    manual = false;
    batch_size = 2;
    max_scheduled_embeddings = 100;
  };
  chunk_of = λ document. [];
  source = nothing_new;
}

abbrev bases : List KnowledgeBase
bases = base (units "home") ∷ base (units "work") ∷ base (units "new") ∷ []

-- `new` has no cursor yet; the source of `home` fails.
abbrev before : World
before = record {
  store = record { rows = []; next_id = 1; vectors = [] };
  cursors = λ id. if units_eq id (units "new") then none else some (units "1");
  last_runs = λ id. never;
  items = [];
  stops = none ∷ none ∷ none ∷ some (plain_error "down") ∷ [];
  embeds = [];
  aborts = [];
}

abbrev scheduled : RunRequest
scheduled = record {
  knowledge_bases = units "home" ∷ units "work" ∷ units "new" ∷ [];
  full = false;
  manual = false;
}

abbrev ended : List Told × Attempt (Unit {0}) × World
ended = run scheduled bases (returned true) before

-- One knowledge base that fails does not fail the next one.
both_ended :
    (ended.2.last_runs (units "home") ≡ failure (plain_error "down"))
    × (ended.2.last_runs (units "work") ≡ success)
    × (ended.2.cursors (units "work") ≡ some (units "2"))
    × (ended.2.items ≡ false ∷ true ∷ [])
unfolding run index
both_ended = (refl, refl, refl, refl)

lock_taken : (run scheduled bases (returned false) before).0 ≡ skipped ∷ []
unfolding run
lock_taken = refl

run-Same_example : Same scheduled (units "new") before ended.2
run-Same_example = run-Same scheduled (units "new") before bases (returned true) (inr (refl, refl))
