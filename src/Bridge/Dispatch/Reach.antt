-- ===== src/Bridge/Dispatch/Reach.antt =====
-- The histories of the queue of notifications: its handlers in any order, at instants that do not go
-- back, a timer not before it is due.
use homelab_apps.Prelude.{◌≡◌, ◌≤◌, ℕ, List, [], ◌∷◌, some}
use homelab_apps.Bridge.Dispatch.{
  Dispatcher, Observation, Settings, receive, publish_next, on_connect, on_close, on_destroy,
  new_dispatcher, ℕ, List, Bool, [],
}
use homelab_apps.Prelude.{ℕ, List, Bool, [], ◌≤◌, ◌∷◌}

-- `Reach s now seen d`: `d` after a history whose last handler ran at `now`, and which observed `seen`,
-- the newest first.
pub data Reach {C V : Type 0} (s : Settings)
    : ℕ → List (Observation V) → Dispatcher C V → Type 0 where
  boot : (now : ℕ) (connected : Bool) → Reach s now [] (new_dispatcher s connected)
  received :
      {t : ℕ} {seen : List (Observation V)} {d : Dispatcher C V} (now : ℕ) (context : C)
      (event : Observation V)
      → Reach s t seen d
      → t ≤ now
      → Reach s now (event ∷ seen) (receive s now context event d)
  fired :
      {t : ℕ} {seen : List (Observation V)} {d : Dispatcher C V} (now due : ℕ)
      → Reach s t seen d
      → t ≤ now
      → d.timer ≡ some due
      → due ≤ now
      → Reach s now seen (publish_next s now d)
  connected :
      {t : ℕ} {seen : List (Observation V)} {d : Dispatcher C V} (now : ℕ)
      → Reach s t seen d
      → t ≤ now
      → Reach s now seen (on_connect s now d)
  closed :
      {t : ℕ} {seen : List (Observation V)} {d : Dispatcher C V} (now : ℕ)
      → Reach s t seen d
      → t ≤ now
      → Reach s now seen (on_close d)
  destroyed :
      {t : ℕ} {seen : List (Observation V)} {d : Dispatcher C V} (now : ℕ)
      → Reach s t seen d
      → t ≤ now
      → Reach s now seen (on_destroy d)
