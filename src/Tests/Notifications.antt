-- ===== src/Tests/Notifications.antt =====
-- Runs of the queue of notifications on concrete inputs.
use homelab_apps.Prelude.{ℕ, ◌+◌, ◌≤◌, ◌≡◌, refl, true, some, List, [], ◌∷◌, map, arith}
use homelab_apps.Bridge.Dispatch.{
  Dispatcher, Observation, Settings, interval, receive, publish_next, new_dispatcher,
}
use homelab_apps.Bridge.Dispatch.Reach.{Reach, boot, received, fired}
use homelab_apps.Bridge.Dispatch.Pacing.{Reach-Paced}
use homelab_apps.Bridge.Dispatch.Intervals.{Paced}
use homelab_apps.Bridge.Dispatch.Waiting.{delivered, last_observed}
use homelab_apps.Bridge.Dispatch.Delivery.{Reach-delivered}
use homelab_apps.Bridge.Dispatch.Turn.{Reach-Armed}
use homelab_apps.Prelude.Text.{Units, units}

abbrev settings : Settings
settings = record { enabled = true; publish_interval_ms = some 2500; has_client = true }

abbrev saw : Units → ℕ → Observation ℕ
saw key v = record { miot_device_id = 7; property = key; new_value = v }

abbrev start : Dispatcher (Unit {0}) ℕ
start = new_dispatcher settings true

-- The first goes out at once, the second waits, and the third takes its place.
abbrev history : List (Observation ℕ)
history = saw (units "mode") 3 ∷ saw (units "mode") 2 ∷ saw (units "fan") 1 ∷ []

abbrev busy : Dispatcher (Unit {0}) ℕ
busy = receive settings 110 tt (saw (units "mode") 3) (
    receive settings 105 tt (saw (units "mode") 2)
      (receive settings 100 tt (saw (units "fan") 1) start))

busy-Reach : Reach settings 110 history busy
busy-Reach =
    received 110 tt (saw (units "mode") 3)
      (received 105 tt (saw (units "mode") 2)
        (received 100 tt (saw (units "fan") 1) (boot 90 true) (omega arith)) (omega arith))
      (omega arith)

busy_timer : busy.timer ≡ some 2600
unfolding receive new_dispatcher
busy_timer = refl

idle-Reach : Reach settings 2601 history (publish_next settings 2601 busy)
idle-Reach = fired 2601 2600 busy-Reach (omega arith) busy_timer (omega arith)

idle_sent : map (λ p. p.0) (publish_next settings 2601 busy).sent ≡ 2601 ∷ 100 ∷ []
unfolding publish_next receive new_dispatcher
idle_sent = refl

Reach-Paced_example : Paced (interval settings) (publish_next settings 2601 busy).sent
Reach-Paced_example = Reach-Paced settings (omega arith) idle-Reach

Reach-delivered_example : delivered 7 (units "mode") busy ≡ last_observed 7 (units "mode") history
unfolding receive new_dispatcher
Reach-delivered_example = Reach-delivered settings refl refl 7 (units "mode") busy-Reach refl

Reach-Armed_example : (due : ℕ) × (busy.timer ≡ some due) × (due ≤ 110 + interval settings)
unfolding receive new_dispatcher
Reach-Armed_example = Reach-Armed settings busy-Reach refl refl refl
