-- ===== src/Tests/Polling.antt =====
-- The poller at work on two devices: changes that are dispatched, a property that is unsubscribed, and a
-- device that is paused.
use homelab_apps.Prelude.{ℕ, ◌≡◌, refl, true, none, some, List, [], ◌∷◌, leb, arith}
use homelab_apps.Prelude.Int.{pos, negsuc}
use homelab_apps.Prelude.Text.{Units, units}
use homelab_apps.Poller.{
  number, PropertyResult, PollingConfig, Poller, cache_key, remove_subscription, due_devices,
  take_results, fail_read,
}
use homelab_apps.Poller.Changes.{
  events_of, Chained, take_results-Chained, remove_subscription-silent,
}
use homelab_apps.Poller.Backoff.{is_due, after_ticks, fail_read-pauses}

abbrev config : PollingConfig
config = record {
  enabled = true;
  dispatch_on_change = true;
  max_error_count = 3;
  error_skip_cycles = 20;
}

abbrev vacuum : Units
vacuum = units "vacuum"

abbrev status : Units
status = units "status"

abbrev poller : Poller
poller = record {
  subscriptions = (vacuum, status ∷ units "battery" ∷ []) ∷ (units "lamp", status ∷ []) ∷ [];
  last_values = λ k. none;
  error_counts = λ d. some 2;
  skip_cycles = λ d. 0;
}

abbrev item : ℕ → PropertyResult
item n = record {
  key = status;
  value = some (number (record { digits = pos n; places = 0 }));
  code = pos 0;
}

-- Two reads that agree, a third that differs, and a refusal.
abbrev reads : List PropertyResult
reads = item 1 ∷ item 1 ∷ item 2 ∷ record { key = status; value = none; code = negsuc 4003 } ∷ []

take_results-Chained_example :
    Chained
      (poller.last_values (cache_key vacuum status))
      (events_of status (take_results config vacuum reads poller).0)
take_results-Chained_example = take_results-Chained config refl vacuum status reads poller

remove_subscription-silent_example :
    events_of status (take_results config vacuum reads (remove_subscription vacuum status poller)).0
    ≡ []
remove_subscription-silent_example = remove_subscription-silent config vacuum status reads poller

fail_read-pauses_example :
    (is_due vacuum (due_devices (after_ticks 19 (fail_read config vacuum poller))).0
      ≡ leb config.error_skip_cycles 19)
    × ((fail_read config vacuum poller).error_counts vacuum ≡ none)
fail_read-pauses_example =
    fail_read-pauses config vacuum 19 poller (refl, (refl, tt)) refl (omega arith)
