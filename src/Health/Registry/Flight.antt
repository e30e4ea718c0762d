-- ===== src/Health/Registry/Flight.antt =====
-- What callers of the registry are given, whatever the order of its events
-- (packages/health/src/HealthRegistry.ts).
use homelab_apps.Prelude.{
  ℕ, ◌<◌, ◌⊎◌, Some, ◌+◌, ◌≤◌, ◌≡◌, Option, none, some, List, [], ◌∷◌, length, All,
}
use homelab_apps.Health.Registry.{
  HealthCheck, HealthConfig, Outcome, HealthEvaluation, InFlight, absent, running, settled,
  Registry, RegistryEvent, evaluates, settles, releases, Response, returns, joins, starts, delivers,
}
use homelab_apps.Health.Registry.Passes.{PassOf}

abbrev pub is_running : InFlight → ℕ
is_running running = 1
is_running _ = 0

abbrev pub starts_in : List Response → ℕ
starts_in [] = 0
starts_in (starts ∷ rs) = 1 + starts_in rs
starts_in (_ ∷ rs) = starts_in rs

abbrev pub deliveries_in : List Response → ℕ
deliveries_in [] = 0
deliveries_in (delivers v ∷ rs) = 1 + deliveries_in rs
deliveries_in (_ ∷ rs) = deliveries_in rs

-- When a cached value was stored.
abbrev cached_at : Option (ℕ × HealthEvaluation) → ℕ
cached_at none = 0
cached_at (some (at, v)) = at

module _ (config : HealthConfig) (checks : List HealthCheck) (all : List RegistryEvent) where
  -- The value is that of a pass that ended at this instant, by an event among `all`.
  abbrev pub Ended : HealthEvaluation → ℕ → Type 0
  Ended v at =
      (outcomes : ℕ → Outcome) × Some (λ e. e ≡ settles outcomes at) all × PassOf checks outcomes v

  -- What is cached, and the value of a pass that is not taken away yet, are those of such passes.
  abbrev IsValidCache : Option (ℕ × HealthEvaluation) → Type 0
  IsValidCache none = Unit
  IsValidCache (some (at, v)) = Ended v at

  abbrev IsValidFlight : InFlight → Type 0
  IsValidFlight (settled v) = (at : ℕ) × Ended v at
  IsValidFlight _ = Unit

  abbrev IsValid : Registry → Type 0
  IsValid r = IsValidFlight r.in_flight × IsValidCache r.cached

  -- What a registry whose past events are `all` may answer to the next one. A caller is given a value
  -- only of a pass that ended: one that is not older than the configuration allows, or one that is
  -- settled and not taken away yet; he joins a pass only where one runs, and starts one only where none
  -- does and no cached value is new enough. A pass that ends delivers a value of its own outcomes.
  abbrev pub Answers : Registry → RegistryEvent → Response → Type 0
  Answers r (evaluates now) (returns v) =
      (at : ℕ) × Ended v at × ((now < at + config.cache_ttl_ms) ⊎ (r.in_flight ≡ settled v))
  Answers r (evaluates now) joins = r.in_flight ≡ running
  Answers r (evaluates now) starts =
      (r.in_flight ≡ absent)
      × ((at : ℕ) (v : HealthEvaluation) → r.cached ≡ some (at, v) → at + config.cache_ttl_ms ≤ now)
  Answers r (settles outcomes at) (delivers v) = (r.in_flight ≡ running) × PassOf checks outcomes v
  Answers r event response = ⊥

  -- How many responses an event has: a caller gets one, and so do those who wait for a pass that ends.
  abbrev pub responses : Registry → RegistryEvent → ℕ
  responses r (evaluates now) = 1
  responses r (settles outcomes at) = is_running r.in_flight
  responses r releases = 0

  -- There is no value to return from the cache.
  abbrev Stale : ℕ → Option (ℕ × HealthEvaluation) → Type 0
  Stale now c = (at : ℕ) (v : HealthEvaluation) → c ≡ some (at, v) → at + config.cache_ttl_ms ≤ now

  -- What one reaction keeps: as many passes ended as begun but for the one running.
  abbrev Even : Registry → Registry × List Response → Type 0
  Even before (after, rs) =
      starts_in rs + is_running before.in_flight ≡ deliveries_in rs + is_running after.in_flight

  -- What one reaction is like.
  abbrev Reacts : RegistryEvent → Registry → Registry × List Response → Type 0
  Reacts event before (after, rs) =
      IsValid after
      × All (Answers before event) rs
      × (length rs ≡ responses before event)
      × Even before (after, rs)
