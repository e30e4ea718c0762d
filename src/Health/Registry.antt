-- ===== src/Health/Registry.antt =====
-- The evaluation of the registered checks: what one check's outcome becomes, and the cache and the
-- single flight around a pass over all of them (packages/health/src/HealthRegistry.ts).
-- `Promise.race` is given as its outcome; the instants are those of `performance.now()` in ms.
pub mod Flight
pub mod Passes
use homelab_apps.Prelude.{
  ℕ, suc, ◌+◌, Bool, true, Option, none, some, List, [], ◌∷◌, if◌then◌else◌, ltb, leb, length, take,
  ◌++◌,
}
use homelab_apps.Prelude.Text.{Units, units, units_eq}
use homelab_apps.Health.Report.{
  HealthCheckResult, EvaluatedCheck, HealthReport, fail, is_ready, build_report,
}

-- MAX_DETAIL_LENGTH
abbrev pub max_detail_length : ℕ
max_detail_length = 120

-- The two members of HealthCheck that are data.
pub record HealthCheck : Type 0 where
  pub name : Units
  pub critical : Bool

-- HealthConfig after parsing
pub record HealthConfig : Type 0 where
  pub cache_ttl_ms : ℕ
  pub expose_detail : Bool

-- What a check threw: whether it is an Error, its name where that is a string, and its message.
pub record ThrownValue : Type 0 where
  pub is_error : Bool
  pub name : Option Units
  pub message : Units

-- How the race of a check and its deadline ends.
pub data Outcome : Type 0 where
  answered : HealthCheckResult → Outcome
  threw : ThrownValue → Outcome
  timed_out : Outcome

-- HealthEvaluation
pub record HealthEvaluation : Type 0 where
  pub ready : Bool
  pub evaluated : List EvaluatedCheck

-- truncate
unfoldable pub truncate : Units → Units
truncate detail =
    if leb (length detail) max_detail_length then detail else take max_detail_length detail

unfoldable pub truncate_detail : Option Units → Option Units
truncate_detail none = none
truncate_detail (some detail) = some (truncate detail)

-- sanitise
unfoldable pub sanitise : HealthCheckResult → HealthCheckResult
unfolding truncate_detail
sanitise r = record {
  status = r.status;
  detail = truncate_detail r.detail;
  observed_value = r.observed_value;
}

-- `error instanceof Error && typeof error.name === 'string' && error.name !== '' ? error.name : 'Error'`
unfoldable pub error_name : Bool → Option Units → Units
error_name true (some name) = if units_eq name [] then units "Error" else name
error_name _ _ = units "Error"

unfoldable pub failed : Units → HealthCheckResult
failed detail = record { status = fail; detail = some detail; observed_value = none }

-- the result of runOne; the deadline resolves to a `fail`, which is sanitised as an answer is
unfoldable pub result_of : Outcome → HealthCheckResult
unfolding failed
result_of (answered r) = sanitise r
result_of (threw error) = failed (truncate (error_name error.is_error error.name))
result_of timed_out = sanitise (failed (units "timeout"))

-- runOne
unfoldable pub run_one : HealthCheck → Outcome → EvaluatedCheck
run_one check outcome = record {
  name = check.name;
  critical = check.critical;
  result = result_of outcome;
}

-- `Promise.all` over the checks; the outcomes are numbered as the checks are.
unfoldable pub run_checks : List HealthCheck → ℕ → (ℕ → Outcome) → List EvaluatedCheck
run_checks [] i outcomes = []
run_checks (check ∷ checks) i outcomes =
    run_one check (outcomes i) ∷ run_checks checks (suc i) outcomes

-- runAll
unfoldable pub run_all : List HealthCheck → (ℕ → Outcome) → HealthEvaluation
run_all checks outcomes =
    let evaluated = run_checks checks 0 outcomes in
    record { ready = is_ready evaluated; evaluated = evaluated }

-- The member `inFlight`: absent, a pass that runs, or a pass that is settled and not yet taken away
-- (its `finally` runs after its `then`).
pub data InFlight : Type 0 where
  absent running : InFlight
  settled : HealthEvaluation → InFlight

pub record Registry : Type 0 where
  pub in_flight : InFlight
  pub cached : Option (ℕ × HealthEvaluation)

-- The constructor
unfoldable pub new_registry : Registry
new_registry = record { in_flight = absent; cached = none }

-- What happens to a registry: a caller of evaluate, the end of the pass in flight, its `finally`.
pub data RegistryEvent : Type 0 where
  evaluates : (now : ℕ) → RegistryEvent
  settles : (outcomes : ℕ → Outcome) (at : ℕ) → RegistryEvent
  releases : RegistryEvent

-- What comes of it: a caller has a value at once, waits for the pass in flight or starts one, or a
-- pass delivers its value to those who wait.
pub data Response : Type 0 where
  returns : HealthEvaluation → Response
  joins starts : Response
  delivers : HealthEvaluation → Response

-- `this.cached && now - this.cached.at < this.config.cacheTtlMs`
unfoldable pub recent : HealthConfig → ℕ → Option (ℕ × HealthEvaluation) → Option HealthEvaluation
recent config now none = none
recent config now (some (at, value)) =
    if ltb now (at + config.cache_ttl_ms) then some value else none

-- `this.inFlight ??= this.runAll()…`
unfoldable pub join_or_start : InFlight → Registry → Registry × List Response
join_or_start absent registry =
    (record { in_flight = running; cached = registry.cached }, starts ∷ [])
join_or_start running registry = (registry, joins ∷ [])
join_or_start (settled value) registry = (registry, returns value ∷ [])

-- evaluate
unfoldable pub evaluate : Option HealthEvaluation → Registry → Registry × List Response
evaluate (some value) registry = (registry, returns value ∷ [])
evaluate none registry = join_or_start registry.in_flight registry

-- the `then` of the pass: the value is cached and delivered
unfoldable pub settle : HealthEvaluation → ℕ → InFlight → Registry → Registry × List Response
settle value at running registry =
    (record { in_flight = settled value; cached = some (at, value) }, delivers value ∷ [])
settle value at _ registry = (registry, [])

-- its `finally`: `this.inFlight = undefined`
unfoldable pub release : InFlight → Registry → Registry × List Response
release (settled value) registry = (record { in_flight = absent; cached = registry.cached }, [])
release _ registry = (registry, [])

unfoldable pub react :
    HealthConfig → List HealthCheck → RegistryEvent → Registry → Registry × List Response
react config checks (evaluates now) registry = evaluate (recent config now registry.cached) registry
react config checks (settles outcomes at) registry =
    settle (run_all checks outcomes) at registry.in_flight registry
react config checks releases registry = release registry.in_flight registry

-- The events in their order, with all that comes of them.
unfoldable pub respond :
    HealthConfig → List HealthCheck → List RegistryEvent → Registry → Registry × List Response
respond config checks [] registry = (registry, [])
respond config checks (event ∷ events) registry =
    let (next, now) = react config checks event registry in
    let (last, later) = respond config checks events next in (last, now ++ later)

-- report, of the value that its evaluate comes to
unfoldable pub report : HealthConfig → HealthEvaluation → HealthReport
report config value = build_report value.evaluated config.expose_detail
