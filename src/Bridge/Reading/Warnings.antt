-- ===== src/Bridge/Reading/Warnings.antt =====
-- The one log line for each key that does not resolve, over the life of a process that serves bulk reads
-- and commands (apis/miot-bridge-api/src/services/DeviceCommandService.ts).
use homelab_apps.Prelude.{
  ◌≡◌, refl, sym, ap, ◌∙◌, inl, inr, Bool, true, false, ◌||◌, Option, none, some, List, [], ◌∷◌,
  ◌++◌, map, arith, if◌then◌else◌, Bool-cases, Option-cases,
}
use homelab_apps.Prelude.Int.{eqb_ℤ, pos, ℤ}
use homelab_apps.Prelude.Text.{Units, units_eq, contains, Distinct}
use homelab_apps.Miot.Error.{Attempt}
use homelab_apps.Bridge.Spec.{colon, MiotPropertySource, SimplifiedMiotSpec, map_spec}
use homelab_apps.Bridge.Service.{
  write, act, read_all, DeviceCommandRequest, DeviceCache, Result, ok, err, Instance, Call, Device,
  Effect, called, observed, rejected_locally, unresolved, warned, refused, Service, Storage, Act,
  await, ◌>>=◌, get_or_create, continue, find_instance,
}
use homelab_apps.Bridge.Commands.{
  send_read, send_write, send_action, ResolvedCommand, reading, writing, acting, resolve_command,
  reach, resolve_or_record_rejection, dispatch, execute_on, found_or, execute,
}
use homelab_apps.Bridge.Commands.Outcome.{Result-cases}
use homelab_apps.Bridge.Reading.{
  keyed, status_code, resolve_keys, WantedProperty, KeyedPropertyResult, warn_each,
  report_unresolved_properties, report_rejected_properties, read_wanted, read_resolved,
  get_properties_of, get_properties,
}

-- The device and key of each such line, the newest first.
abbrev pub warned_keys : List Effect → List Units
warned_keys [] = []
warned_keys (warned id key ∷ effects) = colon id key ∷ warned_keys effects
warned_keys (called i c ∷ effects) = warned_keys effects
warned_keys (observed d k v ∷ effects) = warned_keys effects
warned_keys (rejected_locally m ∷ effects) = warned_keys effects
warned_keys (unresolved n ∷ effects) = warned_keys effects
warned_keys (refused k src c ∷ effects) = warned_keys effects

contains-append :
    (xs : List Units) (x k : Units) → contains (xs ++ x ∷ []) k ≡ (units_eq x k || contains xs k)
contains-append [] x k = refl
contains-append (y ∷ xs) x k = ground (arith, contains-append xs x k)

abbrev pub fresh : {W : Type 0} → W → Service W
fresh world = record { registry = []; unresolved_logged = []; world = world; effects = [] }

module _ {W : Type 0} where
  record WarnedOnce (s : Service W) : Type 0 where
    distinct : Distinct (warned_keys s.effects)
    logged : (k : Units) → contains (warned_keys s.effects) k ≡ contains s.unresolved_logged k

  -- An action keeps this, whatever it returns.
  abbrev Keeps : {A : Type 0} → Act W A → Type 0
  Keeps m = (s : Service W) → WarnedOnce s → WarnedOnce (m s).1

  continue-Keeps :
      {A B : Type 0} (r : Result A) (f : A → Act W B)
      → ((a : A) → Keeps (f a))
      → (s : Service W) → WarnedOnce s
      → WarnedOnce (continue r f s).1
  continue-Keeps (ok a) f hf s w = hf a s w
  continue-Keeps (err e) f hf s w = w

  bind-Keeps :
      {A B : Type 0} (m : Act W A) (f : A → Act W B)
      → Keeps m
      → ((a : A) → Keeps (f a))
      → Keeps (m >>= f)
  bind-Keeps m f hm hf s w = continue-Keeps (m s).0 f hf (m s).1 (hm s w)

  found_or-Keeps :
      {A : Type 0} (miot : Instance → Device W) (cached : Option A) → Keeps (found_or miot cached)
  unfolding found_or
  found_or-Keeps miot none s w = w
  found_or-Keeps miot (some a) s w = w

  get_or_create-Keeps : (device : DeviceCache) → Keeps (get_or_create device)
  unfolding get_or_create
  get_or_create-Keeps device s w = elim (Option-cases (find_instance device.device_id s.registry)) [
    | inl e ↦ rw (e, get_or_create) (record { distinct = w.distinct; logged = w.logged })
    | inr (i, e) ↦ rw (e, get_or_create) w
  ]

  warn_each-Keeps :
      (id : Units) (keys : List Units) (s : Service W)
      → WarnedOnce s
      → WarnedOnce (warn_each id keys s)
  unfolding warn_each
  warn_each-Keeps id [] s w = w
  warn_each-Keeps id (key ∷ keys) s w =
      elim (Bool-cases (contains s.unresolved_logged (colon id key))) [
        | inl old ↦ rw old (warn_each-Keeps id keys s w)
        | inr new ↦ rw new (
            warn_each-Keeps id keys _ (record {
              distinct = (w.logged (colon id key) ∙ new, w.distinct);
              logged = λ k.
                  ap (λ b. units_eq (colon id key) k || b) (w.logged k)
                  ∙ sym (contains-append s.unresolved_logged (colon id key) k);
            }))
      ]

  report_unresolved-Keeps :
      (id : Units) (keys : List Units) → Keeps (report_unresolved_properties id keys)
  unfolding report_unresolved_properties
  report_unresolved-Keeps id [] s w = w
  report_unresolved-Keeps id (key ∷ keys) s w =
      warn_each-Keeps id (key ∷ keys) _ (record { distinct = w.distinct; logged = w.logged })

  refused-WarnedOnce :
      (fine : Bool) (k : Units) (src : MiotPropertySource) (code : Option ℤ) (s : Service W)
      → WarnedOnce s
      → WarnedOnce (if fine then s else record s { effects = refused k src code ∷ s.effects })
  refused-WarnedOnce true k src code s w = w
  refused-WarnedOnce false k src code s w = record { distinct = w.distinct; logged = w.logged }

  report_rejected-Keeps :
      (results : List KeyedPropertyResult) → Keeps (report_rejected_properties results)
  unfolding report_rejected_properties
  report_rejected-Keeps [] s w = w
  report_rejected-Keeps (r ∷ results) s w =
      report_rejected-Keeps results _
        (refused-WarnedOnce (eqb_ℤ r.code (pos 0)) r.key r.source (status_code r.code) s w)

  reach-Keeps :
      {A : Type 0} (miot : Instance → Device W) (i : Instance) (call : Call)
      (run : Device W → W → Attempt A × W)
      → Keeps (reach miot i call run)
  unfolding reach
  reach-Keeps miot i call run s w = record { distinct = w.distinct; logged = w.logged }

  module _ (miot : Instance → Device W) where
    read_wanted-Keeps :
        (device : DeviceCache) (props : List WantedProperty) → Keeps (read_wanted miot device props)
    unfolding read_wanted
    read_wanted-Keeps device props =
        let pairs = map (λ (p : WantedProperty). (p.siid, p.piid)) props in
        bind-Keeps (get_or_create device) _ (get_or_create-Keeps device) (λ i.
          bind-Keeps (reach miot i (read_all pairs) (λ d. d.get_properties pairs)) _
            (reach-Keeps miot i (read_all pairs) (λ d. d.get_properties pairs))
            (λ raw.
              bind-Keeps (report_rejected_properties (map (keyed raw) props)) _
                (report_rejected-Keeps (map (keyed raw) props)) (λ reported s w. w)))

    read_resolved-Keeps :
        (id : Units) (device : DeviceCache) (keys : List WantedProperty × List Units)
        → Keeps (read_resolved miot id device keys)
    unfolding read_resolved
    read_resolved-Keeps id device ([], missing) =
        bind-Keeps (report_unresolved_properties id missing) _ (report_unresolved-Keeps id missing)
          (λ reported s w. w)
    read_resolved-Keeps id device (p ∷ props, missing) =
        bind-Keeps (report_unresolved_properties id missing) _ (report_unresolved-Keeps id missing)
          (λ reported. read_wanted-Keeps device (p ∷ props))

    get_properties-Keeps :
        (storage : Storage) (id : Units) (keys : List Units)
        → Keeps (get_properties miot storage id keys)
    unfolding get_properties get_properties_of
    get_properties-Keeps storage id keys =
        bind-Keeps (await (storage.get_by_id id)) _ (λ s w. w)
          (λ cached. bind-Keeps (found_or miot cached) _ (found_or-Keeps miot cached) (λ device.
            bind-Keeps (await (storage.get_by_model device.model)) _ (λ s w. w)
              (λ overrides.
                bind-Keeps (await (map_spec device.raw_spec overrides)) _ (λ s w. w)
                  (λ spec. read_resolved-Keeps id device (resolve_keys spec.properties keys)))))

    resolve-Keeps :
        (r : DeviceCommandRequest) (spec : SimplifiedMiotSpec)
        → Keeps (resolve_or_record_rejection miot r spec)
    unfolding resolve_or_record_rejection
    resolve-Keeps r spec s w =
        elim (Result-cases (resolve_command r.operation r.command r.value spec)) [
          | inl (c, e) ↦ rw (e, resolve_or_record_rejection) w
          | inr (f, e) ↦
              rw (e, resolve_or_record_rejection)
                (record { distinct = w.distinct; logged = w.logged })
        ]

    dispatch-Keeps :
        (device : DeviceCache) (r : DeviceCommandRequest) (i : Instance) (c : ResolvedCommand)
        → Keeps (dispatch miot device r i c)
    unfolding dispatch
    dispatch-Keeps device r i (reading p) =
        bind-Keeps (send_read miot i p.siid p.piid) _
          (reach-Keeps miot i (Call.read p.siid p.piid) (λ d. d.get_property p.siid p.piid))
          (λ v s w. record { distinct = w.distinct; logged = w.logged })
    dispatch-Keeps device r i (writing p) =
        bind-Keeps (send_write miot i p.siid p.piid r.value) _
          (reach-Keeps miot i (write p.siid p.piid r.value)
            (λ d. d.set_property p.siid p.piid r.value))
          (λ done s w. record { distinct = w.distinct; logged = w.logged })
    dispatch-Keeps device r i (acting a) =
        bind-Keeps (send_action miot i a.siid a.aiid r.value) _
          (reach-Keeps miot i (act a.siid a.aiid r.value)
            (λ d. d.call_action a.siid a.aiid r.value))
          (λ done s w. w)

    execute-Keeps : (storage : Storage) (r : DeviceCommandRequest) → Keeps (execute miot storage r)
    unfolding execute execute_on
    execute-Keeps storage r =
        bind-Keeps (await (storage.get_by_device_id r.device_id)) _ (λ s w. w)
          (λ cached. bind-Keeps (found_or miot cached) _ (found_or-Keeps miot cached) (λ device.
            bind-Keeps (await (storage.get_by_model device.model)) _ (λ s w. w)
              (λ overrides.
                bind-Keeps (await (map_spec device.raw_spec overrides)) _ (λ s w. w)
                  (λ spec.
                    bind-Keeps (resolve_or_record_rejection miot r spec) _ (resolve-Keeps r spec)
                      (λ c. bind-Keeps (get_or_create device) _ (get_or_create-Keeps device) (λ i.
                        bind-Keeps (dispatch miot device r i c) _ (dispatch-Keeps device r i c)
                          (λ v s w. w)))))))

    -- One bulk read or one command, with the storage as it answers then.
    pub data Request : Type 0 where
      bulk_read : Storage → Units → List Units → Request
      command : Storage → DeviceCommandRequest → Request

    abbrev pub serve : Request → Service W → Service W
    serve (bulk_read storage id keys) s = (get_properties miot storage id keys s).1
    serve (command storage r) s = (execute miot storage r s).1

    abbrev pub serve_all : List Request → Service W → Service W
    serve_all [] s = s
    serve_all (r ∷ requests) s = serve_all requests (serve r s)

    serve_all-WarnedOnce :
        (requests : List Request) (s : Service W) → WarnedOnce s → WarnedOnce (serve_all requests s)
    serve_all-WarnedOnce [] s w = w
    serve_all-WarnedOnce (bulk_read storage id keys ∷ requests) s w =
        serve_all-WarnedOnce requests _ (get_properties-Keeps storage id keys s w)
    serve_all-WarnedOnce (command storage r ∷ requests) s w =
        serve_all-WarnedOnce requests _ (execute-Keeps storage r s w)

    -- From a fresh process on, whatever bulk reads and commands it serves, no key of a device is logged
    -- twice as one that the spec does not know.
    pub serve_all-warned :
        (requests : List Request) (world : W)
        → Distinct (warned_keys (serve_all requests (fresh world)).effects)
    serve_all-warned requests world =
        (serve_all-WarnedOnce requests (fresh world)
          (record { distinct = tt; logged = λ _. refl })).distinct
