-- ===== src/Bridge/Commands/Outcome.antt =====
-- What execute comes to, on every path
-- (apis/miot-bridge-api/src/services/DeviceCommandService.ts).
use homelab_apps.Prelude.{
  ℕ, ◌≡◌, refl, ap, ◌⊎◌, inl, inr, Option, none, some, List, [], ◌∷◌, ◌++◌, arith, Option-cases,
}
use mathlib.Core.Path.{subst}
use homelab_apps.Miot.Error.{Thrown, Attempt, returned, threw}
use homelab_apps.Bridge.Spec.{SimplifiedMiotSpec, ModelPropertyOverride, map_spec}
use homelab_apps.Bridge.Service.{
  JsonValue, undefined, Operation, DeviceCommandRequest, DeviceCache, Failure, not_found, thrown,
  Result, ok, err, Instance, Call, read, write, act, Device, Effect, called, observed,
  rejected_locally, Service, Storage, Act, await, ◌>>=◌, find_instance, get_or_create,
}
use homelab_apps.Bridge.Commands.{
  ResolvedCommand, reading, writing, acting, CommandResponse, resolve_command, miot_method_of,
  reach, resolve_or_record_rejection, dispatch, execute_on, found_or, execute,
}

abbrev pub call_of : DeviceCommandRequest → ResolvedCommand → Call
call_of r (reading p) = read p.siid p.piid
call_of r (writing p) = write p.siid p.piid r.value
call_of r (acting a) = act a.siid a.aiid r.value

abbrev pub without_value : {W : Type 0} → Attempt (Unit {0}) × W → Attempt JsonValue × W
without_value (returned u, w) = (returned undefined, w)
without_value (threw e, w) = (threw e, w)

-- The one call of the device, and the value that its response carries.
abbrev pub send :
    {W : Type 0} → Device W → DeviceCommandRequest → ResolvedCommand → W → Attempt JsonValue × W
send d r (reading p) w = d.get_property p.siid p.piid w
send d r (writing p) w = without_value (d.set_property p.siid p.piid r.value w)
send d r (acting a) w = without_value (d.call_action a.siid a.aiid r.value w)

abbrev pub response : Operation → Attempt JsonValue → Result CommandResponse
response operation (returned v) = ok (record { operation = operation; value = v })
response operation (threw e) = err (thrown e)

-- The value read or written is passed on to the notifications.
abbrev pub notes : DeviceCache → DeviceCommandRequest → ResolvedCommand → JsonValue → List Effect
notes device r (reading p) v = observed device.device_id r.command v ∷ []
notes device r (writing p) v = observed device.device_id r.command r.value ∷ []
notes device r (acting a) v = []

abbrev pub trail :
    DeviceCache
    → DeviceCommandRequest
    → ResolvedCommand
    → Instance
    → Attempt JsonValue
    → List Effect
trail device r c i (returned v) = notes device r c v ++ (called i (call_of r c) ∷ [])
trail device r c i (threw e) = called i (call_of r c) ∷ []

pub Result-cases :
    {A : Type 0} (x : Result A) → ((a : A) × (x ≡ ok a)) ⊎ ((e : Failure) × (x ≡ err e))
Result-cases (ok a) = inl (a, refl)
Result-cases (err e) = inr (e, refl)

Answer-cases :
    {A W : Type 0} (x : Attempt A × W)
    → ((a : A) × (w : W) × (x ≡ (returned a, w))) ⊎ ((e : Thrown) × (w : W) × (x ≡ (threw e, w)))
Answer-cases (returned a, w) = inl (a, w, refl)
Answer-cases (threw e, w) = inr (e, w, refl)

find_instance_id :
    (id : ℕ) (registry : List Instance) (i : Instance)
    → find_instance id registry ≡ some i
    → i.device_id ≡ id
unfolding find_instance
find_instance_id id [] i h = cc
find_instance_id id (x ∷ registry) i h = ground (arith, find_instance_id id registry i)

module _ {W : Type 0} (miot : Instance → Device W) (storage : Storage) (r : DeviceCommandRequest)
    (s : Service W) where
  -- What stops a command before its spec is known.
  pub data Stops : Failure → Type 0 where
    no_lookup : (e : Thrown) → storage.get_by_device_id r.device_id ≡ threw e → Stops (thrown e)
    unknown_device : storage.get_by_device_id r.device_id ≡ returned none → Stops not_found
    no_overrides :
        (device : DeviceCache) (e : Thrown)
        → storage.get_by_device_id r.device_id ≡ returned (some device)
        → storage.get_by_model device.model ≡ threw e
        → Stops (thrown e)
    no_spec :
        (device : DeviceCache) (overrides : List ModelPropertyOverride) (e : Thrown)
        → storage.get_by_device_id r.device_id ≡ returned (some device)
        → storage.get_by_model device.model ≡ returned overrides
        → map_spec device.raw_spec overrides ≡ threw e
        → Stops (thrown e)

  -- The spec is what the published spec of the device and the overrides of its model come to.
  pub record Describes (device : DeviceCache) (spec : SimplifiedMiotSpec) : Type 0 where
    pub overrides : List ModelPropertyOverride
    pub known : storage.get_by_device_id r.device_id ≡ returned (some device)
    pub overridden : storage.get_by_model device.model ≡ returned overrides
    pub mapped : map_spec device.raw_spec overrides ≡ returned spec

  pub data Outcome : Result CommandResponse → Service W → Type 0 where
    -- nothing happened
    stopped : (e : Failure) → Stops e → Outcome (err e) s
    -- the request was refused before the device was addressed
    rejected :
        (device : DeviceCache) (spec : SimplifiedMiotSpec) (e : Failure)
        → Describes device spec
        → resolve_command r.operation r.command r.value spec ≡ err e
        → Outcome
            (err e)
            (record s { effects = rejected_locally (miot_method_of r.operation) ∷ s.effects })
    -- the device was sent one call, the one that the request resolved to
    sent :
        (device : DeviceCache) (spec : SimplifiedMiotSpec) (c : ResolvedCommand) (i : Instance)
        (registry : List Instance)
        → Describes device spec
        → resolve_command r.operation r.command r.value spec ≡ ok c
        → i.device_id ≡ device.device_id
        → Outcome (response r.operation (send (miot i) r c s.world).0) (record s {
          registry = registry;
          world = (send (miot i) r c s.world).1;
          effects = trail device r c i (send (miot i) r c s.world).0 ++ s.effects;
        })

  abbrev Ends : Result CommandResponse × Service W → Type 0
  Ends after = Outcome after.0 after.1

  await-Ends :
      {A : Type 0} (a : Attempt A) (k : A → Act W CommandResponse)
      → ((x : A) → a ≡ returned x → Ends (k x s))
      → ((e : Thrown) → a ≡ threw e → Stops (thrown e))
      → Ends ((await a >>= k) s)
  await-Ends (returned x) k h stops = h x refl
  await-Ends (threw e) k h stops = stopped (thrown e) (stops e refl)

  resolve-Ends :
      (device : DeviceCache) (spec : SimplifiedMiotSpec)
      (k : ResolvedCommand → Act W CommandResponse)
      → Describes device spec
      → ((c : ResolvedCommand)
          → resolve_command r.operation r.command r.value spec ≡ ok c
          → Ends (k c s))
      → Ends ((resolve_or_record_rejection miot r spec >>= k) s)
  unfolding resolve_or_record_rejection
  resolve-Ends device spec k described h =
      elim (Result-cases (resolve_command r.operation r.command r.value spec)) [
        | inl (c, e) ↦ rw (e, resolve_or_record_rejection) (h c e)
        | inr (f, e) ↦ rw (e, resolve_or_record_rejection) (rejected device spec f described e)
      ]

  get_or_create-Ends :
      (device : DeviceCache) (k : Instance → Act W CommandResponse)
      → ((i : Instance) (registry : List Instance)
          → i.device_id ≡ device.device_id
          → Ends (k i (record s { registry = registry })))
      → Ends ((get_or_create device >>= k) s)
  unfolding get_or_create
  get_or_create-Ends device k h = elim (Option-cases (find_instance device.device_id s.registry)) [
    | inl e ↦ rw (e, get_or_create) (h _ _ refl)
    | inr (i, e) ↦
        rw (e, get_or_create) (h i s.registry (find_instance_id device.device_id s.registry i e))
  ]

  module _ (device : DeviceCache) (spec : SimplifiedMiotSpec) (i : Instance)
      (registry : List Instance) (described : Describes device spec)
      (same : i.device_id ≡ device.device_id) where
    sent_with :
        (c : ResolvedCommand) (answer : Attempt JsonValue) (w : W)
        → resolve_command r.operation r.command r.value spec ≡ ok c
        → send (miot i) r c s.world ≡ (answer, w)
        → Outcome (response r.operation answer) (record s {
          registry = registry;
          world = w;
          effects = trail device r c i answer ++ s.effects;
        })
    sent_with c answer w resolved e =
        subst
          (λ (x : Attempt JsonValue × W). Outcome (response r.operation x.0) (record s {
            registry = registry;
            world = x.1;
            effects = trail device r c i x.0 ++ s.effects;
          }))
          e (sent device spec c i registry described resolved same)

    dispatch-Ends :
        (c : ResolvedCommand)
        → resolve_command r.operation r.command r.value spec ≡ ok c
        → Ends (
            (dispatch miot device r i c
                >>= (λ v. λ t. (ok (record { operation = r.operation; value = v }), t)))
              (record s { registry = registry }))
    unfolding dispatch reach
    dispatch-Ends (reading p) resolved =
        elim (Answer-cases ((miot i).get_property p.siid p.piid s.world)) [
          | inl (v, w, e) ↦
              rw (e, dispatch, reach) (sent_with (reading p) (returned v) w resolved e)
          | inr (f, w, e) ↦ rw (e, dispatch, reach) (sent_with (reading p) (threw f) w resolved e)
        ]
    dispatch-Ends (writing p) resolved =
        elim (Answer-cases ((miot i).set_property p.siid p.piid r.value s.world)) [
          | inl (v, w, e) ↦
              rw (e, dispatch, reach)
                (sent_with (writing p) (returned undefined) w resolved (ap without_value e))
          | inr (f, w, e) ↦
              rw (e, dispatch, reach)
                (sent_with (writing p) (threw f) w resolved (ap without_value e))
        ]
    dispatch-Ends (acting a) resolved =
        elim (Answer-cases ((miot i).call_action a.siid a.aiid r.value s.world)) [
          | inl (v, w, e) ↦
              rw (e, dispatch, reach)
                (sent_with (acting a) (returned undefined) w resolved (ap without_value e))
          | inr (f, w, e) ↦
              rw (e, dispatch, reach)
                (sent_with (acting a) (threw f) w resolved (ap without_value e))
        ]

  execute_on-Ends :
      (device : DeviceCache)
      → storage.get_by_device_id r.device_id ≡ returned (some device)
      → Ends (execute_on miot storage r device s)
  unfolding execute_on
  execute_on-Ends device known =
      await-Ends (storage.get_by_model device.model) _
        (λ overrides overridden.
          await-Ends (map_spec device.raw_spec overrides) _
            (λ spec mapped.
              let described : Describes device spec = record {
                overrides = overrides;
                known = known;
                overridden = overridden;
                mapped = mapped;
              } in
              resolve-Ends device spec _ described (λ c resolved.
                get_or_create-Ends device _ (λ i registry same.
                  dispatch-Ends device spec i registry described same c resolved)))
            (λ e failed. no_spec device overrides e known overridden failed))
        (λ e failed. no_overrides device e known failed)

  found-Ends :
      (cached : Option DeviceCache)
      → storage.get_by_device_id r.device_id ≡ returned cached
      → Ends ((found_or miot cached >>= execute_on miot storage r) s)
  unfolding found_or
  found-Ends none e = stopped not_found (unknown_device e)
  found-Ends (some device) e = execute_on-Ends device e

  -- A command ends in one of three ways. Nothing happened, because the device is not known, or the storage or
  -- the map of its spec threw; or the request was refused by the spec that the published spec of that device
  -- and the overrides of its model come to, which is counted, and no device was addressed; or the device with
  -- the id that was asked for was sent exactly the call that the request resolved to in that spec, the
  -- response is made of its answer, and after a read or a write that succeeded the value is passed on to the
  -- notifications.
  pub execute-Outcome : Outcome (execute miot storage r s).0 (execute miot storage r s).1
  unfolding execute
  execute-Outcome = await-Ends (storage.get_by_device_id r.device_id) _ found-Ends no_lookup
