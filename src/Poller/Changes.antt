-- ===== src/Poller/Changes.antt =====
-- What the events of one property say, read after read
-- (apis/miot-bridge-api/src/services/DevicePropertyPollerService.ts).
use homelab_apps.Prelude.{
  ◌≡◌, ◌⊎◌, refl, sym, ap, ◌∙◌, Bool, true, false, not, ◌&&◌, ◌||◌, Option, none, some, List, [],
  ◌∷◌, ◌++◌, if◌then◌else◌, arith, inl, inr, Bool-cases, or_else,
}
use homelab_apps.Prelude.Int.{pos, eqb_ℤ}
use homelab_apps.Prelude.Text.{Units, units_eq, contains, eq_of_units_eq, units_eq_refl}
use homelab_apps.Poller.{
  PropertyValue, same_value, PropertyChangeEvent, PropertyResult, PollingConfig, Poller, put,
  cache_key, is_subscribed, dispatch, take_result, take_results, remove_subscription, drop_property,
  subscribed, subscribe, unsubscribe, delete,
}

abbrev pub events_of : Units → List PropertyChangeEvent → List PropertyChangeEvent
events_of p [] = []
events_of p (e ∷ events) =
    if units_eq e.property p then e ∷ events_of p events else events_of p events

-- Each event has the value before it, and another one.
abbrev pub Chained : Option PropertyValue → List PropertyChangeEvent → Type 0
Chained last [] = Unit
Chained last (e ∷ events) =
    (e.old_value ≡ last) × (same_value e.old_value e.new_value ≡ false) × Chained e.new_value events

events_of-append :
    (p : Units) (a b : List PropertyChangeEvent)
    → events_of p (a ++ b) ≡ events_of p a ++ events_of p b
events_of-append p [] b = refl
events_of-append p (e ∷ a) b = elim (Bool-cases (units_eq e.property p)) [
  | inl same ↦ rw same (ap (λ t. e ∷ t) (events_of-append p a b))
  | inr other ↦ rw other (events_of-append p a b)
]

units_eq-cache_key : (d a b : Units) → units_eq (cache_key d a) (cache_key d b) ≡ units_eq a b
unfolding cache_key
units_eq-cache_key [] a b = ground arith
units_eq-cache_key (c ∷ d) a b = ground (arith, units_eq-cache_key d a b)

-- What one item adds to the events of a property.
abbrev Links : Option PropertyValue → List PropertyChangeEvent → Option PropertyValue → Type 0
Links last events next =
    ((events ≡ []) × (next ≡ last))
    ⊎ ((e : PropertyChangeEvent) × (events ≡ e ∷ [])
        × (e.old_value ≡ last)
        × (same_value e.old_value e.new_value ≡ false)
        × (next ≡ e.new_value))

module _ (config : PollingConfig) (on_change : config.dispatch_on_change ≡ true) (d p : Units) where
  dispatch-Links :
      (r : PropertyResult) (s : Poller)
      → Links
          (s.last_values (cache_key d p))
          (events_of p (dispatch config d r s).0)
          ((dispatch config d r s).1.last_values (cache_key d p))
  unfolding dispatch put
  dispatch-Links r s = elim (Bool-cases (same_value (s.last_values (cache_key d r.key)) r.value)) [
    | inl unchanged ↦ rw (unchanged, on_change) (inl (refl, refl))
    | inr changed ↦ elim (Bool-cases (units_eq r.key p)) [
      | inl same ↦
          let e : PropertyChangeEvent = record {
            device_id = d;
            property = r.key;
            old_value = s.last_values (cache_key d r.key);
            new_value = r.value;
          } in
          rw (changed, same, units_eq-cache_key d r.key p ∙ same)
            (inr (
              e,
              refl,
              ap (λ k. s.last_values (cache_key d k)) (eq_of_units_eq r.key p same),
              changed,
              refl,
            ))
      | inr other ↦ rw (changed, other, units_eq-cache_key d r.key p ∙ other) (inl (refl, refl))
    ]
  ]

  take_result-Links :
      (r : PropertyResult) (s : Poller)
      → Links
          (s.last_values (cache_key d p))
          (events_of p (take_result config d r s).0)
          ((take_result config d r s).1.last_values (cache_key d p))
  unfolding take_result
  take_result-Links r s = elim (Bool-cases (eqb_ℤ r.code (pos 0) && is_subscribed d r.key s)) [
    | inl taken ↦ rw taken (dispatch-Links r s)
    | inr left ↦ rw left (inl (refl, refl))
  ]

  Chained-append :
      (last next : Option PropertyValue) (now later : List PropertyChangeEvent)
      → Links last now next
      → Chained next later
      → Chained last (now ++ later)
  Chained-append last next now later (inl (nothing, same)) h = rw (nothing, sym same) h
  Chained-append last next now later (inr (e, one, old, differs, new)) h =
      rw one (old, differs, rw (sym new) h)

  -- However many items are read, where only changes are dispatched: the events of a property differ from
  -- the value before them, the first from the one that was known and each other from the last event's.
  pub take_results-Chained :
      (results : List PropertyResult) (s : Poller)
      → Chained (s.last_values (cache_key d p)) (events_of p (take_results config d results s).0)
  unfolding take_results
  take_results-Chained [] s = tt
  take_results-Chained (r ∷ results) s =
      rw
        (events_of-append p (take_result config d r s).0
          (take_results config d results (take_result config d r s).1).0)
        (Chained-append _ _ _ _ (take_result-Links r s)
          (take_results-Chained results (take_result config d r s).1))

contains-delete : (p : Units) (set : List Units) → contains (delete p set) p ≡ false
unfolding delete
contains-delete p [] = refl
contains-delete p (q ∷ set) = elim (Bool-cases (units_eq q p)) [
  | inl same ↦ rw same (contains-delete p set)
  | inr other ↦ rw (other, other) (contains-delete p set)
]

subscribed-unsubscribe :
    (d : Units) (subs : List (Units × List Units)) → subscribed d (unsubscribe d subs) ≡ none
unfolding subscribed unsubscribe
subscribed-unsubscribe d [] = refl
subscribed-unsubscribe d ((x, set) ∷ subs) = elim (Bool-cases (units_eq x d)) [
  | inl same ↦ rw same (subscribed-unsubscribe d subs)
  | inr other ↦ rw (other, other) (subscribed-unsubscribe d subs)
]

subscribed-subscribe :
    (d : Units) (set : List Units) (subs : List (Units × List Units))
    → subscribed d (subscribe d set subs) ≡ some set
unfolding subscribed subscribe
subscribed-subscribe d set [] = rw (units_eq_refl d) refl
subscribed-subscribe d set ((x, old) ∷ subs) = elim (Bool-cases (units_eq x d)) [
  | inl same ↦ rw (same, same) refl
  | inr other ↦ rw (other, other) (subscribed-subscribe d set subs)
]

kept-property :
    (d p : Units) (rest : List Units) (subs : List (Units × List Units))
    → contains rest p ≡ false
    → contains
        (or_else
          (subscribed d
            (elim rest [ [] ↦ unsubscribe d subs | q ∷ more ↦ subscribe d (q ∷ more) subs ]))
          [])
        p
      ≡ false
kept-property d p [] subs h = rw (subscribed-unsubscribe d subs) refl
kept-property d p (q ∷ more) subs h = rw (subscribed-subscribe d (q ∷ more) subs) h

dropped-property :
    (d p : Units) (known : Option (List Units)) (subs : List (Units × List Units))
    → subscribed d subs ≡ known
    → contains (or_else (subscribed d (drop_property d p known subs)) []) p ≡ false
unfolding drop_property
dropped-property d p none subs same = rw same refl
dropped-property d p (some set) subs same =
    kept-property d p (delete p set) subs (contains-delete p set)

module _ (config : PollingConfig) (d p : Units) where
  dispatch-subscriptions :
      (r : PropertyResult) (s : Poller) → (dispatch config d r s).1.subscriptions ≡ s.subscriptions
  unfolding dispatch
  dispatch-subscriptions r s =
      elim (Bool-cases (
        not (same_value (s.last_values (cache_key d r.key)) r.value)
        || not config.dispatch_on_change)) [ inl emits ↦ rw emits refl | inr still ↦ rw still refl ]

  dispatch-other :
      (r : PropertyResult) (s : Poller)
      → units_eq r.key p ≡ false
      → events_of p (dispatch config d r s).0 ≡ []
  unfolding dispatch
  dispatch-other r s other =
      elim (Bool-cases (
        not (same_value (s.last_values (cache_key d r.key)) r.value)
        || not config.dispatch_on_change)) [
          | inl emits ↦ rw (emits, other) refl
          | inr still ↦ rw still refl
        ]

  other_of_taken :
      (r : PropertyResult) (s : Poller) (ok : Bool)
      → (ok && is_subscribed d r.key s) ≡ true
      → is_subscribed d p s ≡ false
      → units_eq r.key p ≡ false
  other_of_taken r s ok taken absent = elim (Bool-cases (units_eq r.key p)) [
    | inl same ↦
        let there : is_subscribed d r.key s ≡ true = ground (arith, taken) in
        absurd (
          ground
            (arith, there, absent, ap (λ k. is_subscribed d k s) (eq_of_units_eq r.key p same)))
    | inr other ↦ other
  ]

  take_result-silent :
      (r : PropertyResult) (s : Poller)
      → is_subscribed d p s ≡ false
      → (events_of p (take_result config d r s).0 ≡ [])
        × (is_subscribed d p (take_result config d r s).1 ≡ false)
  unfolding take_result
  take_result-silent r s absent =
      elim (Bool-cases (eqb_ℤ r.code (pos 0) && is_subscribed d r.key s)) [
        | inl taken ↦ rw taken (
          dispatch-other r s (other_of_taken r s (eqb_ℤ r.code (pos 0)) taken absent),
          unfold is_subscribed in rw (dispatch-subscriptions r s) absent,
        )
        | inr left ↦ rw left (refl, absent)
      ]

  take_results-silent :
      (results : List PropertyResult) (s : Poller)
      → is_subscribed d p s ≡ false
      → events_of p (take_results config d results s).0 ≡ []
  unfolding take_results
  take_results-silent [] s absent = refl
  take_results-silent (r ∷ results) s absent =
      let (nothing, still) = take_result-silent r s absent in
      rw
        (events_of-append p (take_result config d r s).0
          (take_results config d results (take_result config d r s).1).0)
        (rw nothing (take_results-silent results (take_result config d r s).1 still))

  -- After a property is unsubscribed, a read of its device emits nothing for it, whatever it holds, also
  -- one that was on its way.
  pub remove_subscription-silent :
      (results : List PropertyResult) (s : Poller)
      → events_of p (take_results config d results (remove_subscription d p s)).0 ≡ []
  unfolding remove_subscription
  remove_subscription-silent results s = take_results-silent results (remove_subscription d p s) (
      unfold is_subscribed in
      dropped-property d p (subscribed d s.subscriptions) s.subscriptions refl)
