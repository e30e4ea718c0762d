-- ===== src/Poller/Backoff.antt =====
-- How long a device that fails is left alone
-- (apis/miot-bridge-api/src/services/DevicePropertyPollerService.ts).
use homelab_apps.Prelude.{
  ◌∙◌, ℕ, zero, suc, ◌+◌, ◌-◌, ◌≤◌, ◌≡◌, refl, Bool, true, false, not, ◌||◌, none, List, [], ◌∷◌,
  ltb, leb, or_else, arith, inl, inr, Bool-cases, sym, ap,
}
use homelab_apps.Prelude.Text.{Units, units_eq, contains, Distinct, units_eq_refl, eq_of_units_eq}
use homelab_apps.Poller.{PollingConfig, PollTarget, Poller, put, due_from, due_devices, fail_read}

abbrev pub device_ids : List (Units × List Units) → List Units
device_ids [] = []
device_ids ((d, set) ∷ subs) = d ∷ device_ids subs

abbrev pub is_due : Units → List PollTarget → Bool
is_due d [] = false
is_due d (t ∷ due) = units_eq t.device_id d || is_due d due

put-other : (x d : Units) (n : ℕ) (old : Units → ℕ) → units_eq x d ≡ false → put x n old d ≡ old d
unfolding put
put-other x d n old other = rw other refl

put-same : {A : Type 0} (d : Units) (n : A) (old : Units → A) → put d n old d ≡ n
unfolding put
put-same d n old = rw (units_eq_refl d) refl

due_from-other :
    (d : Units) (subs : List (Units × List Units)) (skips : Units → ℕ)
    → contains (device_ids subs) d ≡ false
    → ((due_from subs skips).1 d ≡ skips d) × (is_due d (due_from subs skips).0 ≡ false)
unfolding due_from
due_from-other d [] skips absent = (refl, refl)
due_from-other d ((x, set) ∷ subs) skips absent =
    let other : units_eq x d ≡ false = ground (arith, absent) in
    let rest : contains (device_ids subs) d ≡ false = ground (arith, absent) in
    elim (Bool-cases (ltb 0 (skips x))) [
      | inl waits ↦
          let (same, missing) = due_from-other d subs (put x (skips x - 1) skips) rest in
          rw waits (same ∙ put-other x d (skips x - 1) skips other, missing)
      | inr due ↦
          let (same, missing) = due_from-other d subs skips rest in rw due (same, rw other missing)
    ]

-- The device at the head: it is due if it has no cycle left, and has one less left otherwise.
due_from-head :
    (d : Units) (set : List Units) (subs : List (Units × List Units)) (skips : Units → ℕ)
    → contains (device_ids subs) d ≡ false
    → ((due_from ((d, set) ∷ subs) skips).1 d ≡ skips d - 1)
      × (is_due d (due_from ((d, set) ∷ subs) skips).0 ≡ not (ltb 0 (skips d)))
unfolding due_from
due_from-head d set subs skips fresh = elim (Bool-cases (ltb 0 (skips d))) [
  | inl waits ↦
      let (same, missing) = due_from-other d subs (put d (skips d - 1) skips) fresh in
      rw waits (same ∙ put-same d (skips d - 1) skips, missing)
  | inr due ↦
      let (same, missing) = due_from-other d subs skips fresh in
      let none_left : skips d ≡ 0 = ground (arith, due) in
      rw due (omega (arith, same, none_left), rw (units_eq_refl d) refl)
]

due_from-mine :
    (d : Units) (subs : List (Units × List Units)) (skips : Units → ℕ)
    → Distinct (device_ids subs)
    → contains (device_ids subs) d ≡ true
    → ((due_from subs skips).1 d ≡ skips d - 1)
      × (is_due d (due_from subs skips).0 ≡ not (ltb 0 (skips d)))
unfolding due_from
due_from-mine d [] skips distinct there = absurd (ground (arith, there))
due_from-mine d ((x, set) ∷ subs) skips (fresh, distinct) there = elim (Bool-cases (units_eq x d)) [
  | inl same ↦
      let at_head : x ≡ d = eq_of_units_eq x d same in
      rw at_head (due_from-head d set subs skips (rw (sym at_head) fresh))
  | inr other ↦
      let rest : contains (device_ids subs) d ≡ true = ground (arith, there, other) in
      elim (Bool-cases (ltb 0 (skips x))) [
        | inl waits ↦
            let kept = put-other x d (skips x - 1) skips other in
            let (same, due) = due_from-mine d subs (put x (skips x - 1) skips) distinct rest in
            rw waits (same ∙ ap (λ n. n - 1) kept, due ∙ ap (λ n. not (ltb 0 n)) kept)
        | inr no_wait ↦
            let (same, due) = due_from-mine d subs skips distinct rest in
            rw no_wait (same, rw other due)
      ]
]

-- `k` ticks, as far as the counters go of a device that they do not read.
abbrev pub after_ticks : ℕ → Poller → Poller
after_ticks zero s = s
after_ticks (suc k) s = after_ticks k (due_devices s).1

after_ticks-skips :
    (d : Units) (k : ℕ) (s : Poller)
    → Distinct (device_ids s.subscriptions)
    → contains (device_ids s.subscriptions) d ≡ true
    → ((after_ticks k s).skip_cycles d ≡ s.skip_cycles d - k)
      × ((after_ticks k s).subscriptions ≡ s.subscriptions)
unfolding due_devices
after_ticks-skips d zero s distinct there = (omega arith, refl)
after_ticks-skips d (suc k) s distinct there =
    let (one, due) = due_from-mine d s.subscriptions s.skip_cycles distinct there in
    let (later, same) = after_ticks-skips d k (due_devices s).1 distinct there in
    (omega (arith, one, later), same)

after_ticks-is_due :
    (d : Units) (k : ℕ) (s : Poller)
    → Distinct (device_ids s.subscriptions)
    → contains (device_ids s.subscriptions) d ≡ true
    → is_due d (due_devices (after_ticks k s)).0 ≡ leb (s.skip_cycles d) k
unfolding due_devices
after_ticks-is_due d k s distinct there =
    let (left, same) = after_ticks-skips d k s distinct there in
    let (one, due) =
      due_from-mine d (after_ticks k s).subscriptions (after_ticks k s).skip_cycles
        (rw same distinct) (rw same there) in
    due ∙ rw left (ground arith)

-- A subscribed device whose read fails for the `maxErrorCount`th time in a row is left out of just the next
-- `errorSkipCycles` ticks, and its failures are counted anew.
pub fail_read-pauses :
    (config : PollingConfig) (d : Units) (k : ℕ) (s : Poller)
    → Distinct (device_ids s.subscriptions)
    → contains (device_ids s.subscriptions) d ≡ true
    → config.max_error_count ≤ or_else (s.error_counts d) 0 + 1
    → (is_due d (due_devices (after_ticks k (fail_read config d s))).0
        ≡ leb config.error_skip_cycles k)
      × ((fail_read config d s).error_counts d ≡ none)
unfolding fail_read
fail_read-pauses config d k s distinct there many =
    let enough : leb config.max_error_count (or_else (s.error_counts d) 0 + 1) ≡ true =
      ground (arith, many) in
    let paused : Poller = record s {
      error_counts = put d none s.error_counts;
      skip_cycles = put d config.error_skip_cycles s.skip_cycles;
    } in
    let same : fail_read config d s ≡ paused = rw enough refl in
    rw same (
      after_ticks-is_due d k paused distinct there
          ∙ ap (λ n. leb n k) (put-same d config.error_skip_cycles s.skip_cycles),
      put-same d none s.error_counts,
    )
