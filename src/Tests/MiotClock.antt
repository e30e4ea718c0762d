-- ===== src/Tests/MiotClock.antt =====
-- The device clock at concrete readings (packages/miot-device/src/DeviceClock.ts).
use homelab_apps.Prelude.{ℕ, ◌+◌, ◌/◌, ◌≤◌, ◌≡◌, refl, some, List, [], ◌∷◌, arith}
use homelab_apps.Prelude.Int.{ℤ, pos}
use homelab_apps.Miot.Clock.{
  Now, DeviceClock, StampState, unsynced, sync, next, observe, restore, snapshot,
}
use homelab_apps.Miot.Clock.Accuracy.{next-sync_bounds, next-observe_mono, next-restore-snapshot}

abbrev at_start : Now
at_start = record { perf = 5000; date = pos 900000 }

abbrev two_seconds_later : Now
two_seconds_later = record { perf = 7400; date = pos 902400 }

abbrev clock : DeviceClock
clock = sync 35501 at_start unsynced

stamp_after_two_seconds : next two_seconds_later clock ≡ some 35504
unfolding next sync homelab_apps.Miot.Clock.next_from homelab_apps.Prelude.Int.◌-ℤ◌
stamp_after_two_seconds = refl

next-sync_bounds_example :
    (s : ℕ) × (next two_seconds_later (sync (35501900 / 1000) at_start unsynced) ≡ some s)
    × ((35501900 + 2400) / 1000 ≤ s)
    × (s ≤ (35501900 + 2400) / 1000 + 1)
next-sync_bounds_example = next-sync_bounds 35501900 2400 at_start two_seconds_later unsynced refl

next-observe_mono_example :
    (m : ℕ) × (next two_seconds_later (observe 35510 at_start clock) ≡ some m)
    × (35504 ≤ m)
    × (35510 ≤ m)
next-observe_mono_example =
    next-observe_mono 35510 35504 at_start two_seconds_later clock (omega arith)
      stamp_after_two_seconds

echoed : (n : ℕ) × (next two_seconds_later clock ≡ some n) × (35504 ≤ n)
echoed = (35504, stamp_after_two_seconds, omega arith)

-- A second process started at another moment, so its monotonic clock reads less.
abbrev elsewhere : Now
elsewhere = record { perf = 100; date = pos 903000 }

next-restore-snapshot_example :
    (state : StampState) × (snapshot (sync 35501 at_start unsynced) ≡ some state)
    × (next (record { perf = 600; date = pos 903500 }) (restore state elsewhere unsynced)
        ≡ next (record { perf = 8500; date = pos 903500 }) (sync 35501 at_start unsynced))
next-restore-snapshot_example =
    next-restore-snapshot 35501 3000 500 899999 at_start elsewhere
      (record { perf = 8500; date = pos 903500 }) (record { perf = 600; date = pos 903500 })
      unsynced unsynced refl refl refl refl
