-- ===== src/Miot/Clock.antt =====
-- The estimate of a device's clock (packages/miot-device/src/DeviceClock.ts). Instants are whole
-- milliseconds, and a method that reads the process's clocks takes one instant for its run.
pub mod Accuracy
use homelab_apps.Prelude.{ℕ, ◌+◌, ◌/◌, Bool, Option, none, some, ltb, is_some, if◌then◌else◌}
use homelab_apps.Prelude.Int.{ℤ, pos, ◌-ℤ◌, leb_ℤ, pos_part}

-- What `performance.now()` and `Date.now()` answer at one moment.
pub record Now : Type 0 where
  pub perf : ℕ
  pub date : ℤ

-- interface ClockReading
pub record ClockReading : Type 0 where
  pub stamp : ℕ
  pub at : ℤ
  pub updated_at : ℤ

-- interface StampState of types.ts
pub record StampState : Type 0 where
  pub stamp : ℕ
  pub updated_at : ℤ

-- class DeviceClock: its one field
pub record DeviceClock : Type 0 where
  pub reading : Option ClockReading

abbrev pub ms_per_second : ℕ
ms_per_second = 1000

abbrev pub unsynced : DeviceClock
unsynced = record { reading = none }

unfoldable pub synced : DeviceClock → Bool
synced c = is_some c.reading

unfoldable pub sync : ℕ → Now → DeviceClock → DeviceClock
sync stamp now c = record {
  reading = some (record { stamp = stamp; at = pos now.perf; updated_at = now.date });
}

unfoldable pub next_from : Now → ClockReading → ℕ
next_from now r =
    let elapsed = pos_part (pos now.perf -ℤ r.at) in r.stamp + elapsed / ms_per_second + 1

-- `none` is the exception "Device clock is not synced. Handshake first."
unfoldable pub next : Now → DeviceClock → Option ℕ
next now c = elim c.reading [ none ↦ none | some r ↦ some (next_from now r) ]

unfoldable pub observe : ℕ → Now → DeviceClock → DeviceClock
unfolding next sync
observe stamp now c = elim (next now c) [
  | none ↦ c
  | some estimate ↦ if ltb estimate stamp then sync stamp now c else c
]

unfoldable pub restore : StampState → Now → DeviceClock → DeviceClock
restore state now c =
    if leb_ℤ state.updated_at (pos 0)
    then c
    else (let age = pos_part (now.date -ℤ state.updated_at) in
        record {
          reading = some (record {
            stamp = state.stamp;
            at = pos now.perf -ℤ pos age;
            updated_at = state.updated_at;
          });
        })

unfoldable pub reset : DeviceClock → DeviceClock
reset c = unsynced

unfoldable pub snapshot : DeviceClock → Option StampState
snapshot c = elim c.reading [
  | none ↦ none
  | some r ↦ some (record { stamp = r.stamp; updated_at = r.updated_at })
]
