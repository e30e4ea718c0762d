-- ===== src/Miot/Clock/Accuracy.antt =====
-- How the stamp that the client sends relates to the device's own clock, whose stamp is its uptime
-- in seconds (packages/miot-device/src/DeviceClock.ts).
use homelab_apps.Prelude.{
  ℕ, ◌+◌, ◌/◌, ◌≤◌, ◌<◌, ◌≡◌, refl, false, some, List, [], ◌∷◌, arith, ltb, ltb→lt, ltb-false→le,
  Bool-cases, Option-cases, inl, inr,
}
use homelab_apps.Prelude.Int.{ℤ, pos, ◌-ℤ◌, pos_part, int_laws, leb_ℤ}
use homelab_apps.Miot.Clock.{
  Now, ClockReading, StampState, DeviceClock, sync, next_from, next, observe, restore, snapshot,
}

-- A stamp synced from the device's uptime, and sent any time later while both clocks run at one
-- rate, is the device's own stamp at that moment or one more: never behind it, at most one ahead.
pub next-sync_bounds :
    (uptime elapsed : ℕ) (taken later : Now) (c : DeviceClock)
    → later.perf ≡ taken.perf + elapsed
    → (s : ℕ) × (next later (sync (uptime / 1000) taken c) ≡ some s)
      × ((uptime + elapsed) / 1000 ≤ s)
      × (s ≤ (uptime + elapsed) / 1000 + 1)
unfolding next sync next_from ◌-ℤ◌
next-sync_bounds uptime elapsed taken later c h =
    (uptime / 1000 + elapsed / 1000 + 1, ground arith, omega arith, omega arith)

-- The estimate at a later instant, against that of a reading which was ahead of it by then.
next_from-overtaken :
    (now later : Now) (r : ClockReading) (stamp : ℕ)
    → now.perf ≤ later.perf
    → next_from now r < stamp
    → next_from later r
      ≤ next_from later (record { stamp = stamp; at = pos now.perf; updated_at = now.date })
unfolding next_from
next_from-overtaken now later r stamp h ahead = omega int_laws

next_from_mono :
    (now later : Now) (r : ClockReading)
    → now.perf ≤ later.perf
    → next_from now r ≤ next_from later r
unfolding next_from
next_from_mono now later r h = omega int_laws

next-eq-some :
    (now : Now) (c : DeviceClock) (n : ℕ)
    → next now c ≡ some n
    → (r : ClockReading) × (c ≡ record { reading = some r }) × (next_from now r ≡ n)
unfolding next
next-eq-some now c n p = elim (Option-cases c.reading) [
  | inl e ↦ absurd (ground arith)
  | inr (r, e) ↦ (r, ground arith, ground arith)
]

observe-behind :
    (stamp n : ℕ) (now : Now) (c : DeviceClock)
    → next now c ≡ some n
    → stamp ≤ n
    → observe stamp now c ≡ c
unfolding observe
observe-behind stamp n now c p h = ground arith

observe-ahead :
    (stamp n : ℕ) (now : Now) (c : DeviceClock)
    → next now c ≡ some n
    → n < stamp
    → observe stamp now c ≡ sync stamp now c
unfolding observe
observe-ahead stamp n now c p h = ground arith

-- With a reading, a stamp observed in a response never lowers what is sent at any instant from then
-- on, and what is sent is not behind the stamp that was observed.
pub next-observe_mono :
    (stamp n : ℕ) (now later : Now) (c : DeviceClock)
    → now.perf ≤ later.perf
    → next later c ≡ some n
    → (m : ℕ) × (next later (observe stamp now c) ≡ some m) × (n ≤ m) × (stamp ≤ m)
unfolding next
next-observe_mono stamp n now later c h p =
    let (r, e, q) = next-eq-some later c n p in
    let known : next now c ≡ some (next_from now r) = ground arith in
    elim (Bool-cases (ltb (next_from now r) stamp)) [
      | inl ahead ↦ rw (observe-ahead stamp (next_from now r) now c known (ltb→lt _ _ ahead)) (
        next_from later (record { stamp = stamp; at = pos now.perf; updated_at = now.date }),
        unfold sync in refl,
        omega (arith, next_from-overtaken now later r stamp h (ltb→lt _ _ ahead)),
        unfold next_from in omega int_laws,
      )
      | inr behind ↦
          rw (observe-behind stamp (next_from now r) now c known (ltb-false→le _ _ behind)) (
            n,
            p,
            omega arith,
            omega (arith, next_from_mono now later r h, ltb-false→le _ _ behind),
          )
    ]

-- Responses that only echo the stamps that were sent: none is ahead of the estimate on arrival.
abbrev pub Echoes : List (ℕ × Now) → DeviceClock → Type 0
Echoes [] c = Unit
Echoes ((stamp, now) ∷ rest) c = ((n : ℕ) × (next now c ≡ some n) × (stamp ≤ n)) × Echoes rest c

pub observe_all : List (ℕ × Now) → DeviceClock → DeviceClock
observe_all [] c = c
observe_all ((stamp, now) ∷ rest) c = observe_all rest (observe stamp now c)

-- However many responses arrive with stamps that are not ahead of what the clock would send at that
-- moment, the reading does not drift.
pub observe_all-Echoes :
    (responses : List (ℕ × Now)) (c : DeviceClock)
    → Echoes responses c
    → observe_all responses c ≡ c
unfolding observe_all
observe_all-Echoes [] c h = refl
observe_all-Echoes ((stamp, now) ∷ rest) c ((n, p, le), h) =
    rw (observe-behind stamp n now c p le) (observe_all-Echoes rest c h)

elapsed-restored :
    (age later : ℕ) (was is : ℤ) (restored there : ℕ)
    → pos_part (is -ℤ was) ≡ age
    → there ≡ restored + later
    → pos_part (pos there -ℤ (pos restored -ℤ pos (pos_part (is -ℤ was)))) ≡ age + later
elapsed-restored age later was is restored there h q = rw h (omega int_laws)

next-restore :
    (stamp age later written : ℕ) (taken restored here there : Now) (fresh : DeviceClock)
    → taken.date ≡ pos (written + 1)
    → restored.date ≡ pos (written + 1 + age)
    → here.perf ≡ taken.perf + age + later
    → there.perf ≡ restored.perf + later
    → next there (restore (record { stamp = stamp; updated_at = taken.date }) restored fresh)
      ≡ some
          (next_from here (record { stamp = stamp; at = pos taken.perf; updated_at = taken.date }))
unfolding restore next next_from
next-restore stamp age later written taken restored here there fresh d e p q =
    let aged : pos_part (restored.date -ℤ taken.date) ≡ age = rw (d, e) (omega int_laws) in
    let elapsed =
      elapsed-restored age later taken.date restored.date restored.perf there.perf aged q in
    let kept : pos_part (pos here.perf -ℤ pos taken.perf) ≡ age + later = omega int_laws in
    let dated : leb_ℤ taken.date (pos 0) ≡ false = rw d (ground arith) in
    rw dated (rw (elapsed, kept))

-- A reading handed to another process that restores it `age` milliseconds after it was taken: there
-- the stamp to send is, at every later instant, the one that the first process would send.
pub next-restore-snapshot :
    (stamp age later written : ℕ) (taken restored here there : Now) (c fresh : DeviceClock)
    → taken.date ≡ pos (written + 1)
    → restored.date ≡ pos (written + 1 + age)
    → here.perf ≡ taken.perf + age + later
    → there.perf ≡ restored.perf + later
    → (state : StampState) × (snapshot (sync stamp taken c) ≡ some state)
      × (next there (restore state restored fresh) ≡ next here (sync stamp taken c))
unfolding snapshot sync next
next-restore-snapshot stamp age later written taken restored here there c fresh d e p q = (
  record { stamp = stamp; updated_at = taken.date },
  refl,
  next-restore stamp age later written taken restored here there fresh d e p q,
)
