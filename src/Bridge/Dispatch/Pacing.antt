-- ===== src/Bridge/Dispatch/Pacing.antt =====
-- The gap between two publishes, and when a waiting notification gets its turn.
use homelab_apps.Prelude.{
  ℕ, ◌≤◌, ◌≡◌, true, false, none, some, List, [], ◌∷◌, arith, if◌then◌else◌, Bool-cases, inl, inr,
  is_some, ltb, ◌&&◌,
}
use homelab_apps.Bridge.Dispatch.{
  QueuedNotification, Dispatcher, Settings, interval, max_timeout, delay_of, clear_timer,
  publish_head, schedule_from, schedule_next, publish_next, publish_from, place, enqueue, receive,
  on_reconnect, on_connect, on_close, on_destroy, new_dispatcher, ltb, Observation,
}
use homelab_apps.Bridge.Dispatch.Reach.{Reach, boot, received, fired, connected, closed, destroyed}
use homelab_apps.Bridge.Dispatch.Intervals.{
  Elapsed, Due, LastBy, SentBy, Paced, After-last, Elapsed-at-Due, SentBy-now,
  Elapsed-without_delay, Due-after_timeout, LastBy-later,
}

module _ {C V : Type 0} (s : Settings) where
  record IsPaced (now : ℕ) (d : Dispatcher C V) : Type 0 where
    due : Due (interval s) d.timer d.last_publish_at
    last_by : LastBy now d.last_publish_at
    sent_by : SentBy d.last_publish_at d.sent
    paced : Paced (interval s) d.sent

  IsPaced-later : {t now : ℕ} {d : Dispatcher C V} → t ≤ now → IsPaced t d → IsPaced now d
  IsPaced-later {t} {now} {d} le p = record {
    due = p.due;
    last_by = LastBy-later t now d.last_publish_at le p.last_by;
    sent_by = p.sent_by;
    paced = p.paced;
  }

  -- What publish_head passes on to scheduleNext.
  published :
      (now : ℕ) (next : QueuedNotification C V) (rest : List (QueuedNotification C V))
      (d : Dispatcher C V)
      → Elapsed (interval s) now d.last_publish_at
      → IsPaced now d
      → IsPaced now (record d {
        queue = rest;
        timer = none;
        last_publish_at = some now;
        sent = (now, next) ∷ d.sent;
      })
  published now next rest d e p = record {
    due = tt;
    last_by = omega arith;
    sent_by = omega arith;
    paced = (After-last (interval s) now d.last_publish_at d.sent e p.sent_by, p.paced);
  }

  untimed : (now : ℕ) (d : Dispatcher C V) → IsPaced now d → IsPaced now (record d { timer = none })
  untimed now d p = record { due = tt; last_by = p.last_by; sent_by = p.sent_by; paced = p.paced }

  requeued :
      (now : ℕ) (queue : List (QueuedNotification C V)) (d : Dispatcher C V)
      → IsPaced now d
      → IsPaced now (record d { queue = queue })
  requeued now queue d p = record {
    due = p.due;
    last_by = p.last_by;
    sent_by = p.sent_by;
    paced = p.paced;
  }

  reconnected :
      (now : ℕ) (d : Dispatcher C V) → IsPaced now d → IsPaced now (record d { connected = true })
  reconnected now d p = record {
    due = p.due;
    last_by = p.last_by;
    sent_by = p.sent_by;
    paced = p.paced;
  }

  closed-IsPaced :
      (now : ℕ) (d : Dispatcher C V) → IsPaced now d → IsPaced now (record d { connected = false })
  closed-IsPaced now d p = record {
    due = p.due;
    last_by = p.last_by;
    sent_by = p.sent_by;
    paced = p.paced;
  }

  destroyed-IsPaced :
      (now : ℕ) (d : Dispatcher C V)
      → IsPaced now d
      → IsPaced now (record d { timer = none; listening = false; queue = [] })
  destroyed-IsPaced now d p = record {
    due = tt;
    last_by = p.last_by;
    sent_by = p.sent_by;
    paced = p.paced;
  }

  -- publishNext, when its turn has come
  publish_head-IsPaced :
      (again : Dispatcher C V → Dispatcher C V) (now : ℕ) (next : QueuedNotification C V)
      (rest : List (QueuedNotification C V)) (d : Dispatcher C V)
      → ((e : Dispatcher C V) → IsPaced now e → IsPaced now (again e))
      → Elapsed (interval s) now d.last_publish_at
      → IsPaced now d
      → IsPaced now (publish_head again now next rest d)
  unfolding publish_head
  publish_head-IsPaced again now next rest d keep e p = elim (Bool-cases d.connected) [
    | inl up ↦ rw (up, publish_head) (keep _ (published now next rest d e p))
    | inr down ↦ rw (down, publish_head) (untimed now d p)
  ]

  module _ (fits : interval s ≤ max_timeout) where
    schedule_from-IsPaced :
        (now : ℕ) (q : List (QueuedNotification C V)) (d : Dispatcher C V)
        → IsPaced now d
        → IsPaced now (schedule_from s now q d)
    unfolding schedule_from
    schedule_from-IsPaced now [] d p = p
    schedule_from-IsPaced now (x ∷ q) d p = elim (Bool-cases (is_some d.timer)) [
      | inl armed ↦ rw armed p
      | inr idle ↦ elim (Bool-cases (ltb 0 (delay_of s d.last_publish_at now))) [
        | inl early ↦
            rw (idle, early)
              (record {
                due = Due-after_timeout s now d.last_publish_at fits p.last_by;
                last_by = p.last_by;
                sent_by = p.sent_by;
                paced = p.paced;
              })
        | inr late ↦
            rw (idle, late)
              (publish_head-IsPaced (schedule_from s now q) now x q d (schedule_from-IsPaced now q)
                (Elapsed-without_delay s now d.last_publish_at late) p)
      ]
    ]

    schedule_next-IsPaced :
        (now : ℕ) (d : Dispatcher C V) → IsPaced now d → IsPaced now (schedule_next s now d)
    unfolding schedule_next
    schedule_next-IsPaced now d p = schedule_from-IsPaced now d.queue d p

    publish_from-IsPaced :
        (now due : ℕ) (q : List (QueuedNotification C V)) (d : Dispatcher C V)
        → d.timer ≡ some due
        → due ≤ now
        → IsPaced now d
        → IsPaced now (publish_from s now q d)
    unfolding publish_from
    publish_from-IsPaced now due [] d armed le p = untimed now d p
    publish_from-IsPaced now due (x ∷ q) d armed le p =
        publish_head-IsPaced (schedule_next s now) now x q d (schedule_next-IsPaced now)
          (Elapsed-at-Due (interval s) now due d.timer d.last_publish_at armed le p.due) p

    enqueue-IsPaced :
        (now : ℕ) (queued : QueuedNotification C V) (d : Dispatcher C V)
        → IsPaced now d
        → IsPaced now (enqueue s now queued d)
    unfolding enqueue
    enqueue-IsPaced now queued d p =
        schedule_next-IsPaced now (record d { queue = place queued d.queue })
          (requeued now (place queued d.queue) d p)

    receive-IsPaced :
        (now : ℕ) (context : C) (event : Observation V) (d : Dispatcher C V)
        → IsPaced now d
        → IsPaced now (receive s now context event d)
    unfolding receive
    receive-IsPaced now context event d p = elim (Bool-cases (s.enabled && s.has_client)) [
      | inl on ↦ rw on (enqueue-IsPaced now _ d p)
      | inr off ↦ rw off p
    ]

    on_reconnect-IsPaced :
        {t : ℕ} (now : ℕ) (d : Dispatcher C V)
        → t ≤ now
        → IsPaced t d
        → IsPaced now (on_reconnect s now d)
    unfolding on_reconnect clear_timer
    on_reconnect-IsPaced {t} now d le p =
        schedule_next-IsPaced now (record d { timer = none; last_publish_at = some now })
          (record {
            due = tt;
            last_by = omega arith;
            sent_by = SentBy-now t now d.last_publish_at d.sent le p.last_by p.sent_by;
            paced = p.paced;
          })

    on_connect-IsPaced :
        {t : ℕ} (now : ℕ) (d : Dispatcher C V)
        → t ≤ now
        → IsPaced t d
        → IsPaced now (on_connect s now d)
    unfolding on_connect
    on_connect-IsPaced {t} now d le p =
        let up : Dispatcher C V = record d { connected = true } in
        elim d.listening as (λ b. IsPaced now (if b then on_reconnect s now up else up)) [
          | true ↦ on_reconnect-IsPaced now up le (reconnected t d p)
          | false ↦ reconnected now d (IsPaced-later le p)
        ]

    Reach-IsPaced :
        {now : ℕ} {seen : List (Observation V)} {d : Dispatcher C V}
        → Reach s now seen d
        → IsPaced now d
    unfolding new_dispatcher on_close on_destroy publish_next clear_timer
    Reach-IsPaced (boot now up) = record { due = tt; last_by = tt; sent_by = tt; paced = tt }
    Reach-IsPaced (received {d} now context event r le) =
        receive-IsPaced now context event d (IsPaced-later le (Reach-IsPaced r))
    Reach-IsPaced (fired {d} now due r le armed late) =
        publish_from-IsPaced now due d.queue d armed late (IsPaced-later le (Reach-IsPaced r))
    Reach-IsPaced (connected {d} now r le) = on_connect-IsPaced now d le (Reach-IsPaced r)
    Reach-IsPaced (closed {d} now r le) = closed-IsPaced now d (IsPaced-later le (Reach-IsPaced r))
    Reach-IsPaced (destroyed {d} now r le) =
        destroyed-IsPaced now d (IsPaced-later le (Reach-IsPaced r))

    -- In any history, two publishes that follow one another are at least the publish interval apart, for
    -- an interval that a timer can wait.
    pub Reach-Paced :
        {now : ℕ} {seen : List (Observation V)} {d : Dispatcher C V}
        → Reach s now seen d
        → Paced (interval s) d.sent
    Reach-Paced r = (Reach-IsPaced r).paced
