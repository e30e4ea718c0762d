-- ===== src/Bridge/Dispatch/Turn.antt =====
-- A waiting notification gets its turn: the timer is armed while the client is connected.
use homelab_apps.Prelude.{
  ℕ, ◌+◌, ◌≤◌, ◌≡◌, refl, inl, inr, Bool, true, false, ◌&&◌, Option, none, some, List, [], ◌∷◌,
  arith, ltb, if◌then◌else◌, Bool-cases, is_some,
}
use homelab_apps.Bridge.Dispatch.{
  QueuedNotification, Observation, Dispatcher, Settings, interval, timeout, delay_of, clear_timer,
  publish_head, schedule_from, schedule_next, publish_next, publish_from, enqueue, receive,
  on_reconnect, on_connect, on_close, on_destroy, new_dispatcher, place,
}
use homelab_apps.Bridge.Dispatch.Reach.{Reach, boot, received, fired, connected, closed, destroyed}

-- The timer is due within an interval.
abbrev Soon : ℕ → ℕ → Option ℕ → Type 0
Soon i now none = Unit
Soon i now (some due) = due ≤ now + i

abbrev Past : ℕ → Option ℕ → Type 0
Past now none = Unit
Past now (some last) = last ≤ now

-- What waits has a timer.
abbrev Armed : {Q : Type 0} → List Q → Option ℕ → Type 0
Armed [] timer = Unit
Armed (x ∷ queue) none = ⊥
Armed (x ∷ queue) (some due) = Unit

Soon-later : (i t now : ℕ) (timer : Option ℕ) → t ≤ now → Soon i t timer → Soon i now timer
Soon-later i t now none le h = tt
Soon-later i t now (some due) le h = omega arith

Past-later : (t now : ℕ) (last : Option ℕ) → t ≤ now → Past t last → Past now last
Past-later t now none le h = tt
Past-later t now (some last) le h = omega arith

Armed-some :
    {Q : Type 0} (queue : List Q) (timer : Option ℕ) → is_some timer ≡ true → Armed queue timer
Armed-some [] timer h = tt
Armed-some (x ∷ queue) none h = cc
Armed-some (x ∷ queue) (some due) h = tt

timeout_soon :
    (s : Settings) (last : Option ℕ) (now : ℕ)
    → Past now last
    → ltb 0 (delay_of s last now) ≡ true
    → now + timeout (delay_of s last now) ≤ now + interval s
unfolding timeout delay_of
timeout_soon s none now p h = cc
timeout_soon s (some last) now p h = ground arith

Armed-due :
    (s : Settings) (now : ℕ) {Q : Type 0} (x : Q) (rest queue : List Q) (timer : Option ℕ)
    → queue ≡ x ∷ rest
    → Armed queue timer
    → Soon (interval s) now timer
    → (due : ℕ) × (timer ≡ some due) × (due ≤ now + interval s)
Armed-due s now x rest [] timer e a h = absurd (cc)
Armed-due s now x rest (y ∷ queue) none e a h = absurd a
Armed-due s now x rest (y ∷ queue) (some due) e a h = (due, refl, h)

module _ {C V : Type 0} (s : Settings) where
  -- `held` says that the client is connected, and, as the service is up, that its handlers ran.
  record Turns (now : ℕ) (held : Bool) (d : Dispatcher C V) : Type 0 where
    past : Past now d.last_publish_at
    soon : Soon (interval s) now d.timer
    armed : held ≡ true → d.connected ≡ true → Armed d.queue d.timer

  publish_head-Turns :
      (again : Dispatcher C V → Dispatcher C V) (now : ℕ) (x : QueuedNotification C V)
      (rest : List (QueuedNotification C V)) (d : Dispatcher C V)
      → ((e : Dispatcher C V)
          → e.queue ≡ rest
          → Past now e.last_publish_at
          → Soon (interval s) now e.timer
          → Turns now true (again e))
      → Past now d.last_publish_at
      → Turns now true (publish_head again now x rest d)
  unfolding publish_head
  publish_head-Turns again now x rest d keep p = elim (Bool-cases d.connected) [
    | inl up ↦ rw (up, publish_head) (keep _ refl (omega arith) tt)
    | inr down ↦
        rw (down, publish_head) (record { past = p; soon = tt; armed = λ _ up. absurd (cc) })
  ]

  schedule_from-Turns :
      (now : ℕ) (q : List (QueuedNotification C V)) (d : Dispatcher C V)
      → d.queue ≡ q
      → Past now d.last_publish_at
      → Soon (interval s) now d.timer
      → Turns now true (schedule_from s now q d)
  unfolding schedule_from
  schedule_from-Turns now [] d e p h = record { past = p; soon = h; armed = λ _ _. rw e tt }
  schedule_from-Turns now (x ∷ q) d e p h = elim (Bool-cases (is_some d.timer)) [
    | inl armed ↦
        rw armed (record { past = p; soon = h; armed = λ _ _. Armed-some d.queue d.timer armed })
    | inr idle ↦ elim (Bool-cases (ltb 0 (delay_of s d.last_publish_at now))) [
      | inl early ↦
          rw (idle, early)
            (record {
              past = p;
              soon = timeout_soon s d.last_publish_at now p early;
              armed = λ _ _.
                  Armed-some d.queue (some (now + timeout (delay_of s d.last_publish_at now))) refl;
            })
      | inr late ↦
          rw (idle, late)
            (publish_head-Turns (schedule_from s now q) now x q d (schedule_from-Turns now q) p)
    ]
  ]

  schedule_next-Turns :
      (now : ℕ) (d : Dispatcher C V)
      → Past now d.last_publish_at
      → Soon (interval s) now d.timer
      → Turns now true (schedule_next s now d)
  unfolding schedule_next
  schedule_next-Turns now d p h = schedule_from-Turns now d.queue d refl p h

  publish_from-Turns :
      (now : ℕ) (q : List (QueuedNotification C V)) (d : Dispatcher C V)
      → d.queue ≡ q
      → Past now d.last_publish_at
      → Turns now true (publish_from s now q d)
  unfolding publish_from
  publish_from-Turns now [] d e p = record { past = p; soon = tt; armed = λ _ _. rw e tt }
  publish_from-Turns now (x ∷ q) d e p =
      publish_head-Turns (schedule_next s now) now x q d
        (λ c eq past soon. schedule_next-Turns now c past soon) p

  listens : (now : ℕ) (d : Dispatcher C V) → Turns now true d → Turns now d.listening d
  listens now d k = record { past = k.past; soon = k.soon; armed = λ _ up. k.armed refl up }

  Turns-later :
      {t : ℕ} (now : ℕ) (d : Dispatcher C V)
      → t ≤ now
      → Turns t d.listening d
      → Turns now d.listening d
  Turns-later {t} now d le k = record {
    past = Past-later t now d.last_publish_at le k.past;
    soon = Soon-later (interval s) t now d.timer le k.soon;
    armed = k.armed;
  }

  enqueue-Turns :
      (now : ℕ) (x : QueuedNotification C V) (d : Dispatcher C V)
      → Turns now d.listening d
      → Turns now true (enqueue s now x d)
  unfolding enqueue
  enqueue-Turns now x d k =
      schedule_next-Turns now (record d { queue = place x d.queue }) k.past k.soon

  receive-Turns :
      (now : ℕ) (context : C) (event : Observation V) (d : Dispatcher C V)
      → Turns now d.listening d
      → Turns now (receive s now context event d).listening (receive s now context event d)
  unfolding receive
  receive-Turns now context event d k = elim (Bool-cases (s.enabled && s.has_client)) [
    | inl on ↦ rw on (listens now (enqueue s now _ d) (enqueue-Turns now _ d k))
    | inr off ↦ rw off k
  ]

  on_connect-Turns :
      {t : ℕ} (now : ℕ) (d : Dispatcher C V)
      → t ≤ now
      → Turns t d.listening d
      → Turns now (on_connect s now d).listening (on_connect s now d)
  unfolding on_connect on_reconnect clear_timer
  on_connect-Turns {t} now d le k =
      let up : Dispatcher C V = record d { connected = true } in
      let after : Bool → Dispatcher C V = λ b. if b then on_reconnect s now up else up in
      elim d.listening as (λ b. d.listening ≡ b → Turns now (after b).listening (after b)) [
        | true ↦ (λ on. listens now (on_reconnect s now up) (
            schedule_next-Turns now (record up { timer = none; last_publish_at = some now })
              (omega arith) tt))
        | false ↦ (λ off. record {
          past = Past-later t now d.last_publish_at le k.past;
          soon = Soon-later (interval s) t now d.timer le k.soon;
          armed = λ on. absurd (cc);
        })
      ]
        refl

  Reach-Turns :
      {now : ℕ} {seen : List (Observation V)} {d : Dispatcher C V}
      → Reach s now seen d
      → Turns now d.listening d
  unfolding new_dispatcher on_close on_destroy publish_next clear_timer
  Reach-Turns (boot now up) = record { past = tt; soon = tt; armed = λ _ _. tt }
  Reach-Turns (received {d} now context event r le) =
      receive-Turns now context event d (Turns-later now d le (Reach-Turns r))
  Reach-Turns (fired {t} {d} now due r le armed late) = listens now (publish_next s now d) (
      publish_from-Turns now d.queue d refl
        (Past-later t now d.last_publish_at le (Reach-Turns r).past))
  Reach-Turns (connected {d} now r le) = on_connect-Turns now d le (Reach-Turns r)
  Reach-Turns (closed {t} {d} now r le) =
      let k = Reach-Turns r in
      record {
        past = Past-later t now d.last_publish_at le k.past;
        soon = Soon-later (interval s) t now d.timer le k.soon;
        armed = λ _ up. absurd (cc);
      }
  Reach-Turns (destroyed {t} {d} now r le) = record {
    past = Past-later t now d.last_publish_at le (Reach-Turns r).past;
    soon = tt;
    armed = λ _ _. tt;
  }

  -- In any history, while the service is up and its client is connected, a notification that waits has a
  -- timer, and it is due within the publish interval.
  pub Reach-Armed :
      {now : ℕ} {seen : List (Observation V)} {d : Dispatcher C V} {x : QueuedNotification C V}
      {rest : List (QueuedNotification C V)}
      → Reach s now seen d
      → d.listening ≡ true
      → d.connected ≡ true
      → d.queue ≡ x ∷ rest
      → (due : ℕ) × (d.timer ≡ some due) × (due ≤ now + interval s)
  Reach-Armed {now} {d} {x} {rest} r on up waits =
      let k = Reach-Turns r in Armed-due s now x rest d.queue d.timer waits (k.armed on up) k.soon
