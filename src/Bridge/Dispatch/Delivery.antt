-- ===== src/Bridge/Dispatch/Delivery.antt =====
-- What the queue of notifications delivers, as a map from properties to values: an observation writes
-- the map, and nothing else changes it.
use homelab_apps.Prelude.{
  ℕ, ◌≡◌, refl, sym, ap, ◌∙◌, inl, inr, true, false, ◌&&◌, Option, none, some, List, [], ◌∷◌, arith,
  ltb, ◌==◌, if◌then◌else◌, Bool-cases, is_some, first_of,
}
use homelab_apps.Prelude.Text.{Units, units_eq}
use homelab_apps.Bridge.Dispatch.Reach.{Reach, boot, received, fired, connected, closed, destroyed}
use mathlib.Core.Path.{subst}
use homelab_apps.Bridge.Dispatch.{
  QueuedNotification, Observation, Dispatcher, Settings, clear_timer, publish_head, schedule_from,
  schedule_next, publish_from, place, enqueue, on_reconnect, on_connect, delay_of, ℕ, List, Option,
  ◌∷◌, none, some, receive, new_dispatcher, payload_of, on_close, on_destroy, publish_next,
}
use homelab_apps.Bridge.Dispatch.Waiting.{
  last_observed, waiting, last_sent, delivered, DistinctKeys, waiting-place, place-DistinctKeys,
  publish_delivered,
}

module _ {C V : Type 0} (s : Settings) where
  record Keeps (id : ℕ) (key : Units) (d e : Dispatcher C V) : Type 0 where
    same : delivered id key e ≡ delivered id key d
    listening : e.listening ≡ d.listening
    distinct : DistinctKeys e.queue

  module _ (id : ℕ) (key : Units) where
    publish_head-Keeps :
        (again : Dispatcher C V → Dispatcher C V) (now : ℕ) (x : QueuedNotification C V)
        (rest : List (QueuedNotification C V)) (d : Dispatcher C V)
        → ((e : Dispatcher C V) → e.queue ≡ rest → Keeps id key e (again e))
        → d.queue ≡ x ∷ rest
        → DistinctKeys (x ∷ rest)
        → Keeps id key d (publish_head again now x rest d)
    unfolding publish_head
    publish_head-Keeps again now x rest d keep e h =
        let sent_next : Dispatcher C V = record d {
          queue = rest;
          timer = none;
          last_publish_at = some now;
          sent = (now, x) ∷ d.sent;
        } in
        elim (Bool-cases d.connected) [
          | inl up ↦
              rw (up, publish_head)
                (record {
                  same =
                      (keep sent_next refl).same
                      ∙ publish_delivered id key x rest (last_sent id key d.sent) h.0
                      ∙ ap (λ q. first_of (waiting id key q) (last_sent id key d.sent)) (sym e);
                  listening = (keep sent_next refl).listening;
                  distinct = (keep sent_next refl).distinct;
                })
          | inr down ↦
              rw (down, publish_head) (record { same = refl; listening = refl; distinct = rw e h })
        ]

    schedule_from-Keeps :
        (now : ℕ) (q : List (QueuedNotification C V)) (d : Dispatcher C V)
        → d.queue ≡ q
        → DistinctKeys q
        → Keeps id key d (schedule_from s now q d)
    unfolding schedule_from
    schedule_from-Keeps now [] d e h = record { same = refl; listening = refl; distinct = rw e tt }
    schedule_from-Keeps now (x ∷ q) d e h = elim (Bool-cases (is_some d.timer)) [
      | inl armed ↦ rw armed (record { same = refl; listening = refl; distinct = rw e h })
      | inr idle ↦ elim (Bool-cases (ltb 0 (delay_of s d.last_publish_at now))) [
        | inl early ↦ rw (idle, early) (record { same = refl; listening = refl; distinct = rw e h })
        | inr late ↦
            rw (idle, late)
              (publish_head-Keeps (schedule_from s now q) now x q d
                (λ c eq. schedule_from-Keeps now q c eq h.1) e h)
      ]
    ]

    schedule_next-Keeps :
        (now : ℕ) (d : Dispatcher C V)
        → DistinctKeys d.queue
        → Keeps id key d (schedule_next s now d)
    unfolding schedule_next
    schedule_next-Keeps now d h = schedule_from-Keeps now d.queue d refl h

    publish_from-Keeps :
        (now : ℕ) (q : List (QueuedNotification C V)) (d : Dispatcher C V)
        → d.queue ≡ q
        → DistinctKeys q
        → Keeps id key d (publish_from s now q d)
    unfolding publish_from
    publish_from-Keeps now [] d e h = record { same = refl; listening = refl; distinct = rw e tt }
    publish_from-Keeps now (x ∷ q) d e h =
        publish_head-Keeps (schedule_next s now) now x q d
          (λ c eq. schedule_next-Keeps now c (rw eq h.1)) e h

    -- An observation writes its value under its property.
    enqueue-Keeps :
        (now : ℕ) (x : QueuedNotification C V) (d : Dispatcher C V)
        → DistinctKeys d.queue
        → Keeps id key (record d { queue = place x d.queue }) (enqueue s now x d)
    unfolding enqueue
    enqueue-Keeps now x d h =
        schedule_next-Keeps now (record d { queue = place x d.queue })
          (place-DistinctKeys x d.queue h)

    on_connect-Keeps :
        (now : ℕ) (d : Dispatcher C V) → DistinctKeys d.queue → Keeps id key d (on_connect s now d)
    unfolding on_connect on_reconnect clear_timer
    on_connect-Keeps now d h =
        let up : Dispatcher C V = record d { connected = true } in
        elim d.listening as (λ b. Keeps id key d (if b then on_reconnect s now up else up)) [
          | true ↦
              (let k : Keeps id key (record up { timer = none; last_publish_at = some now })
                    (on_reconnect s now up) =
                  schedule_next-Keeps now (record up { timer = none; last_publish_at = some now })
                    h in
                record { same = k.same; listening = k.listening; distinct = k.distinct })
          | false ↦ record { same = refl; listening = refl; distinct = h }
        ]

  placed :
      (id : ℕ) (key : Units) (x : QueuedNotification C V) (d : Dispatcher C V) (old : Option V)
      → delivered id key d ≡ old
      → delivered id key (record d { queue = place x d.queue }) ≡ (
          if x.payload.device_id == id && units_eq x.payload.property key
          then some x.payload.value
          else old)
  placed id key x d old e = ground (arith, waiting-place id key x d.queue)

  module _ (on : s.enabled ≡ true) (client : s.has_client ≡ true) (id : ℕ) (key : Units) where
    -- What holds while the service is up.
    record Delivers (seen : List (Observation V)) (d : Dispatcher C V) : Type 0 where
      distinct : DistinctKeys d.queue
      up_to_date : d.listening ≡ true → delivered id key d ≡ last_observed id key seen

    receive_on :
        (now : ℕ) (context : C) (event : Observation V) (d : Dispatcher C V)
        → receive s now context event d
          ≡ enqueue s now (record { payload = payload_of event; context = context }) d
    unfolding receive
    receive_on now context event d =
        let both : (s.enabled && s.has_client) ≡ true = ground arith in rw both refl

    received-Delivers :
        (now : ℕ) (context : C) (event : Observation V) (seen : List (Observation V))
        (d : Dispatcher C V)
        → Delivers seen d
        → Delivers (event ∷ seen) (receive s now context event d)
    unfolding payload_of
    received-Delivers now context event seen d v =
        let x : QueuedNotification C V = record { payload = payload_of event; context = context } in
        let k : Keeps id key (record d { queue = place x d.queue }) (enqueue s now x d) =
          enqueue-Keeps id key now x d v.distinct in
        subst (Delivers (event ∷ seen)) (sym (receive_on now context event d)) (record {
          distinct = k.distinct;
          up_to_date = λ l. k.same ∙ placed id key x d _ (v.up_to_date (sym k.listening ∙ l));
        })

    Keeps-Delivers :
        (seen : List (Observation V)) (d e : Dispatcher C V)
        → Keeps id key d e
        → Delivers seen d
        → Delivers seen e
    Keeps-Delivers seen d e k v = record {
      distinct = k.distinct;
      up_to_date = λ l. k.same ∙ v.up_to_date (sym k.listening ∙ l);
    }

    Reach-Delivers :
        {now : ℕ} {seen : List (Observation V)} {d : Dispatcher C V}
        → Reach s now seen d
        → Delivers seen d
    unfolding new_dispatcher on_close on_destroy publish_next clear_timer
    Reach-Delivers (boot now up) = record { distinct = tt; up_to_date = λ _. refl }
    Reach-Delivers (received {seen} {d} now context event r le) =
        received-Delivers now context event seen d (Reach-Delivers r)
    Reach-Delivers (fired {seen} {d} now due r le armed late) =
        let v = Reach-Delivers r in
        Keeps-Delivers seen d (publish_next s now d)
          (publish_from-Keeps id key now d.queue d refl v.distinct) v
    Reach-Delivers (connected {seen} {d} now r le) =
        let v = Reach-Delivers r in
        Keeps-Delivers seen d (on_connect s now d) (on_connect-Keeps id key now d v.distinct) v
    Reach-Delivers (closed {seen} {d} now r le) =
        let v = Reach-Delivers r in
        Keeps-Delivers seen d (on_close d)
          (record { same = refl; listening = refl; distinct = v.distinct }) v
    Reach-Delivers (destroyed {seen} {d} now r le) = record {
      distinct = tt;
      up_to_date = λ l. absurd (cc);
    }

    -- In any history, until the service is destroyed, the value of a property that waits, or else the one
    -- sent last, is the value observed last, where notifications are enabled and there is a client.
    pub Reach-delivered :
        {now : ℕ} {seen : List (Observation V)} {d : Dispatcher C V}
        → Reach s now seen d
        → d.listening ≡ true
        → delivered id key d ≡ last_observed id key seen
    Reach-delivered r l = (Reach-Delivers r).up_to_date l
