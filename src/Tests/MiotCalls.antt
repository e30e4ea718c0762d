-- ===== src/Tests/MiotCalls.antt =====
-- Exchanges and commands against a scripted network (packages/miot-device/src/MiotTransport.ts,
-- MiotDevice.ts).
use homelab_apps.Prelude.{
  ℕ, ◌+◌, ◌≤◌, ◌≡◌, ◌⊎◌, inl, inr, refl, true, false, Bool, Option, none, some, String, List, [],
  ◌∷◌, length, is_some,
}
use homelab_apps.Prelude.Int.{ℤ, pos, negsuc}
use homelab_apps.Miot.Error.{
  Thrown, Attempt, returned, threw, plain_error, miot_error, MiotMethod, after_stamp_refresh,
}
use homelab_apps.Miot.Clock
use homelab_apps.Miot.Clock.{Now, DeviceClock}
use homelab_apps.Miot.Packet.{Bytes, Value, Payload, read}
use homelab_apps.Miot.Exchange.{
  Event, message, fired, socket_error, send_done, opened, step, run, exchange,
}
use homelab_apps.Miot.Exchange.Settling.{first_verdict, run-settles, exchange-eq-first_verdict}
use homelab_apps.Miot.Io.{World, Reply, Io}
use homelab_apps.Miot.Transport.{
  DiscoverResult, MiotResponse, array, property_error, timeout_error, get_all, set_property,
  send_command, send_hello, MiotPropertyResult,
}
use homelab_apps.Miot.Transport.Calls.{Names, send_command_fails}
use homelab_apps.Miot.Device.{run_cached, run_with_fresh_stamp, device_set_property, load_stamp}
use homelab_apps.Miot.Device.Retry.{run_cached-outcome}
use homelab_apps.Miot.Device.Commands.{
  FailsAs, device_set_property_fails, length-device_set_property,
}
use homelab_apps.Tests.MiotPackets.{toy, token, answer}

abbrev start : Now
start = record { perf = 5000; date = pos 900000 }

-- Two datagrams and a late socket error, into an exchange that counts the bytes it is given.
abbrev events : List Event
events =
    send_done none
    ∷ message start (1 ∷ 2 ∷ [])
    ∷ message start []
    ∷ socket_error (plain_error "late")
    ∷ []

abbrev counting : Now → Bytes → ℕ → Attempt ℕ × ℕ
counting now msg s = (returned (length msg), s + 1)

run-settles_example :
    let k =
      step counting
        (plain_error "timeout")
        (λ e. e)
        fired
        (run counting (plain_error "timeout") (λ e. e) events (opened 0)) in
    (k.settled ≡ true) × (k.closes ≡ 1) × (is_some k.outcome ≡ true)
run-settles_example = run-settles counting (plain_error "timeout") (λ e. e) events 0

exchange_example :
    exchange counting (plain_error "timeout") (λ e. e) events 0
    ≡ first_verdict counting (plain_error "timeout") (λ e. e) events 0
exchange_example = exchange-eq-first_verdict counting (plain_error "timeout") (λ e. e) events 0

-- The device answers every request with one item.
abbrev item : MiotPropertyResult
item = record { siid = some 2; piid = some 1; value = none; code = some (pos 0) }

abbrev accepting : Bytes → Attempt (Option MiotResponse)
accepting b = returned (some (record { id = 1; result = array (item ∷ []); error = none }))

abbrev refusing : Bytes → Attempt (Option MiotResponse)
refusing b = returned (
    some (record {
      id = 1;
      result = array (record item { code = some (negsuc 4003) } ∷ []);
      error = none;
    }))

abbrev reply : Reply
reply = record { events = message start answer ∷ []; back = start }

abbrev world : World
world = record {
  clock = record {
    reading = some (record { stamp = 35501; at = pos 5000; updated_at = pos 900000 });
  };
  device_id = some 1234;
  has_store = false;
  now = start;
  network = reply ∷ reply ∷ reply ∷ [];
  store = [];
  sent = [];
  stored = [];
}

abbrev silent : World
silent = record world { network = [] }

-- A proof that unfolds this runs the whole client.
running : ℕ
unfolding get_all send_command set_property send_hello Clock.next Clock.next_from
    homelab_apps.Prelude.Int.◌-ℤ◌ Clock.observe Clock.sync Clock.synced Clock.snapshot Clock.reset
    homelab_apps.Miot.Error.new_miot_error homelab_apps.Miot.Exchange.done run step exchange
    timeout_error load_stamp run_cached run_with_fresh_stamp device_set_property property_error
    homelab_apps.Miot.Transport.next_stamp homelab_apps.Miot.Transport.command_bytes
    homelab_apps.Miot.Transport.transmit homelab_apps.Miot.Transport.answer_command
    homelab_apps.Miot.Transport.answer_hello homelab_apps.Miot.Transport.packet_json
    homelab_apps.Miot.Transport.answer_json homelab_apps.Miot.Transport.all_items
    homelab_apps.Miot.Transport.first_item homelab_apps.Miot.Transport.is_refused
    homelab_apps.Miot.Transport.item_code homelab_apps.Miot.Transport.item_value
    homelab_apps.Miot.Transport.require_item homelab_apps.Miot.Transport.wrap_transport_error
    homelab_apps.Miot.Transport.empty_error homelab_apps.Miot.Transport.envelope_error
    homelab_apps.Miot.Packet.new_outgoing homelab_apps.Miot.Packet.raw
    homelab_apps.Miot.Packet.new_incoming homelab_apps.Miot.Packet.parse_and_decrypt
    homelab_apps.Miot.Packet.decrypt_checked homelab_apps.Miot.Packet.base_packet
    homelab_apps.Miot.Packet.build_command_packet homelab_apps.Miot.Packet.checksum
    homelab_apps.Miot.Packet.derive_keys homelab_apps.Miot.Packet.hello_header
    homelab_apps.Miot.Packet.packet_digest homelab_apps.Miot.Packet.stamp
    homelab_apps.Miot.Packet.token_bytes homelab_apps.Miot.Packet.with_id
    homelab_apps.Miot.Packet.write_field homelab_apps.Miot.Packet.write_u16
    homelab_apps.Miot.Packet.write_u32 homelab_apps.Miot.Packet.parse_hello
    homelab_apps.Miot.Packet.device_id homelab_apps.Miot.Device.attempt
    homelab_apps.Miot.Device.failure_of homelab_apps.Miot.Device.sync_clock
    homelab_apps.Miot.Device.reset_clock homelab_apps.Miot.Device.persist_stamp_safely
    homelab_apps.Miot.Device.persist_stamp homelab_apps.Miot.Device.restore_clock
    homelab_apps.Miot.Device.read_store homelab_apps.Miot.Device.require_device_id
    homelab_apps.Miot.Device.run_with_stamp_exclusive
running = 0

two_reads :
    (get_all toy accepting "device" token 1234 ((2, 1) ∷ (2, 2) ∷ []) world).0
    ≡ returned (item ∷ item ∷ [])
unfolding running
two_reads = refl

-- The device never answers: both attempts and the handshake wait for their timers.
lost : Thrown
lost = miot_error (timeout_error "Handshake timeout: no response from device" MiotMethod.handshake)

write_lost :
    (device_set_property toy accepting "device" token 2 1 (Value.number (pos 1)) silent).0
    ≡ threw lost
unfolding running lost
write_lost = refl

stamp_loaded : (load_stamp silent).0 ≡ returned tt
unfolding running
stamp_loaded = refl

device_set_property_fails_example :
    FailsAs
      (send_hello toy accepting "device" token)
      MiotMethod.set_properties
      (λ d'. set_property toy accepting "device" token d' 2 1 (Value.number (pos 1)))
      1234
      (load_stamp silent).1
      lost
    × ((t : World)
        → (send_hello toy accepting "device" token t).0 ≡ threw lost
        → Names MiotMethod.handshake lost)
device_set_property_fails_example =
    device_set_property_fails toy accepting "device" token 2 1 1234 (Value.number (pos 1)) silent
      lost refl stamp_loaded write_lost

length-device_set_property_example :
    length (device_set_property toy refusing "device" token 2 1 (Value.number (pos 1)) world).1.sent
    ≤ length world.sent + 3
length-device_set_property_example =
    length-device_set_property toy refusing "device" token 2 1 (Value.number (pos 1)) world

abbrev payload : Payload
payload = record { id = none; method = MiotMethod.get_properties; params = read "1234" 2 1 }

-- Without a reading of the clock the request fails before a packet leaves.
abbrev unsynced_world : World
unsynced_world = record world { clock = record { reading = none } }

request_refused :
    (send_command toy accepting "device" token 1234 payload unsynced_world).0
    ≡ threw (plain_error "Device clock is not synced. Handshake first.")
unfolding running
request_refused = refl

send_command_fails_example :
    Names MiotMethod.get_properties (plain_error "Device clock is not synced. Handshake first.")
    ⊎ ((send_command toy accepting "device" token 1234 payload unsynced_world).1 ≡ unsynced_world)
send_command_fails_example =
    send_command_fails toy accepting "device" token 1234 payload unsynced_world
      (plain_error "Device clock is not synced. Handshake first.") request_refused

-- The write that is sent with a cached reading.
abbrev write_one : ℕ → Io (Unit {0})
write_one d = set_property toy refusing "device" token d 2 1 (Value.number (pos 1))

abbrev greet : Io DiscoverResult
greet = send_hello toy refusing "device" token

has_reading : Clock.synced world.clock ≡ true
unfolding Clock.synced
has_reading = refl

run_cached-outcome_example :
    ((a : Unit {0}) × ((write_one 1234 world).0 ≡ returned a)
      × ((run_cached greet MiotMethod.set_properties write_one 1234 world).0 ≡ returned a)
      × ((run_cached greet MiotMethod.set_properties write_one 1234 world).1.sent
          ≡ (write_one 1234 world).1.sent))
    ⊎ ((first : Thrown) × ((write_one 1234 world).0 ≡ threw first)
        × (run_cached greet MiotMethod.set_properties write_one 1234 world
            ≡ run_with_fresh_stamp greet MiotMethod.set_properties write_one 1234 true
                (record (write_one 1234 world).1 {
                  clock = Clock.reset (write_one 1234 world).1.clock;
                })))
run_cached-outcome_example =
    run_cached-outcome greet MiotMethod.set_properties write_one 1234 world has_reading
