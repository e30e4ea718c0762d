-- ===== src/Miot/Transport.antt =====
-- The calls of the UDP transport (packages/miot-device/src/MiotTransport.ts). The log lines are left
-- out. The address and the token are parameters, as is what JSON.parse makes of a response body.
pub mod Calls
pub mod Responses
unfoldable pub use Responses.*
use homelab_apps.Prelude.{
  ℕ, ◌+◌, Bool, true, false, not, ◌&&◌, ◌||◌, Option, none, some, String, List, [], ◌∷◌, ◌++◌, map,
  if◌then◌else◌, suc, replicate,
}
use homelab_apps.Prelude.Int.{ℤ, pos, pos_part, eqb_ℤ}
use homelab_apps.Prelude.Text.{◌<>◌, show, show_ℤ}
use homelab_apps.Miot.Error.{
  Thrown, Attempt, returned, threw, miot_error, plain_error, reason_of, new_miot_error, MiotError,
  MiotErrorKind, MiotMethod, timeout, device_error, transport_error, handshake, get_properties,
  set_properties, action, no_cause, caused_by,
}
use homelab_apps.Miot.Clock.{Now, DeviceClock, next, observe}
use homelab_apps.Miot.Packet.{
  Bytes, Crypto, Token, Value, Payload, Params, read, write, act, strip_nuls, OutgoingPacketConfig,
  new_outgoing, raw, IncomingPacket, new_incoming, parse_hello, stamp,
}
use homelab_apps.Miot.Exchange.{Event, exchange}
use homelab_apps.Miot.Io.{World, Io, pure, raise, ◌>>=◌, ◌>>◌, lift, next_reply, rest, Reply}

module _ (c : Crypto) (parse : Bytes → Attempt (Option MiotResponse)) (address : String)
    (token : Token) where
  -- the `message` handler of handshake, up to settling the promise
  unfoldable pub answer_hello : Now → Bytes → DeviceClock → Attempt DiscoverResult × DeviceClock
  answer_hello now msg clock = elim (parse_hello msg) [
    | returned info ↦ (returned (record { device_id = info.device_id; stamp = info.stamp }), clock)
    | threw e ↦ (threw (miot_error (wrap_transport_error handshake e)), clock)
  ]

  -- packet.json
  unfoldable pub packet_json : IncomingPacket → Attempt (Option MiotResponse)
  packet_json p = elim p.payload [ none ↦ returned none | some bytes ↦ parse (strip_nuls bytes) ]

  -- what the handler of sendCommand does with a parsed body
  unfoldable pub answer_json :
      MiotMethod → Now → ℕ → Option MiotResponse → DeviceClock → Attempt MiotResponse × DeviceClock
  answer_json w now s none clock = (threw (miot_error (empty_error w)), clock)
  answer_json w now s (some json) clock =
      let observed = observe s now clock in
      elim json.error [
        | some e ↦ (threw (miot_error (envelope_error w e)), observed)
        | none ↦ (returned json, observed)
      ]

  -- the `message` handler of sendCommand, up to settling the promise
  unfoldable pub answer_command :
      MiotMethod → Now → Bytes → DeviceClock → Attempt MiotResponse × DeviceClock
  answer_command w now msg clock = elim (new_incoming c msg token) [
    | threw e ↦ (threw (miot_error (wrap_transport_error w e)), clock)
    | returned packet ↦ elim (packet_json packet) [
      | threw e ↦ (threw (miot_error (wrap_transport_error w e)), clock)
      | returned json ↦ answer_json w now (stamp packet.header) json clock
    ]
  ]

  -- A packet on the wire, and the caller going on with the result of its exchange.
  unfoldable pub transmit {ℓ} :
      {A : Type ℓ} → (List Event → DeviceClock → Attempt A × DeviceClock) → Bytes → Io A
  transmit run bytes w =
      let reply = next_reply w in
      let (result, clock) = run reply.events w.clock in
      (
        result,
        record w {
          clock = clock;
          now = reply.back;
          network = rest w.network;
          sent = w.sent ++ bytes ∷ [];
        },
      )

  -- handshake
  unfoldable pub send_hello : Io DiscoverResult
  send_hello = do
    hello ← lift (new_outgoing c 0 none)
    bytes ← lift (raw c hello)
    transmit
        (exchange answer_hello
          (miot_error (timeout_error ("Handshake timeout: no response from " <> address) handshake))
          (λ e. miot_error (wrap_transport_error handshake e)))
        bytes

  -- `clock.next()`
  unfoldable pub next_stamp : Io ℕ
  next_stamp w = elim (next w.now w.clock) [
    | none ↦ (threw (plain_error "Device clock is not synced. Handshake first."), w)
    | some s ↦ (returned s, w)
  ]

  -- `new OutgoingPacket({ … }).raw`
  unfoldable pub command_bytes : ℕ → ℕ → Payload → Io Bytes
  command_bytes device_id s payload w =
      let config : OutgoingPacketConfig = record {
        token = some token;
        payload = some payload;
        device_id = some device_id;
        stamp = some s;
      } in
      (do packet ← lift (new_outgoing c (pos_part w.now.date) (some config)); lift (raw c packet)) w

  -- sendCommand
  unfoldable pub send_command : ℕ → Payload → Io MiotResponse
  send_command device_id payload = do
    s ← next_stamp
    bytes ← command_bytes device_id s payload
    transmit
        (exchange (answer_command payload.method)
          (miot_error
            (timeout_error ("Command timeout: no response from " <> address) payload.method))
          (λ e. miot_error (wrap_transport_error payload.method e)))
        bytes

  abbrev pub request : MiotMethod → Params → Payload
  request w params = record { id = none; method = w; params = params }

  -- the check that getProperty and setProperty make of their one result item
  unfoldable pub require_item : MiotMethod → Option MiotPropertyResult → Io (Option Value)
  unfolding is_refused item_code item_value
  require_item w item =
      if is_refused item
      then raise (miot_error (property_error w (item_code item)))
      else pure (item_value item)

  -- getProperty
  unfoldable pub get_property : ℕ → ℕ → ℕ → Io (Option Value)
  get_property device_id siid piid = do
    response ← send_command device_id (request get_properties (read (show device_id) siid piid))
    require_item get_properties (first_item response.result)

  -- getProperties
  unfoldable pub get_all : ℕ → List (ℕ × ℕ) → Io (List MiotPropertyResult)
  get_all device_id [] = pure []
  get_all device_id ((siid, piid) ∷ props) = do
    response ← send_command device_id (request get_properties (read (show device_id) siid piid))
    items ← lift (all_items response.result)
    later ← get_all device_id props
    pure (items ++ later)

  -- setProperty
  unfoldable pub set_property : ℕ → ℕ → ℕ → Value → Io (Unit {0})
  set_property device_id siid piid v = do
    response ← send_command device_id (request set_properties (write (show device_id) siid piid v))
    require_item set_properties (first_item response.result)
    pure tt

  -- the check that callAction makes of the answer
  unfoldable pub accept_answer : Answer → Io ActionResult
  accept_answer result = elim (object_code result) [
    | none ↦ pure (record { code = none; result = result })
    | some n ↦
        if eqb_ℤ n (pos 0)
        then pure (record { code = some n; result = result })
        else raise (miot_error (property_error action (some n)))
  ]

  -- callAction
  unfoldable pub call_action : ℕ → ℕ → ℕ → Args → Io ActionResult
  call_action device_id siid aiid args = do
    response ←
        send_command device_id (request action (act (show device_id) siid aiid (action_args args)))
    accept_answer response.result
