-- ===== src/Miot/Transport/Calls.antt =====
-- What a call of the transport sends, and how its failures are classified
-- (packages/miot-device/src/MiotTransport.ts).
use homelab_apps.Miot.Error.{get_properties, set_properties}
use homelab_apps.Miot.Io.{lift, bind-eq-returned, bind_of_threw}
use homelab_apps.Miot.Packet.{read, write}
use homelab_apps.Miot.Transport.{all_items, first_item, is_refused, request, DiscoverResult}
use homelab_apps.Prelude.Text.{show}
use homelab_apps.Prelude.{
  Bool-cases, ℕ, ◌+◌, ◌≤◌, ◌≡◌, ◌⊎◌, inl, inr, refl, false, Option, none, some, String, List, [],
  ◌∷◌, length, arith, ◌∙◌, ap, sym, Option-cases, length-append,
}
use mathlib.Core.Path.{subst}
use homelab_apps.Miot.Error.{
  Thrown, Attempt, returned, threw, miot_error, MiotMethod, method, stamp_refreshed, Attempt-cases,
}
use homelab_apps.Miot.Clock.{DeviceClock, Now}
use homelab_apps.Miot.Packet.{
  Bytes, Crypto, Token, Payload, parse_hello, new_incoming, stamp, new_outgoing, Value, raw,
}
use homelab_apps.Miot.Io.{World, bind-eq-threw, next_reply, bind_of_threw}
use homelab_apps.Miot.Exchange.{Event, message, fired, socket_error, send_done, exchange}
use homelab_apps.Miot.Exchange.Settling.{first_verdict, exchange-eq-first_verdict}
use homelab_apps.Miot.Transport.{
  MiotResponse, send_hello, send_command, get_all, set_property, transmit, answer_hello,
  answer_command, next_stamp, command_bytes, answer_json, wrap_transport_error, timeout_error,
  empty_error, envelope_error, packet_json, ◌<>◌, MiotPropertyResult, require_item,
}

-- A failure that names the wire method, and was not retried.
abbrev pub Names : MiotMethod → Thrown → Type 0
Names w (miot_error e) = (method e ≡ w) × (stamp_refreshed e ≡ false)
Names w _ = ⊥

threw_injective {ℓ} : {A : Type ℓ} (a b : Thrown) → ◌≡◌ {A = Attempt A} (threw a) (threw b) → a ≡ b
threw_injective a b h = cc

-- What threw a failure of one's own making threw no other.
Names-of {ℓ} :
    {A : Type ℓ} (w : MiotMethod) (r : Attempt A) (x e : Thrown)
    → Names w x
    → r ≡ threw x
    → r ≡ threw e
    → Names w e
Names-of w r x e named p q = subst (Names w) (threw_injective x e (sym p ∙ q)) named

-- An exchange fails only by what its handlers make of it.
module _ {S A : Type 0} (answer : Now → Bytes → S → Attempt A × S) (late : Thrown)
    (fail : Thrown → Thrown) (P : Thrown → Type 0) (late_ok : P late)
    (fail_ok : (e : Thrown) → P (fail e))
    (answer_ok : (now : Now) (msg : Bytes) (s : S) (e : Thrown)
      → (answer now msg s).0 ≡ threw e
      → P e) where
  first_verdict_fails :
      (events : List Event) (s : S) (e : Thrown)
      → (first_verdict answer late fail events s).0 ≡ threw e
      → P e
  first_verdict_fails [] s e h = subst P (threw_injective late e h) late_ok
  first_verdict_fails (message now msg ∷ events) s e h = answer_ok now msg s e h
  first_verdict_fails (fired ∷ events) s e h = subst P (threw_injective late e h) late_ok
  first_verdict_fails (socket_error x ∷ events) s e h =
      subst P (threw_injective (fail x) e h) (fail_ok x)
  first_verdict_fails (send_done none ∷ events) s e h = first_verdict_fails events s e h
  first_verdict_fails (send_done (some x) ∷ events) s e h =
      subst P (threw_injective (fail x) e h) (fail_ok x)

module _ (c : Crypto) (parse : Bytes → Attempt (Option MiotResponse)) (address : String)
    (token : Token) where
  answer_hello_fails :
      (now : Now) (msg : Bytes) (clock : DeviceClock) (e : Thrown)
      → (answer_hello c parse address token now msg clock).0 ≡ threw e
      → Names MiotMethod.handshake e
  unfolding answer_hello wrap_transport_error
  answer_hello_fails now msg clock e h = elim (Attempt-cases (parse_hello msg)) [
    | inl (info, p) ↦ (let h' = rw (p, answer_hello) at h in cc)
    | inr (x, p) ↦
        Names-of MiotMethod.handshake _ (miot_error (wrap_transport_error MiotMethod.handshake x)) e
          (refl, refl) (ground arith) h
  ]

  answer_json_fails :
      (w : MiotMethod) (now : Now) (s : ℕ) (json : Option MiotResponse) (clock : DeviceClock)
      (e : Thrown)
      → (answer_json c parse address token w now s json clock).0 ≡ threw e
      → Names w e
  unfolding answer_json empty_error envelope_error
  answer_json_fails w now s none clock e h = Names-of w _ _ e (refl, refl) refl h
  answer_json_fails w now s (some json) clock e h = elim (Option-cases json.error) [
    | inl p ↦ (let h' = rw (p, answer_json) at h in cc)
    | inr (body, p) ↦
        Names-of w _ (miot_error (envelope_error w body)) e (refl, refl) (ground arith) h
  ]

  answer_command_fails :
      (w : MiotMethod) (now : Now) (msg : Bytes) (clock : DeviceClock) (e : Thrown)
      → (answer_command c parse address token w now msg clock).0 ≡ threw e
      → Names w e
  unfolding answer_command wrap_transport_error
  answer_command_fails w now msg clock e h = elim (Attempt-cases (new_incoming c msg token)) [
    | inr (x, p) ↦
        Names-of w _ (miot_error (wrap_transport_error w x)) e (refl, refl) (ground arith) h
    | inl (packet, p) ↦ elim (Attempt-cases (packet_json c parse address token packet)) [
      | inr (x, q) ↦
          Names-of w _ (miot_error (wrap_transport_error w x)) e (refl, refl) (ground arith) h
      | inl (json, q) ↦
          (let same : answer_command c parse address token w now msg clock
                ≡ answer_json c parse address token w now (stamp packet.header) json clock =
              ground arith in
            answer_json_fails w now (stamp packet.header) json clock e
              (ap (λ (r : Attempt MiotResponse × DeviceClock). r.0) (sym same) ∙ h))
    ]
  ]

  -- A packet sent: one more on the wire, and a failure that names the method of the call.
  transmit_fails :
      (w : MiotMethod) (bytes : Bytes) (s : World) (e : Thrown)
      → (transmit c parse address token
          (exchange
            (answer_command c parse address token w)
            (miot_error (timeout_error ("Command timeout: no response from " <> address) w))
            (λ x. miot_error (wrap_transport_error w x)))
          bytes
          s).0
        ≡ threw e
      → Names w e
  unfolding transmit
  transmit_fails w bytes s e h =
      let late = miot_error (timeout_error ("Command timeout: no response from " <> address) w) in
      let fail = λ (x : Thrown). miot_error (wrap_transport_error w x) in
      first_verdict_fails (answer_command c parse address token w) late fail (Names w)
        (unfold timeout_error in (refl, refl)) (λ x. unfold wrap_transport_error in (refl, refl))
        (answer_command_fails w) (next_reply s).events s.clock e
        (ap (λ (r : Attempt MiotResponse × DeviceClock). r.0)
            (sym (
              exchange-eq-first_verdict (answer_command c parse address token w) late fail
                (next_reply s).events s.clock))
          ∙ h)

  next_stamp-snd : (s : World) → (next_stamp c parse address token s).1 ≡ s
  unfolding next_stamp
  next_stamp-snd s = ground arith

  command_bytes-snd :
      (d n : ℕ) (payload : Payload) (s : World)
      → (command_bytes c parse address token d n payload s).1 ≡ s
  unfolding command_bytes
  command_bytes-snd d n payload s = ground arith

  -- A request that fails names its method, or left everything as it was: it sent no packet.
  pub send_command_fails :
      (d : ℕ) (payload : Payload) (s : World) (e : Thrown)
      → (send_command c parse address token d payload s).0 ≡ threw e
      → Names payload.method e ⊎ ((send_command c parse address token d payload s).1 ≡ s)
  unfolding send_command
  send_command_fails d payload s e h =
      elim (bind-eq-threw (next_stamp c parse address token) _ s e h) [
        | inl p ↦
            inr (rw (bind_of_threw (next_stamp c parse address token) _ s e p) (next_stamp-snd s))
        | inr (n, p, q) ↦
            let s' = (next_stamp c parse address token s).1 in
            elim (bind-eq-threw (command_bytes c parse address token d n payload) _ s' e q) [
              | inl p' ↦ inr (rw (p, p') (command_bytes-snd d n payload s' ∙ next_stamp-snd s))
              | inr (bytes, p', q') ↦ inl (transmit_fails payload.method bytes _ e q')
            ]
      ]

  length-transmit :
      (run : List Event → DeviceClock → Attempt MiotResponse × DeviceClock) (bytes : Bytes)
      (s : World)
      → length (transmit c parse address token run bytes s).1.sent ≡ length s.sent + 1
  unfolding transmit
  length-transmit run bytes s = length-append s.sent (bytes ∷ [])

  -- A request sends one packet or none, and one if it returns.
  pub length-send_command :
      (d : ℕ) (payload : Payload) (s : World)
      → (length (send_command c parse address token d payload s).1.sent ≤ length s.sent + 1)
        × ((r : MiotResponse)
            → (send_command c parse address token d payload s).0 ≡ returned r
            → length (send_command c parse address token d payload s).1.sent ≡ length s.sent + 1)
  unfolding send_command
  length-send_command d payload s = elim (Attempt-cases (next_stamp c parse address token s).0) [
    | inr (e, p) ↦ rw (p, next_stamp-snd s) (omega arith, λ r h. cc)
    | inl (n, p) ↦
        let s' = (next_stamp c parse address token s).1 in
        let s'' = (command_bytes c parse address token d n payload s').1 in
        let kept =
          ap (λ (x : World). length x.sent) (command_bytes-snd d n payload s' ∙ next_stamp-snd s) in
        elim (Attempt-cases (command_bytes c parse address token d n payload s').0) [
          | inr (e, q) ↦ rw (p, q) (omega (arith, kept), λ r h. cc)
          | inl (bytes, q) ↦
              rw (p, q)
                (
                  omega (arith, kept, length-transmit _ bytes s''),
                  λ r h. omega (arith, kept, length-transmit _ bytes s''),
                )
        ]
  ]

  -- A read of several properties that returns has sent one packet for each of them.
  pub length-get_all :
      (d : ℕ) (props : List (ℕ × ℕ)) (s : World) (items : List MiotPropertyResult)
      → (get_all c parse address token d props s).0 ≡ returned items
      → length (get_all c parse address token d props s).1.sent ≡ length s.sent + length props
  unfolding get_all
  length-get_all d [] s items h = omega arith
  length-get_all d ((siid, piid) ∷ props) s items h =
      let payload = request c parse address token get_properties (read (show d) siid piid) in
      let (r, p, q) = bind-eq-returned (send_command c parse address token d payload) _ s items h in
      let t = (send_command c parse address token d payload s).1 in
      let (here, p', q') = bind-eq-returned (lift (all_items r.result)) _ t items q in
      let (later, p'', q'') =
        bind-eq-returned (get_all c parse address token d props) _ t items q' in
      rw (p, p', p'')
        (omega (arith, (length-send_command d payload s).1 r p, length-get_all d props t later p''))

  -- Setting a property sends at most one packet.
  pub length-set_property :
      (d siid piid : ℕ) (v : Value) (s : World)
      → length (set_property c parse address token d siid piid v s).1.sent ≤ length s.sent + 1
  unfolding set_property require_item
  length-set_property d siid piid v s =
      let payload = request c parse address token set_properties (write (show d) siid piid v) in
      let (most, exact) = length-send_command d payload s in
      elim (Attempt-cases (send_command c parse address token d payload s).0) [
        | inr (e, p) ↦ rw p most
        | inl (r, p) ↦ elim (Bool-cases (is_refused (first_item r.result))) [
          | inl refused ↦ rw (p, refused) most
          | inr accepted ↦ rw (p, accepted) most
        ]
      ]

  -- A handshake sends at most one packet.
  pub length-send_hello :
      (s : World) → length (send_hello c parse address token s).1.sent ≤ length s.sent + 1
  unfolding send_hello transmit new_outgoing raw
  length-send_hello s = rw length-append (omega arith)

  -- A handshake fails only with a failure that names it.
  pub send_hello_fails :
      (s : World) (e : Thrown)
      → (send_hello c parse address token s).0 ≡ threw e
      → Names MiotMethod.handshake e
  unfolding send_hello transmit new_outgoing raw
  send_hello_fails s e h =
      let late =
        miot_error (
          timeout_error ("Handshake timeout: no response from " <> address) MiotMethod.handshake) in
      let fail = λ (x : Thrown). miot_error (wrap_transport_error MiotMethod.handshake x) in
      first_verdict_fails (answer_hello c parse address token) late fail
        (Names MiotMethod.handshake) (unfold timeout_error in (refl, refl))
        (λ x. unfold wrap_transport_error in (refl, refl)) answer_hello_fails (next_reply s).events
        s.clock e
        (ap (λ (r : Attempt DiscoverResult × DeviceClock). r.0)
            (sym (
              exchange-eq-first_verdict (answer_hello c parse address token) late fail
                (next_reply s).events s.clock))
          ∙ h)
