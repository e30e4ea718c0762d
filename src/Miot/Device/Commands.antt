-- ===== src/Miot/Device/Commands.antt =====
-- The commands of a device over the transport: how they fail, and how much they send
-- (packages/miot-device/src/MiotDevice.ts with MiotTransport.ts).
use homelab_apps.Prelude.{
  ℕ, ◌+◌, ◌≤◌, ◌≡◌, ◌⊎◌, inl, inr, true, false, Option, none, some, String, length, arith, ◌∙◌, ap,
  Bool-cases, sym, Option-cases,
}
use homelab_apps.Miot.Error.{Thrown, Attempt, returned, threw, MiotMethod, Attempt-cases}
use homelab_apps.Miot.Clock
use homelab_apps.Miot.Packet.{Bytes, Crypto, Token, Value}
use homelab_apps.Miot.Io.{World, Io}
use homelab_apps.Miot.Transport.{MiotResponse, DiscoverResult, send_hello, set_property}
use homelab_apps.Miot.Transport.Calls.{
  Names, send_hello_fails, length-send_hello, length-set_property,
}
use homelab_apps.Miot.Device.{
  require_device_id, load_stamp, run_cached, run_with_stamp_exclusive, device_set_property,
  plain_error,
}
use homelab_apps.Miot.Device.Retry.{
  FreshFails, fresh-FreshFails, run_cached-outcome, length-run_cached, run_cached-cold,
}

require_device_id-known :
    (s : World) (d : ℕ) → s.device_id ≡ some d → require_device_id s ≡ (returned d, s)
unfolding require_device_id
require_device_id-known s d h = ground arith

require_device_id-unknown :
    (s : World)
    → s.device_id ≡ none
    → require_device_id s
      ≡ (threw (plain_error "Device not connected. Call connect() or discover() first."), s)
unfolding require_device_id
require_device_id-unknown s h = ground arith

module _ {A : Type 0} (handshake : Io DiscoverResult) (w : MiotMethod) (fn : ℕ → Io A) (d : ℕ) where
  -- Without a reading a command begins with a handshake; with one its call is made first, and its failure
  -- drops the reading.
  abbrev pub FailsAs : World → Thrown → Type 0
  FailsAs s e =
      ((Clock.synced s.clock ≡ false) × FreshFails handshake w fn d false s e)
      ⊎ ((Clock.synced s.clock ≡ true)
          × (first : Thrown) × ((fn d s).0 ≡ threw first)
          × FreshFails handshake w fn d true
              (record (fn d s).1 { clock = Clock.reset (fn d s).1.clock }) e)

  run_cached-FailsAs :
      (s : World) (e : Thrown) → (run_cached handshake w fn d s).0 ≡ threw e → FailsAs s e
  run_cached-FailsAs s e h = elim (Bool-cases (Clock.synced s.clock)) [
    | inr cold ↦ inl (
      cold,
      fresh-FreshFails handshake w fn d false s e
          (ap (λ (r : Attempt A × World). r.0) (sym (run_cached-cold handshake w fn d s cold)) ∙ h),
    )
    | inl warm ↦ elim (run_cached-outcome handshake w fn d s warm) [
      | inl (a, p, q, sent) ↦ (let failed = sym q ∙ h in cc)
      | inr (first, p, q) ↦ inr (
        warm,
        first,
        p,
        fresh-FreshFails handshake w fn d true
            (record (fn d s).1 { clock = Clock.reset (fn d s).1.clock }) e
            (ap (λ (r : Attempt A × World). r.0) (sym q) ∙ h),
      )
    ]
  ]

  run-FailsAs :
      (s : World) (e : Thrown)
      → s.device_id ≡ some d
      → (load_stamp s).0 ≡ returned tt
      → (run_with_stamp_exclusive handshake w fn s).0 ≡ threw e
      → FailsAs (load_stamp s).1 e
  unfolding run_with_stamp_exclusive
  run-FailsAs s e connected loaded h =
      let same : run_with_stamp_exclusive handshake w fn s
          ≡ run_cached handshake w fn d (load_stamp s).1 =
        rw (require_device_id-known s d connected, loaded) in
      run_cached-FailsAs (load_stamp s).1 e (ap (λ (r : Attempt A × World). r.0) (sym same) ∙ h)

length-load_stamp : (s : World) → length (load_stamp s).1.sent ≡ length s.sent
unfolding load_stamp
length-load_stamp s = ground arith

module _ {A : Type 0} (handshake : Io DiscoverResult) (w : MiotMethod) (fn : ℕ → Io A) where
  -- A command sends at most the packets of two calls and one handshake, whatever happens.
  pub length-run :
      (hello call : ℕ) (s : World)
      → ((t : World) → length (handshake t).1.sent ≤ length t.sent + hello)
      → ((d' : ℕ) (t : World) → length (fn d' t).1.sent ≤ length t.sent + call)
      → length (run_with_stamp_exclusive handshake w fn s).1.sent
        ≤ length s.sent + (call + hello + call)
  unfolding run_with_stamp_exclusive
  length-run hello call s hello_bound call_bound = elim (Option-cases s.device_id) [
    | inl p ↦ rw (require_device_id-unknown s p) (omega arith)
    | inr (d', p) ↦ elim (Attempt-cases (load_stamp s).0) [
      | inr (e, q) ↦ rw (require_device_id-known s d' p, q) (omega (arith, length-load_stamp s))
      | inl (a, q) ↦
          rw (require_device_id-known s d' p, q)
            (omega (
              arith,
              length-load_stamp s,
              length-run_cached handshake w fn d' hello call hello_bound (call_bound d')
                  (load_stamp s).1,
            ))
    ]
  ]

module _ (c : Crypto) (parse : Bytes → Attempt (Option MiotResponse)) (address : String)
    (token : Token) where
  -- A property write puts at most three packets on the wire, whatever the network and the store do:
  -- two writes and the handshake between them.
  pub length-device_set_property :
      (siid piid : ℕ) (v : Value) (s : World)
      → length (device_set_property c parse address token siid piid v s).1.sent ≤ length s.sent + 3
  unfolding device_set_property
  length-device_set_property siid piid v s =
      length-run (send_hello c parse address token) MiotMethod.set_properties
        (λ d. set_property c parse address token d siid piid v) 1 1 s
        (length-send_hello c parse address token)
        (λ d. length-set_property c parse address token d siid piid v)

  -- A property write of a connected device whose stamp store could be read throws only what it met. Without a
  -- reading of the device's clock that is the failure of the handshake, or of the write behind it. With a reading
  -- the write was made and failed, and it is the failure of the handshake after that, with the reading dropped, or
  -- of the second write behind it. A handshake's failure is thrown as it is and names the handshake; of a write's,
  -- a MiotError is thrown with its class, its code and its method, flagged as retried after a stamp refresh if there
  -- was a reading, and else flagged as it was.
  pub device_set_property_fails :
      (siid piid d : ℕ) (v : Value) (s : World) (e : Thrown)
      → s.device_id ≡ some d
      → (load_stamp s).0 ≡ returned tt
      → (device_set_property c parse address token siid piid v s).0 ≡ threw e
      → FailsAs
          (send_hello c parse address token)
          MiotMethod.set_properties
          (λ d'. set_property c parse address token d' siid piid v)
          d
          (load_stamp s).1
          e
        × ((t : World)
            → (send_hello c parse address token t).0 ≡ threw e
            → Names MiotMethod.handshake e)
  unfolding device_set_property
  device_set_property_fails siid piid d v s e connected loaded h = (
    run-FailsAs (send_hello c parse address token) MiotMethod.set_properties
        (λ d'. set_property c parse address token d' siid piid v) d s e connected loaded h,
    λ t p. send_hello_fails c parse address token t e p,
  )
