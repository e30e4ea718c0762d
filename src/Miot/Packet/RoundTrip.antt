-- ===== src/Miot/Packet/RoundTrip.antt =====
-- What the device reads in a packet is what the client wrote, and what the client accepts was
-- signed with its token (packages/miot-device/src/packet).
use homelab_apps.Prelude.{
  ℕ, ◌+◌, ◌<◌, ◌≡◌, refl, true, false, Option, some, [], ◌∷◌, ◌++◌, arith, ltb, ◌==◌, length, take,
  drop, lt→ltb, le→ltb-false, length-append, take-append, drop-append, length-drop, take-take, ap,
}
use homelab_apps.Miot.Error.{returned, ◌>>=◌}
use homelab_apps.Miot.Packet.{
  Bytes, bytes_eq, u16_be, u32_be, Token, token_bytes, TokenKeys, derive_keys, Payload, with_id,
  Crypto, CryptoLaws, OutgoingPacketConfig, IncomingPacket, new_outgoing, raw, packet_digest,
  new_incoming, parse_and_decrypt, checksum, device_id, stamp, decrypt_checked,
}

bytes_eq_refl : (b : Bytes) → bytes_eq b b ≡ true
bytes_eq_refl [] = refl
bytes_eq_refl (x ∷ b) = ground (arith, bytes_eq_refl b)

eq_of_bytes_eq : (a b : Bytes) → bytes_eq a b ≡ true → a ≡ b
eq_of_bytes_eq [] [] h = refl
eq_of_bytes_eq (x ∷ a) (y ∷ b) h = ground (arith, eq_of_bytes_eq a b)
eq_of_bytes_eq a b h = ground arith

-- the first sixteen bytes of a command packet
abbrev pub prefix : ℕ → ℕ → ℕ → Bytes
prefix size d s = 0x21 ∷ 0x31 ∷ (u16_be size ++ 0 ∷ 0 ∷ 0 ∷ 0 ∷ (u32_be d ++ u32_be s))

-- a packet of a prefix, a digest and an encrypted part
abbrev pub assemble : Bytes → Bytes → Bytes → Bytes
assemble front digest encrypted = (front ++ (digest ++ [])) ++ encrypted

-- What a parser finds in a packet of a sixteen-byte prefix and digest.
module _ (front digest encrypted : Bytes) (front_size : length front ≡ 16)
    (digest_size : length digest ≡ 16) where
  header_size-assemble : length (front ++ (digest ++ [])) ≡ 32
  header_size-assemble =
      omega (arith, length-append {0} front (digest ++ []), length-append {0} digest [])

  take-assemble : take 32 (assemble front digest encrypted) ≡ front ++ (digest ++ [])
  take-assemble = take-append 32 (front ++ (digest ++ [])) encrypted header_size-assemble

  drop-assemble : drop 32 (assemble front digest encrypted) ≡ encrypted
  drop-assemble = drop-append 32 (front ++ (digest ++ [])) encrypted header_size-assemble

  length-assemble : ltb (length (assemble front digest encrypted)) 32 ≡ false
  length-assemble =
      le→ltb-false _ _
        (omega (arith, length-append {0} (front ++ (digest ++ [])) encrypted, header_size-assemble))

  checksum-assemble : checksum (front ++ (digest ++ [])) ≡ digest
  unfolding checksum
  checksum-assemble =
      rw (drop-append 16 front (digest ++ []) front_size) (take-append 16 digest [] digest_size)

  -- a packet that carries the digest of its own bytes passes
  parse-assemble :
      (c : Crypto) (k : TokenKeys) (plain : Bytes)
      → 0 < length encrypted
      → packet_digest c (front ++ (digest ++ [])) k.token encrypted ≡ digest
      → c.decrypt k.token_key k.token_iv encrypted ≡ some plain
      → parse_and_decrypt c (some k) (assemble front digest encrypted)
        ≡ returned (front ++ (digest ++ []), some plain)
  unfolding parse_and_decrypt decrypt_checked
  parse-assemble c k plain nonempty signed opened =
      let some_bytes : (length encrypted == 0) ≡ false = ground arith in
      rw (length-assemble, take-assemble, drop-assemble, some_bytes)
        (rw (signed, checksum-assemble, bytes_eq_refl digest, opened))

new_incoming_of_parsed :
    (c : Crypto) (token : Token) (msg header : Bytes) (plain : Option Bytes)
    → length (token_bytes token) ≡ 16
    → parse_and_decrypt c (some (derive_keys c (token_bytes token))) msg ≡ returned (header, plain)
    → new_incoming c msg token ≡ returned (record { header = header; payload = plain })
unfolding new_incoming
new_incoming_of_parsed c token msg header plain sized parsed =
    let sized_test : (length (token_bytes token) == 16) ≡ true = ground arith in
    rw (sized_test, parsed)

module _ (c : Crypto) (laws : CryptoLaws c) (token : Token) (payload : Payload) (date d s : ℕ) where
  abbrev pub config : OutgoingPacketConfig
  config = record { token = some token; payload = some payload; device_id = some d; stamp = some s }

  abbrev pub keys : TokenKeys
  keys = derive_keys c (token_bytes token)

  abbrev pub encrypted : Bytes
  encrypted = c.encrypt keys.token_key keys.token_iv (c.stringify (with_id date payload))

  abbrev pub sent : Bytes
  sent =
      let front = prefix (32 + length encrypted) d s in
      assemble front (c.md5 (front ++ (keys.token ++ encrypted))) encrypted

  module _ (sized : length (token_bytes token) ≡ 16) (d_fits : d < 0x100000000)
      (s_fits : s < 0x100000000) (fits : length encrypted < 0xffe0) where
    raw-new_outgoing : (new_outgoing c date (some config) >>= raw c) ≡ returned sent
    unfolding new_outgoing raw derive_keys
    raw-new_outgoing =
        let sized_test : (length (token_bytes token) == 16) ≡ true = ground arith in
        let d_test : ltb d 0x100000000 ≡ true = lt→ltb _ _ d_fits in
        let s_test : ltb s 0x100000000 ≡ true = lt→ltb _ _ s_fits in
        let fits_test : ltb (32 + length encrypted) 0x10000 ≡ true = lt→ltb _ _ (omega arith) in
        rw (sized_test, d_test, s_test, fits_test, laws.md5_size)

    -- Under the laws of the ciphers, with a token of sixteen bytes, a device id and a stamp of 32 bits
    -- and a body whose packet's length fits 16 bits, a command packet can be built, and read with the
    -- token it was made with gives back the payload's text, the device id and the stamp.
    pub new_incoming-new_outgoing :
        (msg : Bytes) × ((new_outgoing c date (some config) >>= raw c) ≡ returned msg)
        × (packet : IncomingPacket) × (new_incoming c msg token ≡ returned packet)
        × (packet.payload ≡ some (c.stringify (with_id date payload)))
        × (device_id packet.header ≡ d)
        × (stamp packet.header ≡ s)
    new_incoming-new_outgoing =
        let front = prefix (32 + length encrypted) d s in
        let digest = c.md5 (front ++ (keys.token ++ encrypted)) in
        let plain = c.stringify (with_id date payload) in
        let parsed =
          parse-assemble front digest encrypted refl (laws.md5_size _) c keys plain
            (laws.encrypt-nonempty _ _ _) (unfold packet_digest in refl)
            (laws.decrypt-encrypt _ _ _) in
        (
          sent,
          raw-new_outgoing,
          record { header = front ++ (digest ++ []); payload = some plain },
          new_incoming_of_parsed c token sent _ (some plain) sized parsed,
          refl,
          unfold device_id in omega arith,
          unfold stamp in omega arith,
        )

decrypt_checked-eq-returned :
    (c : Crypto) (k : TokenKeys) (header encrypted : Bytes) (plain : Option Bytes)
    → decrypt_checked c k header encrypted ≡ returned plain
    → checksum header ≡ packet_digest c header k.token encrypted
unfolding decrypt_checked
decrypt_checked-eq-returned c k header encrypted plain e = ground (
  arith,
  eq_of_bytes_eq (unfold checksum in checksum header)
      (unfold packet_digest in packet_digest c header k.token encrypted),
)

parse_and_decrypt-eq-returned :
    (c : Crypto) (k : TokenKeys) (msg header plain : Bytes)
    → parse_and_decrypt c (some k) msg ≡ returned (header, some plain)
    → (header ≡ take 32 msg)
      × (32 < length msg)
      × (checksum header ≡ packet_digest c header k.token (drop 32 msg))
unfolding parse_and_decrypt
parse_and_decrypt-eq-returned c k msg header plain e = ground (
  arith,
  length-drop {0} 32 msg,
  decrypt_checked-eq-returned c k (take 32 msg) (drop 32 msg) (some plain),
)

new_incoming-eq-returned :
    (c : Crypto) (token : Token) (msg plain : Bytes) (packet : IncomingPacket)
    → new_incoming c msg token ≡ returned packet
    → packet.payload ≡ some plain
    → (length (token_bytes token) ≡ 16)
      × (parse_and_decrypt c (some (derive_keys c (token_bytes token))) msg
          ≡ returned (packet.header, some plain))
unfolding new_incoming
new_incoming-eq-returned c token msg plain packet e p = (ground arith, ground arith)

-- A message is accepted with a payload only if it is longer than a header, the token has sixteen
-- bytes, and its checksum is the digest of its own first sixteen bytes, the token and the rest.
pub new_incoming_authentic :
    (c : Crypto) (token : Token) (msg plain : Bytes) (packet : IncomingPacket)
    → new_incoming c msg token ≡ returned packet
    → packet.payload ≡ some plain
    → (take 16 (drop 16 packet.header) ≡ c.md5 (take 16 msg ++ (token_bytes token ++ drop 32 msg)))
      × (packet.header ≡ take 32 msg)
      × (length (token_bytes token) ≡ 16)
      × (32 < length msg)
new_incoming_authentic c token msg plain packet e p =
    let (sized, parsed) = new_incoming-eq-returned c token msg plain packet e p in
    let (same, long, signed) = parse_and_decrypt-eq-returned c _ msg packet.header plain parsed in
    (
      unfold checksum packet_digest derive_keys in
          rw (signed, same)
            (ap (λ t. c.md5 (t ++ (token_bytes token ++ drop 32 msg)))
              (take-take 16 32 msg (omega arith))),
      same,
      sized,
      long,
    )
