-- ===== src/Tests/MiotPackets.antt =====
-- Packets and exchanges on concrete bytes (packages/miot-device/src/packet, MiotTransport.ts).
use homelab_apps.Prelude.{
  ◌≡◌, refl, ◌<◌, Option, none, some, [], ◌∷◌, ◌++◌, arith, length, replicate, take, drop,
}
use homelab_apps.Miot.Error.{returned, ◌>>=◌, get_properties}
use homelab_apps.Miot.Packet.{
  Bytes, Crypto, CryptoLaws, Token, raw_token, token_bytes, Payload, IncomingPacket, new_outgoing,
  raw, new_incoming, device_id, stamp, with_id, read,
}
use homelab_apps.Miot.Packet.RoundTrip.{config, new_incoming-new_outgoing, new_incoming_authentic}

-- A stand-in for Node's crypto: a digest of sixteen bytes, and a cipher that adds a block marker.
abbrev pub unwrap : Bytes → Option Bytes
unwrap [] = none
unwrap (x ∷ b) = some b

abbrev pub toy : Crypto
toy = record {
  md5 = λ x. length x ∷ replicate 15 7;
  encrypt = λ k v x. 1 ∷ x;
  decrypt = λ k v x. unwrap x;
  stringify = λ p. b'{' ∷ b'}' ∷ [];
}

toy_laws : CryptoLaws toy
toy_laws = record {
  md5_size = λ x. refl;
  decrypt-encrypt = λ k v x. refl;
  encrypt-nonempty = λ k v x. omega arith;
}

abbrev pub token : Token
token = raw_token (replicate 16 9)

abbrev payload : Payload
payload = record { id = none; method = get_properties; params = read "1234" 2 1 }

token_size : length (token_bytes token) ≡ 16
unfolding token_bytes
token_size = refl

round_trip_example :
    (msg : Bytes) × ((new_outgoing toy 1000
          (some (config toy toy_laws token payload 1000 1234 35504))
        >>= raw toy)
      ≡ returned msg)
    × (packet : IncomingPacket) × (new_incoming toy msg token ≡ returned packet)
    × (packet.payload ≡ some (toy.stringify (with_id 1000 payload)))
    × (device_id packet.header ≡ 1234)
    × (stamp packet.header ≡ 35504)
round_trip_example =
    new_incoming-new_outgoing toy toy_laws token payload 1000 1234 35504 token_size (omega arith)
      (omega arith) (omega arith)

-- A packet of the device, as the client's own one would read.
abbrev pub answer : Bytes
answer =
    0x21
    ∷ 0x31
    ∷ 0
    ∷ 35
    ∷ 0
    ∷ 0
    ∷ 0
    ∷ 0
    ∷ 0
    ∷ 0
    ∷ 4
    ∷ 210
    ∷ 0
    ∷ 0
    ∷ 138
    ∷ 176
    ∷ 35
    ∷ (replicate 15 7 ++ 1 ∷ b'{' ∷ b'}' ∷ [])

accepted :
    new_incoming toy answer token
    ≡ returned (record { header = take 32 answer; payload = some (b'{' ∷ b'}' ∷ []) })
unfolding new_incoming homelab_apps.Miot.Packet.parse_and_decrypt
    homelab_apps.Miot.Packet.decrypt_checked
accepted = refl

authentic_example :
    (take 16 (drop 16 (take 32 answer))
      ≡ toy.md5 (take 16 answer ++ (token_bytes token ++ drop 32 answer)))
    × (take 32 answer ≡ take 32 answer)
    × (length (token_bytes token) ≡ 16)
    × (32 < length answer)
authentic_example =
    new_incoming_authentic toy token answer (b'{' ∷ b'}' ∷ [])
      (record { header = take 32 answer; payload = some (b'{' ∷ b'}' ∷ []) }) accepted refl
