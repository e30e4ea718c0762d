-- ===== src/Miot/Packet.antt =====
-- miIO packets (packages/miot-device/src/packet). A Buffer is the list of its bytes.
mod Buffer
pub mod RoundTrip
pub use Buffer.{Bytes, byte, read_u16, read_u32, bytes_eq, strip_nuls, write_at, u16_be, u32_be}
unfoldable pub use Buffer.{from_hex}
use homelab_apps.Prelude.{
  ℕ, ◌+◌, ◌/◌, ◌<◌, ◌≡◌, Option, none, some, String, List, ◌++◌, ltb, ◌==◌, if◌then◌else◌, length,
  take, drop, replicate, or_else,
}
use homelab_apps.Prelude.Int.{ℤ}
use homelab_apps.Prelude.Text.{◌<>◌, show}
use homelab_apps.Miot.Error.{MiotMethod, Attempt, returned, threw, ◌>>=◌, plain_error}

abbrev pub header_size : ℕ
header_size = 32

abbrev pub magic : ℕ
magic = 0x2131

-- A property value of a device: `string | number`.
pub data Value : Type 0 where
  text : String → Value
  number : ℤ → Value

-- The `params` of a request, one constructor for each call of MiotTransport.
pub data Params : Type 0 where
  read : String → ℕ → ℕ → Params
  write : String → ℕ → ℕ → Value → Params
  act : String → ℕ → ℕ → List Value → Params

-- MiotRequestPayload, with the `id` that a payload may bring along
pub record Payload : Type 0 where
  pub id : Option ℕ
  pub method : MiotMethod
  pub params : Params

-- What the packets use of Node's crypto and JSON: MD5, AES-128-CBC with PKCS#7 padding (`none` is a
-- padding that does not check), and the UTF-8 text of a payload.
pub record Crypto : Type 0 where
  pub md5 : Bytes → Bytes
  pub encrypt : Bytes → Bytes → Bytes → Bytes
  pub decrypt : Bytes → Bytes → Bytes → Option Bytes
  pub stringify : Payload → Bytes

-- The documented behaviour of those: a digest has 16 bytes, and deciphering undoes enciphering
-- under the same key and vector, which always leaves at least one padded block.
pub record CryptoLaws (c : Crypto) : Type 0 where
  pub md5_size : (x : Bytes) → length (c.md5 x) ≡ 16
  pub decrypt-encrypt : (k v x : Bytes) → c.decrypt k v (c.encrypt k v x) ≡ some x
  pub encrypt-nonempty : (k v x : Bytes) → 0 < length (c.encrypt k v x)

-- `string | Buffer`
pub data Token : Type 0 where
  hex : String → Token
  raw_token : Bytes → Token

pub record TokenKeys : Type 0 where
  pub token : Bytes
  pub token_key : Bytes
  pub token_iv : Bytes

-- class BasePacket; `token`, `tokenKey` and `tokenIV` are set together or not at all
pub record BasePacket : Type 0 where
  pub header : Bytes
  pub keys : Option TokenKeys

-- the first lines of the constructor: magic, then 0xFF from byte 4 on
unfoldable pub hello_header : Bytes
hello_header = take 4 (write_at 0 (u16_be magic) (replicate header_size 0)) ++ replicate 28 0xff

unfoldable pub token_bytes : Token → Bytes
unfolding from_hex
token_bytes (hex s) = from_hex s
token_bytes (raw_token bytes) = bytes

-- `createHash('md5').update(a).update(b)` digests the bytes of `a` followed by those of `b`
unfoldable pub derive_keys : Crypto → Bytes → TokenKeys
derive_keys c token =
    let key = c.md5 token in
    record { token = token; token_key = key; token_iv = c.md5 (key ++ token) }

-- the constructor of BasePacket
unfoldable pub base_packet : Crypto → Option Token → Attempt BasePacket
unfolding hello_header token_bytes derive_keys
base_packet c none = returned (record { header = hello_header; keys = none })
base_packet c (some t) =
    let token = token_bytes t in
    if length token == 16
    then returned (record { header = hello_header; keys = some (derive_keys c token) })
    else threw (plain_error ("Token must be 16 bytes (128-bit), got " <> show (length token)))

-- get checksum
unfoldable pub checksum : Bytes → Bytes
checksum header = take 16 (drop 16 header)

-- get deviceId
unfoldable pub device_id : Bytes → ℕ
device_id header = read_u32 header 8

-- get stamp
unfoldable pub stamp : Bytes → ℕ
stamp header = read_u32 header 12

-- OutgoingPacketConfig
pub record OutgoingPacketConfig : Type 0 where
  pub token : Option Token
  pub payload : Option Payload
  pub device_id : Option ℕ
  pub stamp : Option ℕ

-- class OutgoingPacket
pub record OutgoingPacket : Type 0 where
  pub base : BasePacket
  pub payload : Option Payload

-- Buffer.writeUInt16BE and writeUInt32BE refuse a value that does not fit.
unfoldable pub write_u16 : ℕ → ℕ → Bytes → Attempt Bytes
write_u16 n offset b =
    if ltb n 0x10000
    then returned (write_at offset (u16_be n) b)
    else threw (plain_error "The value is out of range.")

unfoldable pub write_u32 : ℕ → ℕ → Bytes → Attempt Bytes
write_u32 n offset b =
    if ltb n 0x100000000
    then returned (write_at offset (u32_be n) b)
    else threw (plain_error "The value is out of range.")

-- a header field that the configuration may leave alone
unfoldable pub write_field : Option ℕ → ℕ → Bytes → Attempt Bytes
unfolding write_u32
write_field none offset header = returned header
write_field (some n) offset header = write_u32 n offset header

-- `{ id: Math.floor(Date.now() / 1000), ...payload }`
unfoldable pub with_id : ℕ → Payload → Payload
with_id date p = record p { id = some (or_else p.id (date / 1000)) }

-- the constructor of OutgoingPacket; `date` is what Date.now() answers
unfoldable pub new_outgoing : Crypto → ℕ → Option OutgoingPacketConfig → Attempt OutgoingPacket
unfolding base_packet write_field
new_outgoing c date none = do
  base ← base_packet c none
  returned (record { base = base; payload = none })
new_outgoing c date (some config) = do
  base ← base_packet c config.token
  h ← write_field config.device_id 8 base.header
  h' ← write_field config.stamp 12 h
  returned (record {
    base = record base { header = h' };
    payload = elim config.payload [ none ↦ none | some p ↦ some (with_id date p) ];
  })

-- the digest that a packet carries
unfoldable pub packet_digest : Crypto → Bytes → Bytes → Bytes → Bytes
packet_digest c header token encrypted = c.md5 (take 16 header ++ (token ++ encrypted))

-- buildCommandPacket
unfoldable pub build_command_packet : Crypto → BasePacket → Payload → Attempt Bytes
unfolding write_u16 write_u32 packet_digest
build_command_packet c base payload = elim base.keys [
  | none ↦ threw (plain_error "Token is required to send command packets")
  | some k ↦ (do
    h ← write_u32 0 4 base.header
    let encrypted = c.encrypt k.token_key k.token_iv (c.stringify payload)
    h' ← write_u16 (header_size + length encrypted) 2 h
    returned (write_at 16 (packet_digest c h' k.token encrypted) h' ++ encrypted))
]

-- get raw
unfoldable pub raw : Crypto → OutgoingPacket → Attempt Bytes
unfolding build_command_packet write_u16
raw c packet = elim packet.payload [
  | none ↦ write_u16 header_size 2 packet.base.header
  | some p ↦ build_command_packet c packet.base p
]

-- HelloInfo
pub record HelloInfo : Type 0 where
  pub device_id : ℕ
  pub stamp : ℕ
  pub token : Bytes

-- class IncomingPacket
pub record IncomingPacket : Type 0 where
  pub header : Bytes
  pub payload : Option Bytes

-- IncomingPacket.parseHello
unfoldable pub parse_hello : Bytes → Attempt HelloInfo
unfolding device_id stamp checksum
parse_hello msg =
    if ltb (length msg) header_size
    then threw (plain_error ("Response too short: " <> show (length msg) <> " bytes"))
    else if read_u16 msg 0 == magic
    then returned (record { device_id = device_id msg; stamp = stamp msg; token = checksum msg })
    else threw (plain_error "Invalid magic number")

-- the steps of parseAndDecrypt once there is an encrypted part and a token
unfoldable pub decrypt_checked : Crypto → TokenKeys → Bytes → Bytes → Attempt (Option Bytes)
unfolding packet_digest checksum
decrypt_checked c k header encrypted =
    if bytes_eq (checksum header) (packet_digest c header k.token encrypted)
    then elim (c.decrypt k.token_key k.token_iv encrypted) [
      | none ↦ threw (plain_error "bad decrypt")
      | some plain ↦ returned (some plain)
    ]
    else threw (plain_error "Invalid packet checksum — token may be wrong")

-- parseAndDecrypt; `msg.copy` fills the header, since the message is at least as long
unfoldable pub parse_and_decrypt :
    Crypto → Option TokenKeys → Bytes → Attempt (Bytes × Option Bytes)
parse_and_decrypt c keys msg =
    let header = take header_size msg in
    let encrypted = drop header_size msg in
    if ltb (length msg) header_size
    then threw (plain_error ("Packet too short: " <> show (length msg) <> " bytes"))
    else if length encrypted == 0
    then returned (header, none)
    else elim keys [
      | none ↦ threw (plain_error "Token is required to decrypt response packets")
      | some k ↦ (do plain ← decrypt_checked c k header encrypted; returned (header, plain))
    ]

-- the constructor of IncomingPacket
unfoldable pub new_incoming : Crypto → Bytes → Token → Attempt IncomingPacket
unfolding base_packet
new_incoming c msg token = do
  base ← base_packet c (some token)
  parsed ← parse_and_decrypt c base.keys msg
  returned (record { header = parsed.0; payload = parsed.1 })
