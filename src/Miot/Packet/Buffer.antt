-- ===== src/Miot/Packet/Buffer.antt =====
-- Buffers as lists of bytes: big-endian fields, writes in place, hexadecimal text.
use Prim.Native.Char.{code}
use homelab_apps.Prelude.{
  ℕ, zero, suc, ◌+◌, ◌-◌, ◌*◌, ◌/◌, ◌%◌, Bool, true, false, ◌&&◌, Option, none, some, String, List,
  [], ◌∷◌, ◌++◌, leb, ◌==◌, if◌then◌else◌, length, take, drop,
}

abbrev pub Bytes : Type 0
Bytes = List ℕ

abbrev pub u16_be : ℕ → Bytes
u16_be n = (n / 256) ∷ (n % 256) ∷ []

abbrev pub u32_be : ℕ → Bytes
u32_be n = (n / 0x1000000) ∷ (n / 0x10000 % 256) ∷ (n / 256 % 256) ∷ (n % 256) ∷ []

-- A write in place that fits.
abbrev pub write_at : ℕ → Bytes → Bytes → Bytes
write_at offset bytes b = take offset b ++ (bytes ++ drop (offset + length bytes) b)

abbrev pub byte : Bytes → ℕ → ℕ
byte [] n = 0
byte (x ∷ b) zero = x
byte (x ∷ b) (suc n) = byte b n

abbrev pub read_u16 : Bytes → ℕ → ℕ
read_u16 b n = byte b n * 256 + byte b (n + 1)

abbrev pub read_u32 : Bytes → ℕ → ℕ
read_u32 b n =
    byte b n * 0x1000000 + byte b (n + 1) * 0x10000 + byte b (n + 2) * 256 + byte b (n + 3)

-- Buffer.equals
abbrev pub bytes_eq : Bytes → Bytes → Bool
bytes_eq [] [] = true
bytes_eq (x ∷ a) (y ∷ b) = x == y && bytes_eq a b
bytes_eq _ _ = false

-- `replace(/\0+$/, '')`: the zero bytes at the end go
abbrev pub strip_nuls : Bytes → Bytes
strip_nuls [] = []
strip_nuls (x ∷ b) = let rest = strip_nuls b in if length rest == 0 && x == 0 then [] else x ∷ rest

hex_digit : ℕ → Option ℕ
hex_digit c =
    if leb b'0' c && leb c b'9'
    then some (c - b'0')
    else if leb b'a' c && leb c b'f'
    then some (c - b'a' + 10)
    else if leb b'A' c && leb c b'F'
    then some (c - b'A' + 10)
    else none

-- two digits make a byte; the first pair that is not hexadecimal ends the buffer
hex_pair : Option ℕ → Option ℕ → Bytes → Bytes
hex_pair (some a) (some b) rest = (a * 16 + b) ∷ rest
hex_pair _ _ rest = []

-- Buffer.from(text, 'hex')
unfoldable pub from_hex : String → Bytes
unfolding hex_digit hex_pair
from_hex String.[] = []
from_hex (String.◌∷◌ a String.[]) = []
from_hex (String.◌∷◌ a (String.◌∷◌ b s)) =
    hex_pair (hex_digit (code a)) (hex_digit (code b)) (from_hex s)
