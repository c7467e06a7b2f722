-- ===== src/Wire/Bytes.antt =====
-- Little-endian integers and floats: read_u16, read_u32, Transport::decode_float and
-- Transport::append_float of wsg50_driver/src/transport.cpp. Bytes are numbers below 256, and a
-- `const uint8_t *` is the list that starts there; every caller has checked the size, so the 0 that
-- is read behind the end is never seen. A `float` is its bit pattern, which is what memcpy moves.
use wsg50_ros2_humble.Base.{ℕ, ◌*◌, ◌/◌, ◌%◌, ◌^◌, List, [], ◌∷◌, ◌++◌, bit_and, bit_or, get_or}

abbrev pub Bytes : Type 0
Bytes = List ℕ

abbrev pub u8 : ℕ → ℕ
u8 n = n % 2 ^ 8

abbrev pub u16 : ℕ → ℕ
u16 n = n % 2 ^ 16

infixl 75 ◌<<<◌ ◌>>>◌
abbrev pub ◌<<<◌ : ℕ → ℕ → ℕ
x <<< k = x * 2 ^ k

abbrev pub ◌>>>◌ : ℕ → ℕ → ℕ
x >>> k = x / 2 ^ k

abbrev byte_at : Bytes → ℕ → ℕ
byte_at bytes i = get_or bytes i 0

unfoldable pub read_u16 : Bytes → ℕ
read_u16 bytes = bit_or (byte_at bytes 0) (u16 (byte_at bytes 1 <<< 8))

unfoldable pub read_u32 : Bytes → ℕ
read_u32 bytes =
    bit_or (bit_or (bit_or (byte_at bytes 0) (byte_at bytes 1 <<< 8)) (byte_at bytes 2 <<< 16))
      (byte_at bytes 3 <<< 24)

unfoldable pub decode_float : Bytes → ℕ
unfolding read_u32
decode_float bytes = read_u32 bytes

unfoldable pub append_float : Bytes → ℕ → Bytes
append_float payload bits =
    payload
    ++ (u8 (bit_and bits 0xff)
        ∷ u8 (bit_and (bits >>> 8) 0xff)
        ∷ u8 (bit_and (bits >>> 16) 0xff)
        ∷ u8 (bit_and (bits >>> 24) 0xff)
        ∷ [])
