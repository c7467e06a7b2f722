-- ===== src/Wire/Frame/Shape.antt =====
-- What encode_frame of wsg50_driver/src/transport.cpp builds, byte by byte, and the round trips of
-- the little-endian integers in it.
use wsg50_ros2_humble.Base.{
  ℕ, ◌+◌, ◌/◌, ◌%◌, ◌^◌, ◌≤◌, ◌<◌, ◌≡◌, refl, ◌∙◌, [], ◌∷◌, ◌++◌, arith, length, drop, drop-append,
  le→not-ltb,
}
use wsg50_ros2_humble.Wire.Bytes.{Bytes, u16, read_u16, decode_float, append_float}
use wsg50_ros2_humble.Wire.Bits.{bit_and_byte, bit_or_low_high}
use wsg50_ros2_humble.Wire.Crc.{crc16}
use wsg50_ros2_humble.Wire.Crc.Residue.{crc16-append_own}
use wsg50_ros2_humble.Wire.Frame.{two_bytes, frame_body, encode_frame}

two_bytes_lem : (n : ℕ) → two_bytes n ≡ n % 256 ∷ n / 256 % 256 ∷ []
two_bytes_lem n = ground (arith, bit_and_byte n, bit_and_byte (n / 256))

-- Two bytes read back as the number that was written.
pub read_u16-two_bytes : (n : ℕ) (rest : Bytes) → n < 65536 → read_u16 (two_bytes n ++ rest) ≡ n
unfolding read_u16
read_u16-two_bytes n rest h =
    ground (arith, bit_and_byte n, bit_and_byte (n / 256), bit_or_low_high 8 (n % 256) (n / 256))

-- The four bytes of a float are decoded as its bits, whatever stands behind them.
pub decode_float-bytes :
    (bits : ℕ) (rest : Bytes) → bits < 2 ^ 32 → decode_float (append_float [] bits ++ rest) ≡ bits
unfolding decode_float append_float
decode_float-bytes bits rest h = ground (
  arith,
  bit_and_byte bits,
  bit_and_byte (bits / 2 ^ 8),
  bit_and_byte (bits / 2 ^ 16),
  bit_and_byte (bits / 2 ^ 24),
  bit_or_low_high 8 (bits % 2 ^ 8) (bits / 2 ^ 8 % 256),
  bit_or_low_high 16 (bits % 2 ^ 16) (bits / 2 ^ 16 % 256),
  bit_or_low_high 24 (bits % 2 ^ 24) (bits / 2 ^ 24 % 256),
)

-- A float, as a number of 32 bits, that append_float puts behind a payload is decoded from there
-- as the same bits.
pub decode_float-append_float :
    (payload : Bytes) (bits : ℕ)
    → bits < 2 ^ 32
    → decode_float (drop (length payload) (append_float payload bits)) ≡ bits
unfolding append_float
decode_float-append_float payload bits h =
    rw (drop-append (length payload) payload _ refl) (decode_float-bytes bits [] h)

frame_body-length : (id : ℕ) (payload : Bytes) → length (frame_body id payload) ≡ 6 + length payload
unfolding frame_body
frame_body-length id payload = omega arith

encode_frame_small :
    (id : ℕ) (payload : Bytes)
    → length payload ≤ 65535
    → encode_frame id payload ≡ frame_body id payload ++ two_bytes (crc16 (frame_body id payload))
unfolding encode_frame
encode_frame_small id payload h = rw (le→not-ltb 65535 (length payload) h)

-- All of a frame whose payload has at most 65535 bytes has the checksum 0.
pub crc16-encode_frame :
    (id : ℕ) (payload : Bytes) → length payload ≤ 65535 → crc16 (encode_frame id payload) ≡ 0
crc16-encode_frame id payload h =
    rw (encode_frame_small id payload h, two_bytes_lem (crc16 (frame_body id payload)))
      (crc16-append_own (frame_body id payload))

-- A frame whose payload has at most 65535 bytes consists of the preamble, the id, the size, the
-- payload and two more bytes.
pub encode_frame_shape :
    (id : ℕ) (payload : Bytes)
    → length payload ≤ 65535
    → (tail : Bytes) × (length tail ≡ 2)
      × (encode_frame id payload
          ≡ 0xaa ∷ 0xaa ∷ 0xaa ∷ id ∷ (two_bytes (length payload) ++ (payload ++ tail)))
unfolding frame_body
encode_frame_shape id payload h =
    (two_bytes (crc16 (frame_body id payload)), refl, encode_frame_small id payload h ∙ rw (fits))
  where
    fits : u16 (length payload) ≡ length payload
    fits = omega arith
