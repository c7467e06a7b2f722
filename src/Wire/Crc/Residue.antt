-- ===== src/Wire/Crc/Residue.antt =====
-- The residue of crc16 in wsg50_driver/src/transport.cpp, which
-- Transport::parse_frames tests a frame by.
use wsg50_ros2_humble.Base.{
  ℕ, ◌/◌, ◌%◌, ◌<◌, ◌≡◌, refl, ◌∙◌, [], ◌∷◌, ◌++◌, bit_and, bit_xor, arith,
}
use wsg50_ros2_humble.Wire.Bytes.{Bytes}
use wsg50_ros2_humble.Wire.Bits.{zero-xor, xor_self, xor_low_byte, bit_and_byte}
use wsg50_ros2_humble.Wire.Crc.{crc_byte, crc_bytes, crc16}

crc_byte-lt : (crc d : ℕ) → crc_byte crc d < 65536
unfolding crc_byte
crc_byte-lt crc d = omega arith

crc_bytes-lt : (bytes : Bytes) (crc : ℕ) → crc < 65536 → crc_bytes crc bytes < 65536
unfolding crc_bytes
crc_bytes-lt [] crc h = h
crc_bytes-lt (d ∷ rest) crc h = crc_bytes-lt rest (crc_byte crc d) (crc_byte-lt crc d)

pub crc16-lt : (bytes : Bytes) → crc16 bytes < 65536
unfolding crc16
crc16-lt bytes = crc_bytes-lt bytes 0xffff (omega arith)

pub crc_bytes-append :
    (xs ys : Bytes) (crc : ℕ) → crc_bytes crc (xs ++ ys) ≡ crc_bytes (crc_bytes crc xs) ys
unfolding crc_bytes
crc_bytes-append [] ys crc = refl
crc_bytes-append (x ∷ xs) ys crc = crc_bytes-append xs ys (crc_byte crc x)

-- A byte that meets its own low byte indexes the table's entry 0, so only the shift is left.
crc_byte_low :
    (crc d : ℕ) → crc < 65536 → bit_and (bit_xor crc d) 0xff ≡ 0 → crc_byte crc d ≡ crc / 256
unfolding crc_byte
crc_byte_low crc d h e = rw e (rw zero-xor (omega arith))

low_byte_cancels : (crc : ℕ) → bit_and (bit_xor crc (crc % 256)) 0xff ≡ 0
low_byte_cancels crc = omega (arith, bit_and_byte (bit_xor crc (crc % 256)), xor_low_byte crc)

crc_bytes-own : (crc : ℕ) → crc < 65536 → crc_bytes crc (crc % 256 ∷ crc / 256 % 256 ∷ []) ≡ 0
unfolding crc_bytes
crc_bytes-own crc h =
    rw (crc_byte_low crc (crc % 256) h (low_byte_cancels crc))
      (omega (arith, crc_byte_low (crc / 256) (crc / 256 % 256) (omega arith) high_byte_cancels))
  where
    high_byte_cancels : bit_and (bit_xor (crc / 256) (crc / 256 % 256)) 0xff ≡ 0
    high_byte_cancels = ground (arith, xor_self (crc / 256), bit_and_byte 0)

-- Bytes followed by their own checksum, low byte first, have the checksum 0.
pub crc16-append_own :
    (bytes : Bytes) → crc16 (bytes ++ (crc16 bytes % 256 ∷ crc16 bytes / 256 % 256 ∷ [])) ≡ 0
unfolding crc16
crc16-append_own bytes =
    crc_bytes-append bytes _ 0xffff ∙ crc_bytes-own (crc_bytes 0xffff bytes) (crc16-lt bytes)
