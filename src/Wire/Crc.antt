-- ===== src/Wire/Crc.antt =====
-- Transport::crc16 of wsg50_driver/src/transport.cpp. The table of the polynomial 0x1021 is
-- computed bit by bit, and shifted in from the low byte.
pub mod Residue
use wsg50_ros2_humble.Base.{ℕ, zero, suc, [], ◌∷◌, bit_and, bit_xor, ◌==◌, if◌then◌else◌}
use wsg50_ros2_humble.Wire.Bytes.{Bytes, u16, ◌<<<◌, ◌>>>◌}

-- One round of the loop over the bits.
table_round : ℕ → ℕ
table_round v = if bit_and v 0x8000 == 0 then u16 (v <<< 1) else u16 (bit_xor (v <<< 1) 0x1021)

table_rounds : ℕ → ℕ → ℕ
table_rounds zero v = v
table_rounds (suc bits) v = table_rounds bits (table_round v)

-- One round of the loop over the bytes.
pub crc_byte : ℕ → ℕ → ℕ
unfolding table_rounds table_round
crc_byte crc d =
    u16 (bit_xor (table_rounds 8 (u16 (bit_and (bit_xor crc d) 0xff <<< 8))) (crc >>> 8))

pub crc_bytes : ℕ → Bytes → ℕ
crc_bytes crc [] = crc
crc_bytes crc (d ∷ rest) = crc_bytes (crc_byte crc d) rest

unfoldable pub crc16 : Bytes → ℕ
unfolding crc_bytes crc_byte
crc16 bytes = crc_bytes 0xffff bytes
