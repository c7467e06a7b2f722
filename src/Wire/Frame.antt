-- ===== src/Wire/Frame.antt =====
-- Transport::encode_frame of wsg50_driver/src/transport.cpp.
pub mod Shape
use wsg50_ros2_humble.Base.{ℕ, [], ◌∷◌, ◌++◌, bit_and, ltb, length, if◌then◌else◌}
use wsg50_ros2_humble.Wire.Bytes.{Bytes, u8, u16, ◌>>>◌}
use wsg50_ros2_humble.Wire.Crc.{crc16}

abbrev pub preamble_byte : ℕ
preamble_byte = 0xaa

abbrev pub header_size : ℕ
header_size = 6

abbrev pub frame_overhead : ℕ
frame_overhead = 8

-- A number as the two bytes that are pushed for it, low byte first.
abbrev pub two_bytes : ℕ → Bytes
two_bytes n = u8 (bit_and n 0xff) ∷ u8 (bit_and (n >>> 8) 0xff) ∷ []

-- The frame without its checksum.
frame_body : ℕ → Bytes → Bytes
frame_body id payload =
    (preamble_byte ∷ preamble_byte ∷ preamble_byte ∷ id ∷ two_bytes (u16 (length payload)))
    ++ payload

unfoldable pub encode_frame : ℕ → Bytes → Bytes
unfolding frame_body crc16
encode_frame id payload =
    if ltb 65535 (length payload)
    then []
    else (let frame = frame_body id payload in frame ++ two_bytes (crc16 frame))
