-- ===== src/Wire/Examples.antt =====
-- Runs of the frame format of wsg50_driver/src/transport.cpp on concrete bytes.
use wsg50_ros2_humble.Base.{◌≡◌, refl, [], ◌∷◌}
use wsg50_ros2_humble.Wire.Crc.{crc16}
use wsg50_ros2_humble.Wire.Frame.{encode_frame}

crc16_preamble : crc16 (0xaa ∷ 0xaa ∷ 0xaa ∷ []) ≡ 0x50f5
unfolding crc16
crc16_preamble = refl

-- The frame of the command 0x22, which stops the fingers.
encode_frame_stop : encode_frame 0x22 [] ≡ 0xaa ∷ 0xaa ∷ 0xaa ∷ 0x22 ∷ 0 ∷ 0 ∷ 0x0e ∷ 0x76 ∷ []
unfolding encode_frame
encode_frame_stop = refl
