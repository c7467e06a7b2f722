-- ===== src/Driver/Motion/Commands.antt =====
-- The payload of the motion commands of wsg50_driver/src/main.cpp, read back as the device reads it.
use wsg50_ros2_humble.Base.{
  ℕ, ◌+◌, ◌^◌, ◌<◌, ◌≡◌, refl, Bool, true, false, [], ◌∷◌, length, drop, ◌==◌, if◌then◌else◌,
}
use wsg50_ros2_humble.Wire.Bytes.{Bytes, decode_float, append_float}
use wsg50_ros2_humble.Wire.Frame.Shape.{decode_float-bytes}
use wsg50_ros2_humble.Driver.{Doubles}
use wsg50_ros2_humble.Driver.Goals.{mode_move}
use wsg50_ros2_humble.Driver.Motion.{thousandfold, motion_payload}

-- A payload holds two floats behind `start` bytes, and nothing else.
pub record HoldsTwo (start width speed : ℕ) (payload : Bytes) : Type 0 where
  pub size : length payload ≡ start + 8
  pub first : decode_float (drop start payload) ≡ width
  pub second : decode_float (drop (start + 4) payload) ≡ speed

two_floats :
    (a b : ℕ) → a < 2 ^ 32 → b < 2 ^ 32 → HoldsTwo 0 a b (append_float (append_float [] a) b)
unfolding append_float
two_floats a b ha hb = record {
  size = refl;
  first = decode_float-bytes a (append_float [] b) ha;
  second = decode_float-bytes b [] hb;
}

two_floats_behind :
    (x a b : ℕ)
    → a < 2 ^ 32
    → b < 2 ^ 32
    → HoldsTwo 1 a b (append_float (append_float (x ∷ []) a) b)
unfolding append_float
two_floats_behind x a b ha hb = record {
  size = refl;
  first = decode_float-bytes a (append_float [] b) ha;
  second = decode_float-bytes b [] hb;
}

module _ (F : Doubles) (narrow_bits : (x : F.Double) → F.narrow x < 2 ^ 32) where
  -- If conversions to float give 32 bits, the payload of a move is a flag byte and then width and
  -- speed in millimetres as floats that decode_float reads back; for a grasp or a release it has
  -- the two floats only.
  pub motion_payload-HoldsTwo :
      (mode : ℕ) (width speed : F.Double) (stop_on_block : Bool)
      → HoldsTwo
          (if mode == mode_move then 1 else 0)
          (F.narrow (thousandfold F width))
          (F.narrow (thousandfold F speed))
          (motion_payload F mode width speed stop_on_block)
  unfolding motion_payload
  motion_payload-HoldsTwo mode width speed stop_on_block = by_mode (mode == mode_move)
    where
      w : ℕ
      w = F.narrow (thousandfold F width)

      v : ℕ
      v = F.narrow (thousandfold F speed)

      flag : ℕ
      flag = if stop_on_block then 2 else 0

      by_mode :
          (move : Bool)
          → HoldsTwo (if move then 1 else 0) w v (
              if move
              then append_float (append_float (flag ∷ []) w) v
              else append_float (append_float [] w) v)
      by_mode true = two_floats_behind flag w v (narrow_bits _) (narrow_bits _)
      by_mode false = two_floats w v (narrow_bits _) (narrow_bits _)
