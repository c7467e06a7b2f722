-- ===== src/Device/Telemetry.antt =====
-- The reports of opening, speed and force that update_state of wsg50_driver/src/transport.cpp reads.
use wsg50_ros2_humble.Base.{ℕ, ◌^◌, ◌<◌, ◌≡◌, refl, true, [], ◌∷◌, ◌++◌, leb, length, arith}
use wsg50_ros2_humble.Wire.Bytes.{Bytes, append_float}
use wsg50_ros2_humble.Wire.Frame.Shape.{decode_float-bytes}
use wsg50_ros2_humble.Device.{DeviceState, update_state}

-- A report of success with a float.
abbrev pub report : ℕ → Bytes → Bytes
report bits more = 0 ∷ 0 ∷ (append_float [] bits ++ more)

report_long : (bits : ℕ) (more : Bytes) → leb 6 (length (report bits more)) ≡ true
unfolding append_float
report_long bits more = ground arith

-- A float of 32 bits that append_float writes into a report of the opening, of the speed or of
-- the force, whatever bytes follow, is what update_state shows as that quantity, with the time
-- of the report; nothing else of the state changes.
pub update_state-report :
    (now bits : ℕ) (more : Bytes) (s : DeviceState)
    → bits < 2 ^ 32
    → (update_state now 0x43 0 (report bits more) s
        ≡ record s { opening_mm = bits; opening_updated_at = now; updated_at = now })
      × (update_state now 0x44 0 (report bits more) s
          ≡ record s { speed_mm_s = bits; updated_at = now })
      × (update_state now 0x45 0 (report bits more) s
          ≡ record s { force_n = bits; updated_at = now })
unfolding update_state append_float
update_state-report now bits more s h =
    let read = decode_float-bytes bits more h in
    let long = report_long bits more in
    (rw (long, read) refl, rw (long, read) refl, rw (long, read) refl)
