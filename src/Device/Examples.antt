-- ===== src/Device/Examples.antt =====
-- Runs of the texts and reports of the device in wsg50_driver/src/transport.cpp.
use wsg50_ros2_humble.Base.{◌≡◌, refl, [], ◌∷◌, arith}
use wsg50_ros2_humble.Device.{initial_state, status_text, update_state}
use wsg50_ros2_humble.Device.Telemetry.{report, update_state-report}

status_text_blocked : status_text 29 ≡ "axis blocked"
unfolding status_text
status_text_blocked = refl

status_text_unknown : status_text 1234 ≡ "unknown status 1234"
unfolding status_text
status_text_unknown = refl

-- A report of 100.0 with a byte more than it needs.
update_state-report_example :
    (update_state 9 0x43 0 (report 0x42c80000 (7 ∷ [])) initial_state
      ≡ record initial_state { opening_mm = 0x42c80000; opening_updated_at = 9; updated_at = 9 })
    × (update_state 9 0x44 0 (report 0x42c80000 (7 ∷ [])) initial_state
        ≡ record initial_state { speed_mm_s = 0x42c80000; updated_at = 9 })
    × (update_state 9 0x45 0 (report 0x42c80000 (7 ∷ [])) initial_state
        ≡ record initial_state { force_n = 0x42c80000; updated_at = 9 })
update_state-report_example = update_state-report 9 0x42c80000 (7 ∷ []) initial_state (omega arith)
