-- ===== src/Driver/Reports/Ready.antt =====
-- What the diagnostics of wsg50_driver/src/main.cpp say, against what the node accepts.
use Prim.Native.String.{len}
use wsg50_ros2_humble.Base.{ℕ, ◌≡◌, ap, true, arith, String}
use wsg50_ros2_humble.Device.{DeviceState}
use wsg50_ros2_humble.Driver.Goals.{connection_is_ready}
use wsg50_ros2_humble.Driver.Setup.{Setup}
use wsg50_ros2_humble.Driver.Reports.{ok, diagnose}

not_ready : ◌≡◌ {A = String} "connected, not referenced" "ready" → ⊥
not_ready e = omega (arith, ap len e)

-- If the diagnostics say "ready" at the level OK, connection_is_ready holds for the same state
-- and initialization.
pub diagnose-connection_is_ready :
    (now period : ℕ) (setup : Setup) (state : DeviceState)
    → diagnose now period setup state ≡ record { level = ok; message = "ready" }
    → connection_is_ready setup.done state ≡ true
unfolding diagnose connection_is_ready
diagnose-connection_is_ready now period setup state h = ground (arith, not_ready)
