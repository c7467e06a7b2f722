-- ===== src/Driver/Reports/Examples.antt =====
-- Runs of publish_state and publish_diagnostics of wsg50_driver/src/main.cpp.
use wsg50_ros2_humble.Base.{◌≡◌, ◌≢◌, refl, true, false}
use wsg50_ros2_humble.Device.{DeviceState, system_temperature_fault}
use wsg50_ros2_humble.Driver.{minimum_width, maximum_width}
use wsg50_ros2_humble.Driver.Goals.{connection_is_ready, within}
use wsg50_ros2_humble.Driver.Setup.{Setup}
use wsg50_ros2_humble.Driver.Reports.{
  ok, diagnose, JointState, state_message, joint_state, publish_state,
}
use wsg50_ros2_humble.Driver.Reports.Ready.{diagnose-connection_is_ready}
use wsg50_ros2_humble.Driver.Reports.Joints.{publish_state-within}
use wsg50_ros2_humble.Driver.Reports.Faults.{temperature, fault-diagnose}
use wsg50_ros2_humble.Driver.Samples.{fixed, fixed-Compares, initialization, ready_state}

abbrev setup : Setup
setup = record { done = initialization; running = false }

abbrev hot_state : DeviceState
hot_state = record ready_state { system_state = system_temperature_fault }

diagnose-connection_is_ready_example : connection_is_ready setup.done ready_state ≡ true
unfolding diagnose
diagnose-connection_is_ready_example = diagnose-connection_is_ready 150 50 setup ready_state refl

fault-diagnose_example : (diagnose 150 50 setup hot_state).level ≢ ok
fault-diagnose_example = fault-diagnose 150 50 setup hot_state temperature refl

abbrev joints : JointState fixed
joints = joint_state fixed (state_message fixed 7 ready_state)

publish_state-within_example :
    (ready_state.connected ≡ true)
    × (within fixed
          (publish_state fixed 7 ready_state).0.width
          (minimum_width fixed)
          (maximum_width fixed)
        ≡ true)
    × (joints ≡ joint_state fixed (publish_state fixed 7 ready_state).0)
unfolding publish_state
publish_state-within_example = publish_state-within fixed 7 ready_state joints fixed-Compares refl
