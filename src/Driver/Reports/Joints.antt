-- ===== src/Driver/Reports/Joints.antt =====
-- The joint states of wsg50_driver/src/main.cpp.
use wsg50_ros2_humble.Base.{ℕ, ◌≡◌, true, some, arith}
use wsg50_ros2_humble.Device.{DeviceState}
use wsg50_ros2_humble.Driver.{Doubles, minimum_width, maximum_width}
use wsg50_ros2_humble.Driver.Goals.{Compares, within}
use wsg50_ros2_humble.Driver.Reports.{JointState, publish_state, joint_state, state_message}

-- If comparisons of doubles behave as on finite numbers, a joint state is only published of a
-- connected device, with a width in the state message that goals may ask for, and it is the
-- joint state of that message.
pub publish_state-within :
    (F : Doubles) (now : ℕ) (state : DeviceState) (joints : JointState F)
    → Compares F
    → (publish_state F now state).1 ≡ some joints
    → (state.connected ≡ true)
      × (within F (publish_state F now state).0.width (minimum_width F) (maximum_width F) ≡ true)
      × (joints ≡ joint_state F (publish_state F now state).0)
unfolding publish_state
publish_state-within F now state joints c h =
    let w = (state_message F now state).width in
    let low = c.not_below w (minimum_width F) in
    let high = c.not_below (maximum_width F) w in
    let bottom = c.literals 0 1 in
    let top = c.literals 110 1000 in (ground arith, ground arith, ground arith)
