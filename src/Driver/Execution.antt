-- ===== src/Driver/Execution.antt =====
-- What GripperDriver::execute_standard and execute_advanced of wsg50_driver/src/main.cpp share. What
-- the other threads decide (the replies, the states and the clock that are read, the cancellations,
-- the generation of the latest goal) is a record that the caller gives; what the thread does is a
-- list of events. The two functions are in the children Standard and Advanced.
pub mod Standard
pub mod Advanced
pub mod Once
pub mod Endings
pub mod Every
pub mod Success
pub mod Orders
mod Examples
use wsg50_ros2_humble.Base.{ℕ, ◌&&◌, ◌||◌, not, Bool, List, [], ◌∷◌, ◌==◌, if◌then◌else◌}
use wsg50_ros2_humble.Device.{CommandReply, success, DeviceState, status_axis_blocked}
use wsg50_ros2_humble.Driver.{Doubles, Parameters}
use wsg50_ros2_humble.Driver.Motion.{motion_reached}

-- One round of the loop that waits for the reply to the motion: the state, is_canceling() and the
-- generation of the latest goal.
pub record Watch : Type 0 where
  pub state : DeviceState
  pub canceling : Bool
  pub latest : ℕ

-- What is read at the start, the replies, the state that is read where a setting fails, the rounds
-- of the wait for the motion, the readings of wait_for_settled_state, and what is read at the end.
pub record Surroundings : Type 0 where
  pub latest_before : ℕ
  pub shutting_down : Bool
  pub canceling_before : Bool
  pub acceleration_reply : CommandReply
  pub force_reply : CommandReply
  pub refused_state : DeviceState
  pub watches : List Watch
  pub motion_reply : CommandReply
  pub settle_start : ℕ
  pub settle_state : DeviceState
  pub settle_readings : List (ℕ × DeviceState)
  pub canceling_after : Bool
  pub latest_after : ℕ

-- `motion_started` has the arguments of start_motion, `feedback` the state that is shown and
-- whether the goal is reached; `finished` is the call of finish_motion.
pub data Event (Double Result : Type 0) : Type 0 where
  acceleration_set : Double → Event Double Result
  force_set : Double → Event Double Result
  motion_started : ℕ → Double → Double → Bool → Event Double Result
  feedback : DeviceState → Bool → Event Double Result
  stop_sent : Event Double Result
  canceled : Result → Event Double Result
  aborted : Result → Event Double Result
  succeeded : Result → Event Double Result
  finished : Event Double Result

abbrev pub motion_is_ok : Bool → CommandReply → Bool
motion_is_ok grasp reply = success reply || (grasp && reply.status == status_axis_blocked)

module _ (F : Doubles) (Result : Type 0) where
  -- The loop that waits for the motion; the flag is `stop_sent`.
  unfoldable pub watch_loop :
      Parameters F → F.Double → Bool → ℕ → List Watch → Bool → List (Event F.Double Result)
  watch_loop p target grasp generation [] stopped = []
  watch_loop p target grasp generation (w ∷ ws) stopped =
      let stop = not stopped && (w.canceling || not (generation == w.latest)) in
      let rest = watch_loop p target grasp generation ws (stopped || stop) in
      feedback w.state (motion_reached F p target grasp w.state)
      ∷ (if stop then stop_sent ∷ rest else rest)
