-- ===== src/Driver/Execution/Standard.antt =====
-- GripperDriver::execute_standard of wsg50_driver/src/main.cpp.
use wsg50_ros2_humble.Base.{
  ℕ, ◌&&◌, ◌||◌, not, Bool, false, List, [], ◌∷◌, ◌++◌, ◌==◌, if◌then◌else◌, Outcome, returns,
  ◌>>=◌,
}
use wsg50_ros2_humble.Device.{CommandReply, success, DeviceState, status_axis_blocked}
use wsg50_ros2_humble.Driver.{Doubles, Parameters}
use wsg50_ros2_humble.Driver.Goals.{StandardGoal, is_grasp, standard_force, mode_move, mode_grasp}
use wsg50_ros2_humble.Driver.Motion.{opening_m, motion_reached, wait_for_settled_state}
use wsg50_ros2_humble.Driver.Execution.{
  Surroundings, Event, acceleration_set, force_set, motion_started, canceled, aborted, succeeded,
  finished, watch_loop, motion_is_ok,
}

module _ (F : Doubles) where
  pub record StandardResult : Type 0 where
    pub position : F.Double
    pub effort : F.Double
    pub stalled : Bool
    pub reached_goal : Bool

  abbrev pub StandardEvent : Type 0
  StandardEvent = Event F.Double StandardResult

  abbrev pub empty_standard : StandardResult
  empty_standard = record {
    position = F.quotient 0 1;
    effort = F.quotient 0 1;
    stalled = false;
    reached_goal = false;
  }

  unfoldable pub standard_result :
      Parameters F → StandardGoal F → CommandReply → DeviceState → StandardResult
  standard_result p goal reply state =
      let grasp = is_grasp F goal in
      record {
        position = opening_m F state;
        effort = F.widen state.force_n;
        stalled = state.stalled || (grasp && reply.status == status_axis_blocked);
        reached_goal = motion_is_ok grasp reply && motion_reached F p goal.position grasp state;
      }

  -- The end of the goal, once the state has been read.
  unfoldable pub conclude_standard :
      StandardGoal F → ℕ → Surroundings → StandardResult → StandardEvent
  conclude_standard goal generation s r =
      if s.canceling_after
      then canceled r
      else if not (generation == s.latest_after)
      then aborted r
      else if motion_is_ok (is_grasp F goal) s.motion_reply
          && (r.reached_goal || (is_grasp F goal && r.stalled))
      then succeeded r
      else aborted r

  -- From start_motion on.
  unfoldable pub move_standard :
      Parameters F → StandardGoal F → ℕ → Surroundings → Outcome (List StandardEvent)
  unfolding watch_loop conclude_standard standard_result
  move_standard p goal generation s = do
    state ←
        wait_for_settled_state F p goal.position (is_grasp F goal)
          (motion_is_ok (is_grasp F goal) s.motion_reply) s.settle_start s.settle_readings
          s.settle_state
    returns (
        motion_started (if is_grasp F goal then mode_grasp else mode_move) goal.position
          p.default_speed false
        ∷ (watch_loop F StandardResult p goal.position (is_grasp F goal) generation s.watches false
            ++ conclude_standard goal generation s (standard_result p goal s.motion_reply state)
              ∷ finished
              ∷ []))

  -- The result where a setting fails has the position only.
  abbrev pub refused_standard : DeviceState → StandardResult
  refused_standard state = record empty_standard { position = opening_m F state }

  unfoldable pub execute_standard :
      Parameters F → StandardGoal F → ℕ → Surroundings → Outcome (List StandardEvent)
  unfolding move_standard
  execute_standard p goal generation s =
      if not (generation == s.latest_before) || s.shutting_down
      then returns (
          (if s.canceling_before then canceled empty_standard else aborted empty_standard)
          ∷ finished
          ∷ [])
      else if not (success s.acceleration_reply)
      then returns (
          acceleration_set p.default_acceleration
          ∷ aborted (refused_standard s.refused_state)
          ∷ finished
          ∷ [])
      else if not (success s.force_reply)
      then returns (
          acceleration_set p.default_acceleration
          ∷ force_set (standard_force F p goal)
          ∷ aborted (refused_standard s.refused_state)
          ∷ finished
          ∷ [])
      else (do
        moved ← move_standard p goal generation s
        returns
            (acceleration_set p.default_acceleration ∷ force_set (standard_force F p goal) ∷ moved))
