-- ===== src/Driver/Execution/Advanced.antt =====
-- GripperDriver::execute_advanced of wsg50_driver/src/main.cpp.
use wsg50_ros2_humble.Base.{
  ℕ, ◌&&◌, ◌||◌, not, Bool, false, List, [], ◌∷◌, ◌++◌, String, ◌==◌, if◌then◌else◌, Outcome,
  returns, ◌>>=◌,
}
use wsg50_ros2_humble.Device.{
  CommandReply, success, DeviceState, status_command_aborted, status_axis_blocked,
}
use wsg50_ros2_humble.Driver.{Doubles, Parameters}
use wsg50_ros2_humble.Driver.Goals.{AdvancedGoal, mode_grasp}
use wsg50_ros2_humble.Driver.Motion.{opening_m, motion_reached, wait_for_settled_state}
use wsg50_ros2_humble.Driver.Execution.{
  Surroundings, Event, acceleration_set, force_set, motion_started, canceled, aborted, succeeded,
  finished, watch_loop, motion_is_ok,
}

module _ (F : Doubles) where
  pub record AdvancedResult : Type 0 where
    pub width : F.Double
    pub speed : F.Double
    pub force : F.Double
    pub stalled : Bool
    pub reached_goal : Bool
    pub status_code : ℕ
    pub message : String

  abbrev pub AdvancedEvent : Type 0
  AdvancedEvent = Event F.Double AdvancedResult

  abbrev pub empty_result : AdvancedResult
  empty_result = record {
    width = F.quotient 0 1;
    speed = F.quotient 0 1;
    force = F.quotient 0 1;
    stalled = false;
    reached_goal = false;
    status_code = 0;
    message = "";
  }

  abbrev pub preempted : AdvancedResult → AdvancedResult
  preempted r = record r {
    status_code = status_command_aborted;
    message = "preempted by a newer goal";
  }

  abbrev pub advanced_grasp : AdvancedGoal F → Bool
  advanced_grasp goal = goal.mode == mode_grasp

  unfoldable pub advanced_result :
      Parameters F → AdvancedGoal F → CommandReply → DeviceState → AdvancedResult
  advanced_result p goal reply state =
      let grasp = advanced_grasp goal in
      record {
        width = opening_m F state;
        speed = F.over (F.widen state.speed_mm_s) (F.quotient 1000 1);
        force = F.widen state.force_n;
        stalled = state.stalled || (grasp && reply.status == status_axis_blocked);
        reached_goal = motion_is_ok grasp reply && motion_reached F p goal.width grasp state;
        status_code = reply.status;
        message = reply.message;
      }

  -- The end of the goal, once the state has been read.
  unfoldable pub conclude : AdvancedGoal F → ℕ → Surroundings → AdvancedResult → AdvancedEvent
  conclude goal generation s r =
      if s.canceling_after
      then canceled r
      else if not (generation == s.latest_after)
      then aborted (preempted r)
      else if motion_is_ok (advanced_grasp goal) s.motion_reply
          && (r.reached_goal || (advanced_grasp goal && r.stalled))
      then succeeded r
      else aborted r

  -- From start_motion on.
  unfoldable pub move_advanced :
      Parameters F → AdvancedGoal F → ℕ → Surroundings → Outcome (List AdvancedEvent)
  unfolding watch_loop conclude advanced_result
  move_advanced p goal generation s = do
    state ←
        wait_for_settled_state F p goal.width (advanced_grasp goal)
          (motion_is_ok (advanced_grasp goal) s.motion_reply) s.settle_start s.settle_readings
          s.settle_state
    returns (
        motion_started goal.mode goal.width goal.speed goal.stop_on_block
        ∷ (watch_loop F AdvancedResult p goal.width (advanced_grasp goal) generation s.watches false
            ++ conclude goal generation s (advanced_result p goal s.motion_reply state)
              ∷ finished
              ∷ []))

  abbrev pub refused : CommandReply → AdvancedResult
  refused reply = record empty_result { status_code = reply.status; message = reply.message }

  unfoldable pub execute_advanced :
      Parameters F → AdvancedGoal F → ℕ → Surroundings → Outcome (List AdvancedEvent)
  unfolding move_advanced
  execute_advanced p goal generation s =
      if not (generation == s.latest_before) || s.shutting_down
      then returns (
          (if s.canceling_before then canceled empty_result else aborted (preempted empty_result))
          ∷ finished
          ∷ [])
      else if not (success s.acceleration_reply)
      then returns (
          acceleration_set goal.acceleration
          ∷ aborted (refused s.acceleration_reply)
          ∷ finished
          ∷ [])
      else if not (success s.force_reply)
      then returns (
          acceleration_set goal.acceleration
          ∷ force_set goal.force
          ∷ aborted (refused s.force_reply)
          ∷ finished
          ∷ [])
      else (do
        moved ← move_advanced p goal generation s
        returns (acceleration_set goal.acceleration ∷ force_set goal.force ∷ moved))
