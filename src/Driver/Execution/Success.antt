-- ===== src/Driver/Execution/Success.antt =====
-- What execute_standard and execute_advanced of wsg50_driver/src/main.cpp have found where they make a
-- goal succeed, and what they tell the client.
use wsg50_ros2_humble.Base.{
  ℕ, ◌≡◌, Bool, true, false, not, ◌&&◌, ◌||◌, ◌==◌, List, In, arith, ==_iff, Outcome, returns,
  Yields, Yields-bind, Yields-at, Yields-self,
}
use wsg50_ros2_humble.Device.{DeviceState, success, status_axis_blocked}
use wsg50_ros2_humble.Driver.{Doubles, Parameters}
use wsg50_ros2_humble.Driver.Goals.{AdvancedGoal, StandardGoal, is_grasp}
use wsg50_ros2_humble.Driver.Motion.{motion_reached, wait_for_settled_state}
use wsg50_ros2_humble.Driver.Execution.{Surroundings, Event, succeeded, motion_is_ok}
use wsg50_ros2_humble.Driver.Execution.Every.{
  AllTell, Tells-if, In-Tells, watched-AllTell, guarded-AllTell,
}
use wsg50_ros2_humble.Driver.Execution.Advanced.{
  AdvancedResult, advanced_grasp, advanced_result, conclude, move_advanced, execute_advanced,
}
use wsg50_ros2_humble.Driver.Execution.Standard.{
  StandardResult, standard_result, conclude_standard, move_standard, execute_standard,
}

-- Nothing has taken the place of the goal, the device has accepted the motion, and the gripper is
-- there: within the tolerance, or, at a grasp, on an object.
pub record IsDone (F : Doubles) (p : Parameters F) (target : F.Double) (grasp : Bool)
    (generation : ℕ) (s : Surroundings) (state : DeviceState) : Type 0 where
  pub wanted : s.canceling_after ≡ false
  pub current : generation ≡ s.latest_after
  pub accepted : motion_is_ok grasp s.motion_reply ≡ true
  pub there :
      (motion_reached F p target grasp state
        || (grasp && s.motion_reply.status == status_axis_blocked))
      ≡ true

-- The whole way to a success: the goal was the latest one at the start, the device took the settings,
-- the state in which the gripper settled is as above, and `shown` of it is the result.
pub record Succeeds (F : Doubles) (p : Parameters F) (Result : Type 0)
    (shown : DeviceState → Result) (target : F.Double) (grasp : Bool) (generation : ℕ)
    (s : Surroundings) (r : Result) : Type 0 where
  pub was_current : generation ≡ s.latest_before
  pub was_up : s.shutting_down ≡ false
  pub accelerated : success s.acceleration_reply ≡ true
  pub forced : success s.force_reply ≡ true
  pub state : DeviceState
  pub settled :
      wait_for_settled_state F p target grasp
        (motion_is_ok grasp s.motion_reply)
        s.settle_start
        s.settle_readings
        s.settle_state
      ≡ returns state
  pub is_done : IsDone F p target grasp generation s state
  pub tells : r ≡ shown state

module _ (F : Doubles) (p : Parameters F) (generation : ℕ) (s : Surroundings)
    (state : DeviceState) where
  -- What conclude makes succeed.
  conclude-IsDone :
      (goal : AdvancedGoal F) (r : AdvancedResult F)
      → conclude F goal generation s (advanced_result F p goal s.motion_reply state) ≡ succeeded r
      → IsDone F p goal.width (advanced_grasp F goal) generation s state
        × (r ≡ advanced_result F p goal s.motion_reply state)
  unfolding conclude advanced_result motion_reached
  conclude-IsDone goal r h = (
    record {
      wanted = ground arith;
      current = (==_iff generation s.latest_after).0 (ground arith);
      accepted = ground arith;
      there = ground arith;
    },
    ground arith,
  )

  -- What conclude_standard makes succeed.
  conclude_standard-IsDone :
      (goal : StandardGoal F) (r : StandardResult F)
      → conclude_standard F goal generation s (standard_result F p goal s.motion_reply state)
        ≡ succeeded r
      → IsDone F p goal.position (is_grasp F goal) generation s state
        × (r ≡ standard_result F p goal s.motion_reply state)
  unfolding conclude_standard standard_result motion_reached
  conclude_standard-IsDone goal r h = (
    record {
      wanted = ground arith;
      current = (==_iff generation s.latest_after).0 (ground arith);
      accepted = ground arith;
      there = ground arith;
    },
    ground arith,
  )

module _ (F : Doubles) (p : Parameters F) (generation : ℕ) (s : Surroundings) where
  abbrev pub AdvancedDone : AdvancedGoal F → AdvancedResult F → Type 0
  AdvancedDone goal =
      Succeeds F p (AdvancedResult F) (advanced_result F p goal s.motion_reply) goal.width
        (advanced_grasp F goal) generation s

  abbrev pub StandardDone : StandardGoal F → StandardResult F → Type 0
  StandardDone goal =
      Succeeds F p (StandardResult F) (standard_result F p goal s.motion_reply) goal.position
        (is_grasp F goal) generation s

  move_advanced-AllTell :
      (goal : AdvancedGoal F)
      → (not (generation == s.latest_before) || s.shutting_down) ≡ false
      → not (success s.acceleration_reply) ≡ false
      → not (success s.force_reply) ≡ false
      → Yields
          (AllTell F (AdvancedResult F) (AdvancedDone goal))
          (move_advanced F p goal generation s)
  unfolding move_advanced
  move_advanced-AllTell goal fresh quick strong =
      Yields-bind (λ (state : DeviceState). settling ≡ returns state)
        (AllTell F (AdvancedResult F) (AdvancedDone goal)) settling _ (Yields-self settling)
        (λ state e. (
          tt,
          watched-AllTell F (AdvancedResult F) (AdvancedDone goal) p goal.width
              (advanced_grasp F goal) generation s.watches _
              (Tells-if F (AdvancedResult F) (AdvancedDone goal) _ (λ r h.
                let found = conclude-IsDone F p generation s state goal r h in
                record {
                  was_current = (==_iff generation s.latest_before).0 (ground (arith, fresh));
                  was_up = ground (arith, fresh);
                  accelerated = ground (arith, quick);
                  forced = ground (arith, strong);
                  state = state;
                  settled = e;
                  is_done = found.0;
                  tells = found.1;
                })),
        ))
    where
      settling : Outcome DeviceState
      settling =
          wait_for_settled_state F p goal.width (advanced_grasp F goal)
            (motion_is_ok (advanced_grasp F goal) s.motion_reply) s.settle_start s.settle_readings
            s.settle_state

  -- Where execute_advanced ends a goal as succeeded, it was the latest goal at both tests
  -- and uncancelled at the last, the settings were taken, the reply was a success or, at a
  -- grasp, "axis blocked", and the settled state was in the tolerance or, at a grasp,
  -- stalled or blocked; the result tells it.
  pub execute_advanced-Succeeds :
      (goal : AdvancedGoal F) (events : List (Event F.Double (AdvancedResult F)))
      (r : AdvancedResult F)
      → execute_advanced F p goal generation s ≡ returns events
      → In (succeeded r) events
      → AdvancedDone goal r
  unfolding execute_advanced
  execute_advanced-Succeeds goal events r e i =
      In-Tells F (AdvancedResult F) (AdvancedDone goal) (succeeded r) events
        (Yields-at (AllTell F (AdvancedResult F) (AdvancedDone goal))
          (guarded-AllTell F (AdvancedResult F) (AdvancedDone goal)
            (not (generation == s.latest_before) || s.shutting_down) s.canceling_before
            (not (success s.acceleration_reply)) (not (success s.force_reply)) _ _ _ _ _ _
            (move_advanced F p goal generation s) (move_advanced-AllTell goal))
          e)
        i

  move_standard-AllTell :
      (goal : StandardGoal F)
      → (not (generation == s.latest_before) || s.shutting_down) ≡ false
      → not (success s.acceleration_reply) ≡ false
      → not (success s.force_reply) ≡ false
      → Yields
          (AllTell F (StandardResult F) (StandardDone goal))
          (move_standard F p goal generation s)
  unfolding move_standard
  move_standard-AllTell goal fresh quick strong =
      Yields-bind (λ (state : DeviceState). settling ≡ returns state)
        (AllTell F (StandardResult F) (StandardDone goal)) settling _ (Yields-self settling)
        (λ state e. (
          tt,
          watched-AllTell F (StandardResult F) (StandardDone goal) p goal.position (is_grasp F goal)
              generation s.watches _
              (Tells-if F (StandardResult F) (StandardDone goal) _ (λ r h.
                let found = conclude_standard-IsDone F p generation s state goal r h in
                record {
                  was_current = (==_iff generation s.latest_before).0 (ground (arith, fresh));
                  was_up = ground (arith, fresh);
                  accelerated = ground (arith, quick);
                  forced = ground (arith, strong);
                  state = state;
                  settled = e;
                  is_done = found.0;
                  tells = found.1;
                })),
        ))
    where
      settling : Outcome DeviceState
      settling =
          wait_for_settled_state F p goal.position (is_grasp F goal)
            (motion_is_ok (is_grasp F goal) s.motion_reply) s.settle_start s.settle_readings
            s.settle_state

  -- Where execute_standard ends a goal as succeeded, it was the latest goal at both tests
  -- and uncancelled at the last, the settings were taken, the reply was a success or, at a
  -- grasp, "axis blocked", and the settled state was in the tolerance or, at a grasp,
  -- stalled or blocked; the result tells it.
  pub execute_standard-Succeeds :
      (goal : StandardGoal F) (events : List (Event F.Double (StandardResult F)))
      (r : StandardResult F)
      → execute_standard F p goal generation s ≡ returns events
      → In (succeeded r) events
      → StandardDone goal r
  unfolding execute_standard
  execute_standard-Succeeds goal events r e i =
      In-Tells F (StandardResult F) (StandardDone goal) (succeeded r) events
        (Yields-at (AllTell F (StandardResult F) (StandardDone goal))
          (guarded-AllTell F (StandardResult F) (StandardDone goal)
            (not (generation == s.latest_before) || s.shutting_down) s.canceling_before
            (not (success s.acceleration_reply)) (not (success s.force_reply)) _ _ _ _ _ _
            (move_standard F p goal generation s) (move_standard-AllTell goal))
          e)
        i
