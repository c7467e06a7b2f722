-- ===== src/Driver/Execution/Endings.antt =====
-- How execute_standard and execute_advanced of wsg50_driver/src/main.cpp end a goal.
use wsg50_ros2_humble.Base.{
  ℕ, ◌+◌, ◌*◌, ◌≤◌, ◌≡◌, refl, Bool, true, false, List, [], ◌∷◌, ◌++◌, arith, max, if◌then◌else◌,
  Returns, Returns-bind, Outcome, returns, ◌>>=◌,
}
use wsg50_ros2_humble.Device.{DeviceState}
use wsg50_ros2_humble.Driver.{Doubles, Parameters, duration}
use wsg50_ros2_humble.Driver.Goals.{
  AdvancedGoal, StandardGoal, is_grasp, standard_force, mode_grasp, mode_move,
}
use wsg50_ros2_humble.Driver.Motion.{wait_for_settled_state}
use wsg50_ros2_humble.Driver.Motion.Settling.{wait_for_settled_state-EndsAt}
use wsg50_ros2_humble.Driver.Execution.{
  Surroundings, Event, acceleration_set, force_set, canceled, aborted, finished, motion_is_ok,
}
use wsg50_ros2_humble.Driver.Execution.Advanced.{
  AdvancedResult, advanced_grasp, advanced_result, conclude, move_advanced, execute_advanced,
}
use wsg50_ros2_humble.Driver.Execution.Standard.{
  StandardResult, standard_result, conclude_standard, move_standard, execute_standard,
}
use wsg50_ros2_humble.Driver.Execution.Once.{EndsOnce, is_ending, moved-EndsOnce}

module _ {Double Result : Type 0} where
  -- The way from the first test to the motion, which both functions take: a stale goal is ended at
  -- once, and so is one whose acceleration or force the device refuses.
  guarded :
      (stale canceling slow weak : Bool) (x y r r' : Result) (a f : Double)
      (moves : Outcome (List (Event Double Result)))
      → Returns (λ es. EndsOnce (acceleration_set a ∷ force_set f ∷ es)) moves
      → Returns EndsOnce (
          if stale
          then returns ((if canceling then canceled x else aborted y) ∷ finished ∷ [])
          else if slow
          then returns (acceleration_set a ∷ aborted r ∷ finished ∷ [])
          else if weak
          then returns (acceleration_set a ∷ force_set f ∷ aborted r' ∷ finished ∷ [])
          else (moves >>= λ es. returns (acceleration_set a ∷ force_set f ∷ es)))
  guarded true true slow weak x y r r' a f moves h = record {
    front = [];
    ending = canceled x;
    shape = refl;
    ends = refl;
    not_before = refl;
    one_stop = omega arith;
  }
  guarded true false slow weak x y r r' a f moves h = record {
    front = [];
    ending = aborted y;
    shape = refl;
    ends = refl;
    not_before = refl;
    one_stop = omega arith;
  }
  guarded false canceling true weak x y r r' a f moves h = record {
    front = acceleration_set a ∷ [];
    ending = aborted r;
    shape = refl;
    ends = refl;
    not_before = refl;
    one_stop = omega arith;
  }
  guarded false canceling false true x y r r' a f moves h = record {
    front = acceleration_set a ∷ force_set f ∷ [];
    ending = aborted r';
    shape = refl;
    ends = refl;
    not_before = refl;
    one_stop = omega arith;
  }
  guarded false canceling false false x y r r' a f moves h =
      Returns-bind (λ es. EndsOnce (acceleration_set a ∷ force_set f ∷ es)) EndsOnce moves _ h
        (λ es k. k)

pub conclude-ends :
    (F : Doubles) (goal : AdvancedGoal F) (generation : ℕ) (s : Surroundings) (r : AdvancedResult F)
    → is_ending (conclude F goal generation s r) ≡ true
unfolding conclude
conclude-ends F goal generation s r = ground arith

pub conclude_standard-ends :
    (F : Doubles) (goal : StandardGoal F) (generation : ℕ) (s : Surroundings) (r : StandardResult F)
    → is_ending (conclude_standard F goal generation s r) ≡ true
unfolding conclude_standard
conclude_standard-ends F goal generation s r = ground arith

module _ (F : Doubles) (p : Parameters F) (generation : ℕ) (s : Surroundings)
    (before : List (ℕ × DeviceState)) (now : ℕ) (next : DeviceState)
    (e : s.settle_readings ≡ before ++ (now, next) ∷ [])
    (late : s.settle_start + max 500 (duration p.state_update_period_ms * 3) ≤ now) where
  -- The wait for the settled state returns, so what is done with the state is done.
  settled_bind :
      {A : Type 0} (Q : A → Type 0) (target : F.Double) (grasp ok : Bool)
      (f : DeviceState → Outcome A)
      → ((state : DeviceState) → Returns Q (f state))
      → Returns Q (
          wait_for_settled_state F p target grasp ok s.settle_start s.settle_readings s.settle_state
          >>= f)
  settled_bind Q target grasp ok f h = rw e (
      Returns-bind _ Q
        (wait_for_settled_state F p target grasp ok s.settle_start (before ++ (now, next) ∷ [])
          s.settle_state)
        f
        (wait_for_settled_state-EndsAt F p target grasp ok s.settle_start before now next
          s.settle_state late)
        (λ state _. h state))

  advanced_moves :
      (goal : AdvancedGoal F)
      → Returns
          (λ es. EndsOnce (acceleration_set goal.acceleration ∷ force_set goal.force ∷ es))
          (move_advanced F p goal generation s)
  unfolding move_advanced
  advanced_moves goal =
      let grasp = advanced_grasp F goal in
      settled_bind (λ es. EndsOnce (acceleration_set goal.acceleration ∷ force_set goal.force ∷ es))
        goal.width grasp (motion_is_ok grasp s.motion_reply) _
        (λ state.
          moved-EndsOnce F (AdvancedResult F) p goal.width grasp generation s.watches
            goal.acceleration goal.force goal.mode goal.width goal.speed goal.stop_on_block _
            (conclude-ends F goal generation s (advanced_result F p goal s.motion_reply state)))

  standard_moves :
      (goal : StandardGoal F)
      → Returns
          (λ es.
            EndsOnce
              (acceleration_set p.default_acceleration ∷ force_set (standard_force F p goal) ∷ es))
          (move_standard F p goal generation s)
  unfolding move_standard
  standard_moves goal =
      let grasp = is_grasp F goal in
      settled_bind
        (λ es.
          EndsOnce
            (acceleration_set p.default_acceleration ∷ force_set (standard_force F p goal) ∷ es))
        goal.position grasp (motion_is_ok grasp s.motion_reply) _
        (λ state.
          moved-EndsOnce F (StandardResult F) p goal.position grasp generation s.watches
            p.default_acceleration (standard_force F p goal)
            (if grasp then mode_grasp else mode_move) goal.position p.default_speed false _
            (conclude_standard-ends F goal generation s
              (standard_result F p goal s.motion_reply state)))

  -- If the last reading of wait_for_settled_state reaches its deadline, execute_advanced returns, and
  -- on every path the goal has been ended exactly once, right before finish_motion, and the motion
  -- has been stopped once at most.
  pub execute_advanced-EndsOnce :
      (goal : AdvancedGoal F) → Returns EndsOnce (execute_advanced F p goal generation s)
  unfolding execute_advanced
  execute_advanced-EndsOnce goal =
      guarded _ s.canceling_before _ _ _ _ _ _ _ _ (move_advanced F p goal generation s)
        (advanced_moves goal)

  -- If the last reading of wait_for_settled_state reaches its deadline, execute_standard
  -- returns, and on every path the goal has been ended exactly once, right before
  -- finish_motion, and the motion has been stopped once at most.
  pub execute_standard-EndsOnce :
      (goal : StandardGoal F) → Returns EndsOnce (execute_standard F p goal generation s)
  unfolding execute_standard
  execute_standard-EndsOnce goal =
      guarded _ s.canceling_before _ _ _ _ _ _ _ _ (move_standard F p goal generation s)
        (standard_moves goal)
