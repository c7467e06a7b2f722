-- ===== src/Driver/Examples.antt =====
-- Runs of the node of wsg50_driver/src/main.cpp on concrete parameters, goals and states.
use wsg50_ros2_humble.Base.{◌+◌, ◌*◌, ◌≡◌, refl, true, false, none, [], ◌∷◌, arith, max, Returns}
use wsg50_ros2_humble.Driver.{pos, validate_parameters, duration}
use wsg50_ros2_humble.Driver.Goals.{mode_grasp, handle_standard_goal, connection_is_ready}
use wsg50_ros2_humble.Driver.Motion.{motion_payload, wait_for_settled_state}
use wsg50_ros2_humble.Driver.Motion.Settling.{EndsAt, wait_for_settled_state-EndsAt}
use wsg50_ros2_humble.Driver.Motion.Commands.{HoldsTwo, motion_payload-HoldsTwo}
use wsg50_ros2_humble.Driver.Samples.{
  thousandths, nan, fixed, fixed_bits, parameters, initialization, ready_state, grasp_goal,
  moving_state,
}

parameters_valid : validate_parameters fixed parameters ≡ none
unfolding validate_parameters
parameters_valid = refl

grasp_goal_accepted :
    handle_standard_goal fixed parameters initialization ready_state grasp_goal ≡ true
unfolding handle_standard_goal
grasp_goal_accepted = refl

initialization_ready : connection_is_ready initialization ready_state ≡ true
unfolding connection_is_ready
initialization_ready = refl

-- A speed that is a NaN passes the validation, and then no standard goal is accepted.
nan_passes : validate_parameters fixed (record parameters { default_speed = nan }) ≡ none
unfolding validate_parameters
nan_passes = refl

nan_rejects :
    handle_standard_goal fixed
      (record parameters { default_speed = nan })
      initialization
      ready_state
      grasp_goal
    ≡ false
unfolding handle_standard_goal
nan_rejects = refl

motion_payload-HoldsTwo_example :
    HoldsTwo 0 50000 10000 (motion_payload fixed mode_grasp (thousandths 50) (thousandths 10) false)
motion_payload-HoldsTwo_example =
    motion_payload-HoldsTwo fixed fixed_bits mode_grasp (thousandths 50) (thousandths 10) false

wait_for_settled_state-EndsAt_example :
    Returns
      (EndsAt fixed parameters
        (thousandths 50)
        false
        true
        (100 + max 500 (duration (pos 50) * 3))
        ((200, ready_state) ∷ ((700, ready_state) ∷ []))
        moving_state)
      (wait_for_settled_state fixed parameters
        (thousandths 50)
        false
        true
        100
        ((200, ready_state) ∷ ((700, ready_state) ∷ []))
        moving_state)
unfolding duration
wait_for_settled_state-EndsAt_example =
    wait_for_settled_state-EndsAt fixed parameters (thousandths 50) false true 100
      ((200, ready_state) ∷ []) 700 ready_state moving_state (omega arith)
