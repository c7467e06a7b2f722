-- ===== src/Driver/Execution/Examples.antt =====
-- Runs of execute_standard and execute_advanced of wsg50_driver/src/main.cpp: a grasp that stalls on an
-- object.
use wsg50_ros2_humble.Base.{List, inl, inr, returns, throws, waits, refl, [], arith, Returns}
use wsg50_ros2_humble.Device.{success}
use wsg50_ros2_humble.Driver.{duration}
use wsg50_ros2_humble.Driver.Motion.{motion_reached, wait_for_settled_state}
use wsg50_ros2_humble.Driver.Execution.{Event}
use wsg50_ros2_humble.Driver.Execution.Advanced.{
  AdvancedResult, advanced_result, conclude, execute_advanced,
}
use wsg50_ros2_humble.Driver.Execution.Standard.{
  StandardResult, standard_result, conclude_standard, execute_standard,
}
use wsg50_ros2_humble.Driver.Execution.Once.{EndsOnce}
use wsg50_ros2_humble.Driver.Execution.Endings.{
  execute_advanced-EndsOnce, execute_standard-EndsOnce,
}
use wsg50_ros2_humble.Driver.Execution.Success.{
  AdvancedDone, StandardDone, execute_advanced-Succeeds, execute_standard-Succeeds,
}
use wsg50_ros2_humble.Driver.Samples.{
  Fixed, fixed, parameters, grasp_goal, advanced_goal, blocked_state, surroundings,
}

execute_advanced-EndsOnce_example :
    Returns EndsOnce (execute_advanced fixed parameters advanced_goal 3 surroundings)
unfolding duration
execute_advanced-EndsOnce_example =
    execute_advanced-EndsOnce fixed parameters 3 surroundings [] 700 blocked_state refl
      (omega arith) advanced_goal

execute_standard-EndsOnce_example :
    Returns EndsOnce (execute_standard fixed parameters grasp_goal 3 surroundings)
unfolding duration
execute_standard-EndsOnce_example =
    execute_standard-EndsOnce fixed parameters 3 surroundings [] 700 blocked_state refl
      (omega arith) grasp_goal

abbrev shown_result : AdvancedResult fixed
shown_result =
    advanced_result fixed parameters advanced_goal surroundings.motion_reply blocked_state

-- Both settings, the motion, two feedbacks, and the success.
abbrev advanced_events : List (Event Fixed (AdvancedResult fixed))
advanced_events = elim (execute_advanced fixed parameters advanced_goal 3 surroundings) [
  | returns events ↦ events
  | throws ↦ []
  | waits ↦ []
]

execute_advanced-Succeeds_example :
    AdvancedDone fixed parameters 3 surroundings advanced_goal shown_result
unfolding execute_advanced conclude advanced_result motion_reached success duration
    wait_for_settled_state
execute_advanced-Succeeds_example =
    execute_advanced-Succeeds fixed parameters 3 surroundings advanced_goal advanced_events
      shown_result refl (inr (inr (inr (inr (inr (inl refl))))))

abbrev shown_standard : StandardResult fixed
shown_standard = standard_result fixed parameters grasp_goal surroundings.motion_reply blocked_state

abbrev standard_events : List (Event Fixed (StandardResult fixed))
standard_events = elim (execute_standard fixed parameters grasp_goal 3 surroundings) [
  | returns events ↦ events
  | throws ↦ []
  | waits ↦ []
]

execute_standard-Succeeds_example :
    StandardDone fixed parameters 3 surroundings grasp_goal shown_standard
unfolding execute_standard conclude_standard standard_result motion_reached success duration
    wait_for_settled_state
execute_standard-Succeeds_example =
    execute_standard-Succeeds fixed parameters 3 surroundings grasp_goal standard_events
      shown_standard refl (inr (inr (inr (inr (inr (inl refl))))))
