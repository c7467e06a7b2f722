-- ===== src/Driver/Setup/Examples.antt =====
-- Runs of the setup of the node of wsg50_driver/src/main.cpp.
use wsg50_ros2_humble.Base.{
  ℕ, ◌-◌, ◌*◌, ◌/◌, ◌%◌, ◌^◌, ◌≡◌, refl, true, false, some, none, ltb, leb, arith,
}
use wsg50_ros2_humble.Device.{success}
use wsg50_ros2_humble.Transport.{default_options, init}
use wsg50_ros2_humble.Transport.Requests.{failure, start as start_transport}
use wsg50_ros2_humble.Driver.{
  Doubles, Declared, load_parameters, validate_parameters, int_under, int_over,
}
use wsg50_ros2_humble.Driver.Goals.{
  StandardGoal, Compares, connection_is_ready, handle_standard_goal,
}
use wsg50_ros2_humble.Driver.Setup.{Replies, construct, initialize_connection, initialize}
use wsg50_ros2_humble.Driver.Setup.Bounds.{InRange, validate-InRange}
use wsg50_ros2_humble.Driver.Setup.Defaults.{
  ComparesLiterals, KeepsDefaults, load_parameters-construct,
}
use wsg50_ros2_humble.Driver.Setup.Steps.{plan, up_to_failure, initialize-eq-up_to_failure}
use wsg50_ros2_humble.Driver.Setup.Threads.{
  Node, Reach, begin, later, first, start, reset, store_generation, store_success, finish, contains,
  connection_is_ready-contains, in_thread-refuses,
}
use wsg50_ros2_humble.Driver.Samples.{
  fixed, parameters, initialization, ready_state, accepted_reply,
}

validate-InRange_example : InRange fixed parameters
unfolding validate_parameters int_under int_over
validate-InRange_example = validate-InRange fixed parameters refl

-- The device does not take the force.
abbrev replies : Replies
replies = record {
  acceleration_reply = accepted_reply;
  force_reply = failure "range error";
  acknowledge_reply = accepted_reply;
  home_reply = accepted_reply;
}

initialize-eq-up_to_failure_example :
    initialize fixed parameters replies
    ≡ up_to_failure replies accepted_reply (plan fixed parameters)
initialize-eq-up_to_failure_example =
    initialize-eq-up_to_failure fixed parameters replies accepted_reply

record Run : Type 0 where
  last : Node
  reach : Reach last

-- The thread of the first connection is before its stores.
abbrev working : Run
unfolding initialize_connection
working = record {
  last = _;
  reach = later (later begin (start first ready_state refl refl)) (reset _ 1 refl);
}

abbrev done : Run
unfolding success working
done = record {
  last = _;
  reach =
      later
        (later (later working.reach (store_generation _ 1 accepted_reply refl))
          (store_success _ 1 true refl))
        (finish _ refl);
}

connection_is_ready-contains_example : contains 1 done.last.successes ≡ true
unfolding connection_is_ready success working done
connection_is_ready-contains_example = connection_is_ready-contains ready_state done.reach refl

in_thread-refuses_example :
    (connection_is_ready working.last.setup.done ready_state ≡ false)
    × (initialize_connection false working.last.setup ready_state ≡ (none, working.last.setup))
unfolding working
in_thread-refuses_example = in_thread-refuses false ready_state working.reach refl

-- Fractions for doubles.
record Ratio : Type 0 where
  top : ℕ
  bottom : ℕ

abbrev ratios : Doubles
ratios = record {
  Double = Ratio;
  quotient = λ n d. record { top = n; bottom = d };
  below = λ a b. ltb (a.top * b.bottom) (b.top * a.bottom);
  at_most = λ a b. leb (a.top * b.bottom) (b.top * a.bottom);
  is_finite = λ x. true;
  times = λ a b. record { top = a.top * b.top; bottom = a.bottom * b.bottom };
  over = λ a b. record { top = a.top * b.bottom; bottom = a.bottom * b.top };
  minus = λ a b. record { top = a.top * b.bottom - b.top * a.bottom; bottom = a.bottom * b.bottom };
  abs = λ x. x;
  negated = λ x. x;
  widen = λ n. record { top = n; bottom = 1 };
  narrow = λ x. x.top / x.bottom % 2 ^ 32;
  to_text = λ x. "number";
  nanoseconds = λ x. x.top * 1000000000 / x.bottom;
}

ratios-ComparesLiterals : ComparesLiterals ratios
ratios-ComparesLiterals = record {
  below = λ n d m e n' d' m' e'. refl;
  at_most = λ n d m e n' d' m' e'. refl;
}

ratios-Compares : Compares ratios
ratios-Compares = record { not_below = λ a b fa fb h. ground arith; literals = λ n d. refl }

-- No parameter is overridden but for the acknowledgement.
abbrev declared : Declared ratios
declared = record {
  text = λ name value. value;
  integer = λ name value. value;
  number = λ name value. value;
  flag = λ name value. true;
}

declared-KeepsDefaults : KeepsDefaults ratios declared
declared-KeepsDefaults = record {
  text = λ name value. refl;
  integer = λ name value. refl;
  number = λ name value. refl;
}

-- A grasp at 50 mm with 20 N.
abbrev standard_goal : StandardGoal ratios
standard_goal = record {
  position = record { top = 50; bottom = 1000 };
  max_effort = record { top = 20; bottom = 1 };
}

load_parameters-construct_example :
    (construct ratios (load_parameters ratios declared)
      ≡ some ((start_transport (init default_options)).1))
    × (handle_standard_goal ratios
          (load_parameters ratios declared)
          initialization
          ready_state
          standard_goal
        ≡ true)
unfolding connection_is_ready
load_parameters-construct_example =
    load_parameters-construct ratios declared initialization ready_state standard_goal
      ratios-ComparesLiterals ratios-Compares declared-KeepsDefaults refl refl refl refl refl
