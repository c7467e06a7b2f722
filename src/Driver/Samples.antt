-- ===== src/Driver/Samples.antt =====
-- Concrete values for the runs of the node of wsg50_driver/src/main.cpp: numbers in thousandths and a
-- NaN for doubles, parameters, goals and states.
use wsg50_ros2_humble.Base.{
  ℕ, ◌-◌, ◌*◌, ◌/◌, ◌%◌, ◌^◌, ◌<◌, ◌≡◌, refl, Bool, true, false, [], ◌∷◌, ltb, leb, arith,
}
use wsg50_ros2_humble.Device.{CommandReply, DeviceState, initial_state}
use wsg50_ros2_humble.Driver.{Doubles, Parameters, pos}
use wsg50_ros2_humble.Driver.Goals.{
  Initialization, StandardGoal, AdvancedGoal, Compares, mode_grasp,
}
use wsg50_ros2_humble.Driver.Execution.{Surroundings}

pub data Fixed : Type 0 where
  thousandths : ℕ → Fixed
  nan : Fixed

abbrev pub fixed_below : Fixed → Fixed → Bool
fixed_below (thousandths a) (thousandths b) = ltb a b
fixed_below (thousandths a) nan = false
fixed_below nan b = false

abbrev pub fixed_at_most : Fixed → Fixed → Bool
fixed_at_most (thousandths a) (thousandths b) = leb a b
fixed_at_most (thousandths a) nan = false
fixed_at_most nan b = false

abbrev pub fixed_is_finite : Fixed → Bool
fixed_is_finite (thousandths a) = true
fixed_is_finite nan = false

abbrev pub fixed_map : (ℕ → ℕ → ℕ) → Fixed → Fixed → Fixed
fixed_map f (thousandths a) (thousandths b) = thousandths (f a b)
fixed_map f (thousandths a) nan = nan
fixed_map f nan b = nan

abbrev pub fixed_narrow : Fixed → ℕ
fixed_narrow (thousandths a) = a % 2 ^ 32
fixed_narrow nan = 0x7fc00000

abbrev pub fixed_nanoseconds : Fixed → ℕ
fixed_nanoseconds (thousandths a) = a * 1000000
fixed_nanoseconds nan = 0

abbrev pub fixed : Doubles
fixed = record {
  Double = Fixed;
  quotient = λ n d. thousandths (n * 1000 / d);
  below = fixed_below;
  at_most = fixed_at_most;
  is_finite = fixed_is_finite;
  times = fixed_map (λ a b. a * b / 1000);
  over = fixed_map (λ a b. a * 1000 / b);
  minus = fixed_map (λ a b. a - b);
  abs = λ x. x;
  negated = λ x. x;
  widen = thousandths;
  narrow = fixed_narrow;
  to_text = λ x. "number";
  nanoseconds = fixed_nanoseconds;
}

pub fixed_not_below :
    (a b : Fixed)
    → fixed_is_finite a ≡ true
    → fixed_is_finite b ≡ true
    → fixed_below a b ≡ false
    → fixed_at_most b a ≡ true
fixed_not_below (thousandths a) (thousandths b) fa fb h = ground arith
fixed_not_below (thousandths a) nan fa fb h = cc
fixed_not_below nan b fa fb h = cc

pub fixed-Compares : Compares fixed
fixed-Compares = record { not_below = fixed_not_below; literals = λ n d. refl }

pub fixed_bits : (x : Fixed) → fixed_narrow x < 2 ^ 32
fixed_bits (thousandths a) = omega arith
fixed_bits nan = omega arith

abbrev pub parameters : Parameters fixed
parameters = record {
  address = "192.168.1.160";
  port = pos 1501;
  default_speed = thousandths 10;
  default_acceleration = thousandths 1000;
  default_grasp_force = thousandths 40000;
  goal_tolerance = thousandths 1;
  state_publish_rate = thousandths 20000;
  auto_acknowledge_faults = false;
  auto_home = false;
  connect_timeout_ms = pos 2000;
  response_timeout_ms = pos 2000;
  motion_timeout_ms = pos 30000;
  reconnect_interval_ms = pos 1000;
  state_update_period_ms = pos 50;
}

abbrev pub initialization : Initialization
initialization = record { successful = true; generation = 1 }

abbrev pub ready_state : DeviceState
ready_state = record initial_state {
  connected = true;
  referenced = true;
  connection_generation = 1;
}

-- A grasp at 50 mm with 20 N.
abbrev pub grasp_goal : StandardGoal fixed
grasp_goal = record { position = thousandths 50; max_effort = thousandths 20000 }

abbrev pub moving_state : DeviceState
moving_state = record ready_state { moving = true }

abbrev pub accepted_reply : CommandReply
accepted_reply = record { transport_ok = true; status = 0; message = "success"; payload = [] }

abbrev pub advanced_goal : AdvancedGoal fixed
advanced_goal = record {
  mode = mode_grasp;
  width = thousandths 50;
  speed = thousandths 10;
  acceleration = thousandths 1000;
  force = thousandths 20000;
  stop_on_block = false;
}

abbrev pub blocked_state : DeviceState
blocked_state = record ready_state { stalled = true }

-- The motion is watched twice, and then the gripper has stalled on an object.
abbrev pub surroundings : Surroundings
surroundings = record {
  latest_before = 3;
  shutting_down = false;
  canceling_before = false;
  acceleration_reply = accepted_reply;
  force_reply = accepted_reply;
  refused_state = ready_state;
  watches =
      record { state = moving_state; canceling = false; latest = 3 }
      ∷ record { state = blocked_state; canceling = false; latest = 3 }
      ∷ [];
  motion_reply = record accepted_reply { status = 29; message = "axis blocked" };
  settle_start = 100;
  settle_state = blocked_state;
  settle_readings = (700, blocked_state) ∷ [];
  canceling_after = false;
  latest_after = 3;
}
