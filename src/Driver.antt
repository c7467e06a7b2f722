-- ===== src/Driver.antt =====
-- The parameters of the node GripperDriver of wsg50_driver/include/wsg50_driver/wsg50.hpp and
-- wsg50_driver/src/main.cpp, and the arithmetic on doubles that it relies on.
pub mod Goals
pub mod Motion
pub mod Execution
pub mod Setup
pub mod Actions
pub mod Services
pub mod Shutdown
pub mod Node
pub mod Reports
pub mod Samples
mod Examples
use Prim.Native.String.{len}
use wsg50_ros2_humble.Base.{
  ℕ, ◌+◌, ◌*◌, ◌||◌, ◌&&◌, not, Bool, true, false, Option, none, some, String, ltb, leb, ◌==◌,
  if◌then◌else◌,
}

-- IEEE doubles, as far as the node uses them: `quotient n d` is the double that the literal of
-- n / d denotes, `below` and `at_most` are < and <=, `widen` takes the bits of a float, `narrow`
-- gives those of the conversion to float, `to_text` is std::to_string, and `nanoseconds` the conversion
-- of seconds by std::chrono::duration_cast.
pub record Doubles : Type 1 where
  pub Double : Type 0
  pub quotient : ℕ → ℕ → Double
  pub below : Double → Double → Bool
  pub at_most : Double → Double → Bool
  pub is_finite : Double → Bool
  pub times : Double → Double → Double
  pub over : Double → Double → Double
  pub minus : Double → Double → Double
  pub abs : Double → Double
  pub negated : Double → Double
  pub widen : ℕ → Double
  pub narrow : Double → ℕ
  pub to_text : Double → String
  pub nanoseconds : Double → ℕ

-- A C++ int.
pub data ℤ : Type 0 where
  pos : ℕ → ℤ
  negsuc : ℕ → ℤ

-- Whether an int is under a number, and over it.
pub int_under : ℤ → ℕ → Bool
int_under (pos a) n = ltb a n
int_under (negsuc a) n = true

pub int_over : ℤ → ℕ → Bool
int_over (pos a) n = ltb n a
int_over (negsuc a) n = false

-- A positive int as a duration.
unfoldable pub duration : ℤ → ℕ
duration (pos a) = a
duration (negsuc a) = 0

module _ (F : Doubles) where
  pub record Parameters : Type 0 where
    pub address : String
    pub port : ℤ
    pub default_speed : F.Double
    pub default_acceleration : F.Double
    pub default_grasp_force : F.Double
    pub goal_tolerance : F.Double
    pub state_publish_rate : F.Double
    pub auto_acknowledge_faults : Bool
    pub auto_home : Bool
    pub connect_timeout_ms : ℤ
    pub response_timeout_ms : ℤ
    pub motion_timeout_ms : ℤ
    pub reconnect_interval_ms : ℤ
    pub state_update_period_ms : ℤ

  abbrev pub minimum_width : F.Double
  minimum_width = F.quotient 0 1

  abbrev pub maximum_width : F.Double
  maximum_width = F.quotient 110 1000

  abbrev pub minimum_speed : F.Double
  minimum_speed = F.quotient 5 1000

  abbrev pub maximum_speed : F.Double
  maximum_speed = F.quotient 420 1000

  abbrev pub minimum_acceleration : F.Double
  minimum_acceleration = F.quotient 1 10

  abbrev pub maximum_acceleration : F.Double
  maximum_acceleration = F.quotient 5 1

  abbrev pub minimum_force : F.Double
  minimum_force = F.quotient 5 1

  abbrev pub maximum_force : F.Double
  maximum_force = F.quotient 80 1

  -- What declare_parameter returns for a name and its default, for each of the types.
  pub record Declared : Type 0 where
    pub text : String → String → String
    pub integer : String → ℤ → ℤ
    pub number : String → F.Double → F.Double
    pub flag : String → Bool → Bool

  unfoldable pub load_parameters : Declared → Parameters
  load_parameters d = record {
    address = d.text "gripper_ip" "192.168.1.160";
    port = d.integer "port" (pos 1501);
    default_speed = d.number "default_speed" (F.quotient 1 100);
    default_acceleration = d.number "default_acceleration" (F.quotient 1 1);
    default_grasp_force = d.number "default_grasp_force" (F.quotient 40 1);
    goal_tolerance = d.number "goal_tolerance" (F.quotient 1 1000);
    state_publish_rate = d.number "state_publish_rate" (F.quotient 20 1);
    auto_acknowledge_faults = d.flag "auto_acknowledge_faults" false;
    auto_home = d.flag "auto_home" false;
    connect_timeout_ms = d.integer "connect_timeout_ms" (pos 2000);
    response_timeout_ms = d.integer "response_timeout_ms" (pos 2000);
    motion_timeout_ms = d.integer "motion_timeout_ms" (pos 30000);
    reconnect_interval_ms = d.integer "reconnect_interval_ms" (pos 1000);
    state_update_period_ms = d.integer "state_update_period_ms" (pos 50);
  }

  -- validate_parameters: `some` is the text of the invalid_argument that it throws.
  unfoldable pub validate_parameters : Parameters → Option String
  unfolding int_under int_over
  validate_parameters p =
      if len p.address == 0 || int_under p.port 1 || int_over p.port 65535
      then some "gripper_ip and port must identify a valid IPv4 endpoint"
      else if F.below p.default_speed minimum_speed || F.below maximum_speed p.default_speed
      then some "default_speed must be within [0.005, 0.420] m/s"
      else if F.below p.default_acceleration minimum_acceleration
          || F.below maximum_acceleration p.default_acceleration
      then some "default_acceleration must be within [0.1, 5.0] m/s^2"
      else if F.below p.default_grasp_force minimum_force
          || F.below maximum_force p.default_grasp_force
      then some "default_grasp_force must be within [5, 80] N"
      else if F.at_most p.goal_tolerance (F.quotient 0 1)
          || F.below maximum_width p.goal_tolerance
          || F.at_most p.state_publish_rate (F.quotient 0 1)
      then some "goal_tolerance and state_publish_rate must be positive"
      else if not (int_over p.connect_timeout_ms 0)
          || not (int_over p.response_timeout_ms 0)
          || not (int_over p.motion_timeout_ms 0)
          || not (int_over p.reconnect_interval_ms 0)
          || int_under p.state_update_period_ms 10
          || int_over p.state_update_period_ms 1000
      then some "timeouts must be positive and state_update_period_ms in [10, 1000]"
      else none
