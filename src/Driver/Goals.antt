-- ===== src/Driver/Goals.antt =====
-- Which goals the node of wsg50_driver/src/main.cpp accepts: goal_is_valid, connection_is_ready,
-- handle_standard_goal and handle_advanced_goal.
use wsg50_ros2_humble.Base.{
  ℕ, ◌≡◌, ◌&&◌, ◌||◌, not, Bool, true, false, none, ltb, ◌==◌, if◌then◌else◌, arith,
}
use wsg50_ros2_humble.Device.{DeviceState}
use wsg50_ros2_humble.Driver.{
  Doubles, Parameters, minimum_width, maximum_width, minimum_speed, maximum_speed,
  minimum_acceleration, maximum_acceleration, minimum_force, maximum_force, validate_parameters,
}

abbrev pub mode_move : ℕ
mode_move = 0

abbrev pub mode_grasp : ℕ
mode_grasp = 1

abbrev pub mode_release : ℕ
mode_release = 2

-- What initialize_connection has stored.
pub record Initialization : Type 0 where
  pub successful : Bool
  pub generation : ℕ

unfoldable pub connection_is_ready : Initialization → DeviceState → Bool
connection_is_ready i state =
    state.connected
    && state.referenced
    && i.successful
    && i.generation == state.connection_generation

module _ (F : Doubles) where
  pub record StandardGoal : Type 0 where
    pub position : F.Double
    pub max_effort : F.Double

  pub record AdvancedGoal : Type 0 where
    pub mode : ℕ
    pub width : F.Double
    pub speed : F.Double
    pub acceleration : F.Double
    pub force : F.Double
    pub stop_on_block : Bool

  abbrev pub within : F.Double → F.Double → F.Double → Bool
  within x low high = F.is_finite x && F.at_most low x && F.at_most x high

  unfoldable pub goal_is_valid : F.Double → F.Double → F.Double → F.Double → Bool
  goal_is_valid width speed acceleration force =
      within width (minimum_width F) (maximum_width F)
      && within speed (minimum_speed F) (maximum_speed F)
      && within acceleration (minimum_acceleration F) (maximum_acceleration F)
      && within force (minimum_force F) (maximum_force F)

  abbrev pub is_grasp : StandardGoal → Bool
  is_grasp goal = F.below (F.quotient 0 1) goal.max_effort

  -- The force that a standard goal is executed with.
  abbrev pub standard_force : Parameters F → StandardGoal → F.Double
  standard_force p goal = if is_grasp goal then goal.max_effort else p.default_grasp_force

  -- The standard goal, as execute_standard carries it out, in the form of an advanced goal.
  abbrev pub as_advanced : Parameters F → StandardGoal → AdvancedGoal
  as_advanced p goal = record {
    mode = if is_grasp goal then mode_grasp else mode_move;
    width = goal.position;
    speed = p.default_speed;
    acceleration = p.default_acceleration;
    force = standard_force p goal;
    stop_on_block = false;
  }

  -- `true` is ACCEPT_AND_EXECUTE.
  unfoldable pub handle_standard_goal :
      Parameters F → Initialization → DeviceState → StandardGoal → Bool
  unfolding goal_is_valid connection_is_ready
  handle_standard_goal p i state goal =
      if not (F.is_finite goal.max_effort) || F.below goal.max_effort (F.quotient 0 1)
      then false
      else not (
          not (connection_is_ready i state)
          || not (
              goal_is_valid goal.position p.default_speed p.default_acceleration
                (standard_force p goal)))

  unfoldable pub handle_advanced_goal : Initialization → DeviceState → AdvancedGoal → Bool
  unfolding goal_is_valid connection_is_ready
  handle_advanced_goal i state goal =
      if ltb mode_release goal.mode || not (connection_is_ready i state)
      then false
      else goal_is_valid goal.width goal.speed goal.acceleration goal.force

  -- Documented behaviour of < and <= on doubles, of which none is a NaN.
  pub record Compares : Type 0 where
    pub not_below :
        (a b : F.Double)
        → F.is_finite a ≡ true
        → F.is_finite b ≡ true
        → F.below a b ≡ false
        → F.at_most b a ≡ true
    pub literals : (n d : ℕ) → F.is_finite (F.quotient n d) ≡ true

module _ (F : Doubles) (p : Parameters F) (i : Initialization) (state : DeviceState) where
  -- An accepted standard goal is an advanced goal that is accepted: a grasp where it has an effort,
  -- else a move, with the default speed and acceleration and the force that it is executed with.
  pub handle_standard-handle_advanced :
      (goal : StandardGoal F)
      → handle_standard_goal F p i state goal ≡ true
      → handle_advanced_goal F i state (as_advanced F p goal) ≡ true
  unfolding handle_standard_goal handle_advanced_goal
  handle_standard-handle_advanced goal h = ground arith

  -- If the parameters pass validate_parameters, their speed, acceleration and force are
  -- finite, and the connection is ready, each standard goal in the range of widths whose
  -- effort is 0 or a force in the range is accepted.
  pub handle_standard-validated :
      (goal : StandardGoal F)
      → Compares F
      → validate_parameters F p ≡ none
      → F.is_finite p.default_speed ≡ true
      → F.is_finite p.default_acceleration ≡ true
      → F.is_finite p.default_grasp_force ≡ true
      → connection_is_ready i state ≡ true
      → within F goal.position (minimum_width F) (maximum_width F) ≡ true
      → F.is_finite goal.max_effort ≡ true
      → F.below goal.max_effort (F.quotient 0 1) ≡ false
      → (is_grasp F goal && not (within F goal.max_effort (minimum_force F) (maximum_force F)))
        ≡ false
      → handle_standard_goal F p i state goal ≡ true
  unfolding handle_standard_goal validate_parameters goal_is_valid
  handle_standard-validated goal c v fs fa ff ready width finite positive force = ground (
    arith,
    c.literals 5 1000,
    c.literals 420 1000,
    c.literals 1 10,
    c.literals 5 1,
    c.literals 80 1,
    c.not_below p.default_speed (minimum_speed F) fs (c.literals 5 1000),
    c.not_below (maximum_speed F) p.default_speed (c.literals 420 1000) fs,
    c.not_below p.default_acceleration (minimum_acceleration F) fa (c.literals 1 10),
    c.not_below (maximum_acceleration F) p.default_acceleration (c.literals 5 1) fa,
    c.not_below p.default_grasp_force (minimum_force F) ff (c.literals 5 1),
    c.not_below (maximum_force F) p.default_grasp_force (c.literals 80 1) ff,
  )
