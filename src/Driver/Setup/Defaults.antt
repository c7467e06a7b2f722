-- ===== src/Driver/Setup/Defaults.antt =====
-- The node of wsg50_driver/src/main.cpp with the defaults of its parameters.
use text.Mathlib.Text as Text
use wsg50_ros2_humble.Base.{
  ℕ, ◌*◌, ◌≡◌, ◌∙◌, ap, ◌≤◌, Bool, true, false, not, ◌&&◌, if◌then◌else◌, String, some, none, ltb,
  leb, arith, refl,
}
use wsg50_ros2_humble.Device.{DeviceState}
use wsg50_ros2_humble.Transport.{TransportOptions, default_options, init}
use wsg50_ros2_humble.Transport.Requests.{start}
use wsg50_ros2_humble.Driver.{
  Doubles, Declared, Parameters, ℤ, pos, int_under, int_over, duration, load_parameters,
  validate_parameters, minimum_width, maximum_width, minimum_force, maximum_force,
}
use wsg50_ros2_humble.Driver.Goals.{
  Initialization, StandardGoal, Compares, is_grasp, within, connection_is_ready,
  handle_standard_goal, handle_standard-validated,
}
use wsg50_ros2_humble.Driver.Setup.{make_options, construct}

-- Documented behaviour of < and <= on the doubles of literals: those of fractions of numbers up to
-- 1000 are in the order of the fractions.
abbrev IsSmall : ℕ → Type 0
IsSmall n = (1 ≤ n) × (n ≤ 1000)

pub record ComparesLiterals (F : Doubles) : Type 0 where
  pub below :
      (n d m e : ℕ)
      → n ≤ 1000
      → IsSmall d
      → m ≤ 1000
      → IsSmall e
      → F.below (F.quotient n d) (F.quotient m e) ≡ ltb (n * e) (m * d)
  pub at_most :
      (n d m e : ℕ)
      → n ≤ 1000
      → IsSmall d
      → m ≤ 1000
      → IsSmall e
      → F.at_most (F.quotient n d) (F.quotient m e) ≡ leb (n * e) (m * d)

-- No number and no text of the parameters is overridden, but for the flags.
pub record KeepsDefaults (F : Doubles) (d : Declared F) : Type 0 where
  pub text : (name value : String) → d.text name value ≡ value
  pub integer : (name : String) (value : ℤ) → d.integer name value ≡ value
  pub number : (name : String) (value : F.Double) → d.number name value ≡ value

module _ (F : Doubles) where
  -- The defaults of the source, with the two flags.
  abbrev kept : Bool → Bool → Declared F
  kept acknowledges homes = record {
    text = λ name value. value;
    integer = λ name value. value;
    number = λ name value. value;
    flag = λ name value. if Text.◌==◌ name "auto_home" then homes else acknowledges;
  }

  validate_parameters-kept :
      ComparesLiterals F
      → (acknowledges homes : Bool)
      → validate_parameters F (load_parameters F (kept acknowledges homes)) ≡ none
  unfolding validate_parameters load_parameters int_under int_over
  validate_parameters-kept c acknowledges homes =
      rw
        (
          c.below 1 100 5 1000 (omega arith) (omega arith) (omega arith) (omega arith),
          c.below 420 1000 1 100 (omega arith) (omega arith) (omega arith) (omega arith),
          c.below 1 1 1 10 (omega arith) (omega arith) (omega arith) (omega arith),
          c.below 5 1 1 1 (omega arith) (omega arith) (omega arith) (omega arith),
          c.below 40 1 5 1 (omega arith) (omega arith) (omega arith) (omega arith),
          c.below 80 1 40 1 (omega arith) (omega arith) (omega arith) (omega arith),
          c.at_most 1 1000 0 1 (omega arith) (omega arith) (omega arith) (omega arith),
          c.below 110 1000 1 1000 (omega arith) (omega arith) (omega arith) (omega arith),
          c.at_most 20 1 0 1 (omega arith) (omega arith) (omega arith) (omega arith),
        )
        refl

  load_parameters-kept :
      (d : Declared F)
      → KeepsDefaults F d
      → load_parameters F d
        ≡ load_parameters F
            (kept (d.flag "auto_acknowledge_faults" false) (d.flag "auto_home" false))
  unfolding load_parameters
  load_parameters-kept d k =
      rw
        (
          k.text "gripper_ip" "192.168.1.160",
          k.integer "port" (pos 1501),
          k.number "default_speed" (F.quotient 1 100),
          k.number "default_acceleration" (F.quotient 1 1),
          k.number "default_grasp_force" (F.quotient 40 1),
          k.number "goal_tolerance" (F.quotient 1 1000),
          k.number "state_publish_rate" (F.quotient 20 1),
          k.integer "connect_timeout_ms" (pos 2000),
          k.integer "response_timeout_ms" (pos 2000),
          k.integer "motion_timeout_ms" (pos 30000),
          k.integer "reconnect_interval_ms" (pos 1000),
          k.integer "state_update_period_ms" (pos 50),
        )
        refl

  construct-valid :
      (p : Parameters F)
      → validate_parameters F p ≡ none
      → construct F p ≡ some ((start (init (make_options F p))).1)
  unfolding construct
  construct-valid p valid = rw (valid, construct) refl

  load_parameters-valid :
      (d : Declared F)
      → ComparesLiterals F
      → KeepsDefaults F d
      → validate_parameters F (load_parameters F d) ≡ none
  load_parameters-valid d c k = rw (load_parameters-kept d k) (
      validate_parameters-kept c (d.flag "auto_acknowledge_faults" false)
        (d.flag "auto_home" false))

  load_parameters-options :
      (d : Declared F) → KeepsDefaults F d → make_options F (load_parameters F d) ≡ default_options
  unfolding load_parameters duration
  load_parameters-options d k = ap (make_options F) (load_parameters-kept d k)

  -- If doubles compare as documented and no parameter but the flags is overridden, the node
  -- starts a transport with the default options of Transport, and while the connection is
  -- ready it accepts each standard goal in the range of widths whose effort is 0 or a force
  -- in the range.
  pub load_parameters-construct :
      (d : Declared F) (i : Initialization) (state : DeviceState) (goal : StandardGoal F)
      → ComparesLiterals F
      → Compares F
      → KeepsDefaults F d
      → connection_is_ready i state ≡ true
      → within F goal.position (minimum_width F) (maximum_width F) ≡ true
      → F.is_finite goal.max_effort ≡ true
      → F.below goal.max_effort (F.quotient 0 1) ≡ false
      → (is_grasp F goal && not (within F goal.max_effort (minimum_force F) (maximum_force F)))
        ≡ false
      → (construct F (load_parameters F d) ≡ some ((start (init default_options)).1))
        × (handle_standard_goal F (load_parameters F d) i state goal ≡ true)
  unfolding load_parameters
  load_parameters-construct d i state goal c finite k ready width effort positive force =
      let valid = load_parameters-valid d c k in
      (
        construct-valid (load_parameters F d) valid
            ∙ ap (λ (o : TransportOptions). some ((start (init o)).1))
                (load_parameters-options d k),
        handle_standard-validated F (load_parameters F d) i state goal finite valid
            (rw (k.number "default_speed" (F.quotient 1 100)) (finite.literals 1 100))
            (rw (k.number "default_acceleration" (F.quotient 1 1)) (finite.literals 1 1))
            (rw (k.number "default_grasp_force" (F.quotient 40 1)) (finite.literals 40 1)) ready
            width effort positive force,
      )
