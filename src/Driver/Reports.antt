-- ===== src/Driver/Reports.antt =====
-- publish_state and publish_diagnostics of wsg50_driver/src/main.cpp. The time of the header and the
-- node's full name are arguments.
pub mod Ready
pub mod Joints
pub mod Faults
mod Examples
use Prim.Native.String.{◌++◌ as ◌<>◌}
use wsg50_ros2_humble.Base.{
  ℕ, suc, ◌-◌, ◌*◌, ◌&&◌, ◌||◌, not, Bool, true, false, List, [], ◌∷◌, Option, none, some, String,
  ltb, ◌==◌, if◌then◌else◌, bit_or, bit_and,
}
use wsg50_ros2_humble.Device.{
  DeviceState, to_string, has_bit, system_fast_stop, system_temperature_warning,
  system_temperature_fault, system_power_fault, system_current_fault, system_finger_fault,
  system_command_failure, system_script_failure,
}
use wsg50_ros2_humble.Driver.{
  Doubles, Parameters, ℤ, pos, negsuc, duration, minimum_width, maximum_width,
}
use wsg50_ros2_humble.Driver.Motion.{opening_m}
use wsg50_ros2_humble.Driver.Setup.{Setup}

-- The level of a DiagnosticStatus.
pub data Level : Type 0 where
  ok warn error stale : Level

pub record Diagnosis : Type 0 where
  pub level : Level
  pub message : String

pub record DiagnosticStatus : Type 0 where
  pub name : String
  pub hardware_id : String
  pub diagnosis : Diagnosis
  pub values : List (String × String)

abbrev pub error_mask : ℕ
error_mask =
    bit_or
      (bit_or
        (bit_or
          (bit_or (bit_or (bit_or system_script_failure system_command_failure) system_finger_fault)
            system_current_fault)
          system_power_fault)
        system_temperature_fault)
      system_fast_stop

abbrev pub warning_mask : ℕ
warning_mask = system_temperature_warning

-- Whether the latest report is older than four update periods.
abbrev pub is_stale : ℕ → ℕ → DeviceState → Bool
is_stale now period state = state.connected && ltb (period * 4) (now - state.updated_at)

-- The level and the message, from the node's initialization and the state of the device.
unfoldable pub diagnose : ℕ → ℕ → Setup → DeviceState → Diagnosis
diagnose now period setup state =
    if not state.connected
    then record { level = error; message = "disconnected: " <> state.status_message }
    else if is_stale now period state
    then record { level = stale; message = "state stream is stale" }
    else if not (setup.done.generation == state.connection_generation) || setup.running
    then record { level = warn; message = "initializing connection" }
    else if not setup.done.successful
    then record { level = error; message = "connection initialization failed" }
    else if has_bit state.system_state error_mask
    then record { level = error; message = "gripper reports a fault" }
    else if has_bit state.system_state warning_mask
    then record { level = warn; message = "gripper reports a warning" }
    else record {
      level = ok;
      message = if state.referenced then "ready" else "connected, not referenced";
    }

abbrev pub yes_no : Bool → String
yes_no b = if b then "true" else "false"

-- std::to_string of an int.
unfoldable pub int_text : ℤ → String
unfolding to_string
int_text (pos n) = to_string n
int_text (negsuc n) = "-" <> to_string (suc n)

module _ (F : Doubles) where
  abbrev pub speed_m : DeviceState → F.Double
  speed_m state = F.over (F.widen state.speed_mm_s) (F.quotient 1000 1)

  unfoldable pub publish_diagnostics :
      Parameters F → String → ℕ → Setup → DeviceState → DiagnosticStatus
  unfolding diagnose int_text to_string
  publish_diagnostics p node_name now setup state = record {
    name = node_name <> ": WSG50";
    hardware_id = (p.address <> ":") <> int_text p.port;
    diagnosis = diagnose now (duration p.state_update_period_ms) setup state;
    values =
        ("connected", yes_no state.connected)
        ∷ ("referenced", yes_no state.referenced)
        ∷ ("moving", yes_no state.moving)
        ∷ ("width_m", F.to_text (opening_m F state))
        ∷ ("speed_m_s", F.to_text (speed_m state))
        ∷ ("force_n", F.to_text (F.widen state.force_n))
        ∷ ("system_state", to_string state.system_state)
        ∷ ("status_code", to_string state.last_status)
        ∷ ("status_message", state.status_message)
        ∷ ("last_error", state.last_error)
        ∷ [];
  }

  pub record StateMessage : Type 0 where
    pub stamp : ℕ
    pub connected : Bool
    pub referenced : Bool
    pub moving : Bool
    pub stalled : Bool
    pub width : F.Double
    pub speed : F.Double
    pub force : F.Double
    pub system_state : ℕ
    pub grasping_state : ℕ
    pub status_code : ℕ
    pub status_message : String

  pub record JointState : Type 0 where
    pub stamp : ℕ
    pub name : List String
    pub position : List F.Double
    pub velocity : List F.Double
    pub effort : List F.Double

  abbrev pub state_message : ℕ → DeviceState → StateMessage
  state_message now state = record {
    stamp = now;
    connected = state.connected;
    referenced = state.referenced;
    moving = state.moving;
    stalled = state.stalled;
    width = opening_m F state;
    speed = speed_m state;
    force = F.widen state.force_n;
    system_state = state.system_state;
    grasping_state = state.grasping_state;
    status_code = state.last_status;
    status_message = state.status_message;
  }

  abbrev pub half : F.Double → F.Double
  half x = F.over x (F.quotient 2 1)

  abbrev pub joint_state : StateMessage → JointState
  joint_state message = record {
    stamp = message.stamp;
    name = "wsg50_finger_left_joint" ∷ "wsg50_finger_right_joint" ∷ [];
    position = half (F.negated message.width) ∷ half message.width ∷ [];
    velocity = half (F.negated message.speed) ∷ half message.speed ∷ [];
    effort = half message.force ∷ half message.force ∷ [];
  }

  -- The state that is published, and the joint state, where one is.
  unfoldable pub publish_state : ℕ → DeviceState → StateMessage × Option JointState
  publish_state now state =
      let message = state_message now state in
      (
        message,
        (if not state.connected
              || not (F.is_finite message.width)
              || F.below message.width (minimum_width F)
              || F.below (maximum_width F) message.width
            then none
            else some (joint_state message)),
      )
