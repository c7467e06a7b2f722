-- ===== src/Driver/Motion.antt =====
-- The commands that the node of wsg50_driver/src/main.cpp gives to the transport, motion_reached,
-- wait_for_settled_state and fill_trigger_response.
pub mod Settling
pub mod Commands
use wsg50_ros2_humble.Base.{
  ℕ, ◌*◌, ◌+◌, ◌∙◌, ◌&&◌, ◌||◌, not, Bool, true, false, List, [], ◌∷◌, ◌++◌, String, ltb, ◌==◌,
  if◌then◌else◌, max, Outcome, returns, waits,
}
use wsg50_ros2_humble.Wire.Bytes.{Bytes, append_float}
use wsg50_ros2_humble.Device.{CommandReply, success, DeviceState}
use wsg50_ros2_humble.Transport.{Transport}
use wsg50_ros2_humble.Transport.Requests.{command}
use wsg50_ros2_humble.Driver.{Doubles, Parameters, duration}
use wsg50_ros2_humble.Driver.Goals.{mode_move, mode_grasp}

abbrev pub command_home : ℕ
command_home = 0x20

abbrev pub command_move : ℕ
command_move = 0x21

abbrev pub command_stop : ℕ
command_stop = 0x22

abbrev pub command_acknowledge : ℕ
command_acknowledge = 0x24

abbrev pub command_grasp : ℕ
command_grasp = 0x25

abbrev pub command_release : ℕ
command_release = 0x26

abbrev pub command_set_acceleration : ℕ
command_set_acceleration = 0x30

abbrev pub command_set_force : ℕ
command_set_force = 0x32

abbrev pub command_tare : ℕ
command_tare = 0x38

abbrev pub ack_payload : Bytes
ack_payload = 0x61 ∷ 0x63 ∷ 0x6b ∷ []

-- The response of a Trigger service.
pub record Response : Type 0 where
  pub success : Bool
  pub message : String

abbrev pub fill_trigger_response : CommandReply → Response
fill_trigger_response reply = record { success = success reply; message = reply.message }

module _ (F : Doubles) where
  abbrev pub thousandfold : F.Double → F.Double
  thousandfold x = F.times x (F.quotient 1000 1)

  unfoldable pub motion_payload : ℕ → F.Double → F.Double → Bool → Bytes
  motion_payload mode width speed stop_on_block =
      let floats = λ (start : Bytes).
        append_float (append_float start (F.narrow (thousandfold width)))
          (F.narrow (thousandfold speed)) in
      if mode == mode_move then floats ((if stop_on_block then 0x02 else 0x00) ∷ []) else floats []

  abbrev pub motion_command : ℕ → ℕ
  motion_command mode =
      if mode == mode_move
      then command_move
      else if mode == mode_grasp
      then command_grasp
      else command_release

  -- The commands, up to the wait for the future: the number of its promise, and the transport.
  unfoldable pub start_motion :
      Parameters F → ℕ → F.Double → F.Double → Bool → Transport → ℕ × Transport
  unfolding motion_payload
  start_motion p mode width speed stop_on_block t =
      command (motion_command mode) (motion_payload mode width speed stop_on_block) true
        (duration p.motion_timeout_ms) false t

  unfoldable pub set_acceleration : Parameters F → F.Double → Transport → ℕ × Transport
  set_acceleration p acceleration t =
      command command_set_acceleration (append_float [] (F.narrow (thousandfold acceleration))) true
        (duration p.response_timeout_ms) false t

  unfoldable pub set_force : Parameters F → F.Double → Transport → ℕ × Transport
  set_force p force t =
      command command_set_force (append_float [] (F.narrow force)) true
        (duration p.response_timeout_ms) false t

  unfoldable pub stop_motion : Parameters F → Transport → ℕ × Transport
  stop_motion p t = command command_stop [] true (duration p.response_timeout_ms) true t

  unfoldable pub home : Parameters F → Transport → ℕ × Transport
  home p t = command command_home (0x00 ∷ []) true (duration p.motion_timeout_ms) false t

  unfoldable pub acknowledge : Parameters F → Transport → ℕ × Transport
  acknowledge p t =
      command command_acknowledge ack_payload true (duration p.response_timeout_ms) false t

  unfoldable pub tare : Parameters F → Transport → ℕ × Transport
  tare p t = command command_tare [] true (duration p.response_timeout_ms) false t

  abbrev pub opening_m : DeviceState → F.Double
  opening_m state = F.over (F.widen state.opening_mm) (F.quotient 1000 1)

  unfoldable pub motion_reached : Parameters F → F.Double → Bool → DeviceState → Bool
  motion_reached p target grasp state =
      F.at_most (F.abs (F.minus (opening_m state) target)) p.goal_tolerance
      || (grasp && state.stalled)

  -- The condition of the loop of wait_for_settled_state, but for the clock.
  abbrev pub unsettled : Parameters F → F.Double → Bool → Bool → DeviceState → Bool
  unsettled p target grasp motion_ok state =
      state.connected && motion_ok && (state.moving || not (motion_reached p target grasp state))

  -- The loop, on the readings of the clock and of the state: each reading of the clock with the
  -- state that is read after the sleep.
  unfoldable pub settle_loop :
      Parameters F
      → F.Double
      → Bool
      → Bool
      → ℕ
      → List (ℕ × DeviceState)
      → DeviceState
      → Outcome DeviceState
  settle_loop p target grasp motion_ok deadline [] state =
      if unsettled p target grasp motion_ok state then waits else returns state
  settle_loop p target grasp motion_ok deadline ((now, next) ∷ rest) state =
      let later = settle_loop p target grasp motion_ok deadline rest next in
      if unsettled p target grasp motion_ok state && ltb now deadline then later else returns state

  unfoldable pub wait_for_settled_state :
      Parameters F
      → F.Double
      → Bool
      → Bool
      → ℕ
      → List (ℕ × DeviceState)
      → DeviceState
      → Outcome DeviceState
  unfolding settle_loop
  wait_for_settled_state p target grasp motion_ok now readings state =
      settle_loop p target grasp motion_ok (now + max 500 (duration p.state_update_period_ms * 3))
        readings state
