-- ===== src/Device.antt =====
-- The constants, DeviceState, CommandReply, Transport::status_text and Transport::update_state of
-- wsg50_driver/include/wsg50_driver/transport.hpp and wsg50_driver/src/transport.cpp.
pub mod Telemetry
mod Examples
use Prim.Native.String.{◌++◌ as ◌<>◌}
use wsg50_ros2_humble.Base.{
  ℕ, zero, suc, ◌/◌, ◌%◌, Bool, false, not, ◌&&◌, List, [], ◌∷◌, String, bit_and, bit_or, ltb, leb,
  ◌==◌, if◌then◌else◌, length, get_or, drop,
}
use wsg50_ros2_humble.Wire.Bytes.{Bytes, read_u32, decode_float}

abbrev pub status_success : ℕ
status_success = 0

abbrev pub status_command_aborted : ℕ
status_command_aborted = 19

abbrev pub status_command_pending : ℕ
status_command_pending = 26

abbrev pub status_axis_blocked : ℕ
status_axis_blocked = 29

abbrev pub status_transport_error : ℕ
status_transport_error = 0xffff

abbrev pub system_referenced : ℕ
system_referenced = 0x1

abbrev pub system_moving : ℕ
system_moving = 0x2

abbrev pub system_blocked_minus : ℕ
system_blocked_minus = 0x4

abbrev pub system_blocked_plus : ℕ
system_blocked_plus = 0x8

abbrev pub system_fast_stop : ℕ
system_fast_stop = 0x1000

abbrev pub system_temperature_warning : ℕ
system_temperature_warning = 0x2000

abbrev pub system_temperature_fault : ℕ
system_temperature_fault = 0x4000

abbrev pub system_power_fault : ℕ
system_power_fault = 0x8000

abbrev pub system_current_fault : ℕ
system_current_fault = 0x10000

abbrev pub system_finger_fault : ℕ
system_finger_fault = 0x20000

abbrev pub system_command_failure : ℕ
system_command_failure = 0x40000

abbrev pub system_script_failure : ℕ
system_script_failure = 0x100000

-- `transport_ok`, `status`, `message` and `payload` of a reply; the defaults are those of a failure.
pub record CommandReply : Type 0 where
  pub transport_ok : Bool
  pub status : ℕ
  pub message : String
  pub payload : Bytes

unfoldable pub success : CommandReply → Bool
success reply = reply.transport_ok && reply.status == status_success

-- The floats are bit patterns: widening a float to the double that the source stores is exact.
-- Times are counted from the clock's epoch, which is the value of a default time_point.
pub record DeviceState : Type 0 where
  pub connected : Bool
  pub referenced : Bool
  pub moving : Bool
  pub stalled : Bool
  pub opening_mm : ℕ
  pub speed_mm_s : ℕ
  pub force_n : ℕ
  pub system_state : ℕ
  pub grasping_state : ℕ
  pub last_status : ℕ
  pub status_message : String
  pub last_error : String
  pub updated_at : ℕ
  pub opening_updated_at : ℕ
  pub system_updated_at : ℕ
  pub connection_generation : ℕ

abbrev pub initial_state : DeviceState
initial_state = record {
  connected = false;
  referenced = false;
  moving = false;
  stalled = false;
  opening_mm = 0;
  speed_mm_s = 0;
  force_n = 0;
  system_state = 0;
  grasping_state = 0;
  last_status = status_transport_error;
  status_message = "disconnected";
  last_error = "not connected";
  updated_at = 0;
  opening_updated_at = 0;
  system_updated_at = 0;
  connection_generation = 0;
}

abbrev status_messages : List String
status_messages =
    "success" ∷ "not available" ∷ "no sensor" ∷ "not initialized" ∷ "already running"
    ∷ "feature not supported" ∷ "inconsistent data" ∷ "timeout" ∷ "read error" ∷ "write error"
    ∷ "insufficient resources" ∷ "checksum error" ∷ "no parameter expected"
    ∷ "not enough parameters" ∷ "unknown command" ∷ "command format error" ∷ "access denied"
    ∷ "already open" ∷ "command failed" ∷ "command aborted" ∷ "invalid handle" ∷ "not found"
    ∷ "not open" ∷ "I/O error" ∷ "invalid parameter" ∷ "index out of bounds" ∷ "command pending"
    ∷ "overrun" ∷ "range error" ∷ "axis blocked" ∷ "file exists" ∷ []

abbrev digit : ℕ → String
digit n = get_or ("0" ∷ "1" ∷ "2" ∷ "3" ∷ "4" ∷ "5" ∷ "6" ∷ "7" ∷ "8" ∷ "9" ∷ []) n ""

-- std::to_string on fuel, one unit for each digit after the first.
pub decimal : ℕ → ℕ → String
decimal zero n = digit (n % 10)
decimal (suc fuel) n =
    let rest = decimal fuel (n / 10) in if ltb n 10 then digit n else rest <> digit (n % 10)

-- Twenty digits hold every number of 64 bits.
unfoldable pub to_string : ℕ → String
unfolding decimal
to_string n = decimal 19 n

unfoldable pub status_text : ℕ → String
unfolding to_string
status_text status =
    if ltb status (length status_messages)
    then get_or status_messages status ""
    else if status == status_transport_error
    then "transport error"
    else "unknown status " <> to_string status

abbrev pub has_bit : ℕ → ℕ → Bool
has_bit x mask = not (bit_and x mask == 0)

-- The fields that every recognised answer sets last.
abbrev touch : ℕ → DeviceState → DeviceState
touch now s = record s { updated_at = now }

update_system : ℕ → Bytes → DeviceState → DeviceState
update_system now payload s =
    let flags = read_u32 (drop 2 payload) in
    touch now (record s {
      system_updated_at = now;
      system_state = flags;
      referenced = has_bit flags system_referenced;
      moving = has_bit flags system_moving;
      stalled = has_bit flags (bit_or system_blocked_plus system_blocked_minus);
    })

unfoldable pub update_state : ℕ → ℕ → ℕ → Bytes → DeviceState → DeviceState
unfolding update_system
update_state now id status payload s =
    if not (status == status_success)
    then record s {
      last_status = status;
      status_message = status_text status;
      last_error = status_text status;
    }
    else if id == 0x40 && leb 6 (length payload)
    then update_system now payload s
    else if id == 0x41 && leb 3 (length payload)
    then touch now (record s { grasping_state = get_or payload 2 0 })
    else if id == 0x43 && leb 6 (length payload)
    then touch now
        (record s { opening_mm = decode_float (drop 2 payload); opening_updated_at = now })
    else if id == 0x44 && leb 6 (length payload)
    then touch now (record s { speed_mm_s = decode_float (drop 2 payload) })
    else if id == 0x45 && leb 6 (length payload)
    then touch now (record s { force_n = decode_float (drop 2 payload) })
    else s
