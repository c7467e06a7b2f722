-- ===== src/Driver/Reports/Faults.antt =====
-- The faults of the device in the diagnostics of wsg50_driver/src/main.cpp.
use wsg50_ros2_humble.Base.{ℕ, ◌-◌, refl, ◌≡◌, ◌≢◌, true, bit_or, arith}
use wsg50_ros2_humble.Wire.Bits.{bit_and-le-bit_or}
use wsg50_ros2_humble.Device.{
  DeviceState, has_bit, system_fast_stop, system_temperature_fault, system_power_fault,
  system_current_fault, system_finger_fault, system_command_failure, system_script_failure,
}
use wsg50_ros2_humble.Driver.Setup.{Setup}
use wsg50_ros2_humble.Driver.Reports.{ok, diagnose, error_mask}

-- The faults that the node knows.
pub data Fault : Type 0 where
  fast_stop temperature power current finger command script : Fault

abbrev pub mask_of : Fault → ℕ
mask_of fast_stop = system_fast_stop
mask_of temperature = system_temperature_fault
mask_of power = system_power_fault
mask_of current = system_current_fault
mask_of finger = system_finger_fault
mask_of command = system_command_failure
mask_of script = system_script_failure

has_bit-or : (x m n : ℕ) → has_bit x m ≡ true → has_bit x (bit_or m n) ≡ true
has_bit-or x m n h = let (more, _) = bit_and-le-bit_or x m n in ground arith

-- The rest of the mask, as one number.
others_of : Fault → ℕ
others_of f = error_mask - mask_of f

error_mask-of : (f : Fault) → bit_or (mask_of f) (others_of f) ≡ error_mask
unfolding others_of
error_mask-of fast_stop = refl
error_mask-of temperature = refl
error_mask-of power = refl
error_mask-of current = refl
error_mask-of finger = refl
error_mask-of command = refl
error_mask-of script = refl

-- While the system state has the bit of one of the seven faults, the diagnostics are not at the
-- level OK.
pub fault-diagnose :
    (now period : ℕ) (setup : Setup) (state : DeviceState) (f : Fault)
    → has_bit state.system_state (mask_of f) ≡ true
    → (diagnose now period setup state).level ≢ ok
unfolding diagnose
fault-diagnose now period setup state f h =
    let e = has_bit-or state.system_state (mask_of f) (others_of f) h in
    let found = rw (error_mask-of f) at e in λ level. ground arith
