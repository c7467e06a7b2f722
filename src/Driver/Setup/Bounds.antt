-- ===== src/Driver/Setup/Bounds.antt =====
-- The options that the constructor of wsg50_driver/src/main.cpp gives to the transport, at parameters
-- that validate_parameters has passed.
use wsg50_ros2_humble.Base.{ℕ, ◌≤◌, ◌<◌, ◌^◌, ◌≡◌, false, none, not, arith, drop, []}
use wsg50_ros2_humble.Wire.Bytes.{read_u16}
use wsg50_ros2_humble.Wire.Frame.Shape.{read_u16-two_bytes}
use wsg50_ros2_humble.Transport.{init}
use wsg50_ros2_humble.Transport.Requests.{stream_payload}
use wsg50_ros2_humble.Driver.{
  Doubles, Parameters, ℤ, pos, negsuc, int_under, int_over, duration, validate_parameters,
}
use wsg50_ros2_humble.Driver.Setup.{make_options}

-- The casts to uint16_t lose nothing, and no duration is zero.
pub record InRange (F : Doubles) (p : Parameters F) : Type 0 where
  pub port_kept : (make_options F p).port ≡ duration p.port
  pub port_valid : 1 ≤ duration p.port
  pub period_kept : (make_options F p).state_update_period_ms ≡ duration p.state_update_period_ms
  pub period_low : 10 ≤ duration p.state_update_period_ms
  pub period_high : duration p.state_update_period_ms ≤ 1000
  pub connect_waits : 1 ≤ duration p.connect_timeout_ms
  pub response_waits : 1 ≤ duration p.response_timeout_ms
  pub motion_waits : 1 ≤ duration p.motion_timeout_ms
  pub reconnect_waits : 1 ≤ duration p.reconnect_interval_ms
  pub period_sent :
      read_u16 (drop 1 (stream_payload (init (make_options F p))))
      ≡ duration p.state_update_period_ms

duration-ge : (i : ℤ) (n : ℕ) → int_under i n ≡ false → n ≤ duration i
unfolding int_under duration
duration-ge (pos a) n h = ground arith
duration-ge (negsuc a) n h = cc

duration-le : (i : ℤ) (n : ℕ) → int_over i n ≡ false → duration i ≤ n
unfolding int_over duration
duration-le (pos a) n h = ground arith
duration-le (negsuc a) n h = omega arith

duration-gt : (i : ℤ) → not (int_over i 0) ≡ false → 1 ≤ duration i
unfolding int_over duration
duration-gt (pos a) h = ground arith
duration-gt (negsuc a) h = cc

stream_payload-period :
    (F : Doubles) (p : Parameters F)
    → (make_options F p).state_update_period_ms ≡ duration p.state_update_period_ms
    → duration p.state_update_period_ms < 2 ^ 16
    → read_u16 (drop 1 (stream_payload (init (make_options F p))))
      ≡ duration p.state_update_period_ms
unfolding init
stream_payload-period F p kept small =
    rw kept (read_u16-two_bytes (duration p.state_update_period_ms) [] small)

-- If validate_parameters passes, the casts of the port and of the period to 16 bits lose
-- nothing, the port is at least 1, the period lies in [10, 1000] and is what the stream
-- requests carry, and each timeout and interval is at least 1 ms.
pub validate-InRange :
    (F : Doubles) (p : Parameters F) → validate_parameters F p ≡ none → InRange F p
unfolding validate_parameters
validate-InRange F p h =
    let port_low = duration-ge p.port 1 (ground arith) in
    let port_high = duration-le p.port 65535 (ground arith) in
    let low = duration-ge p.state_update_period_ms 10 (ground arith) in
    let high = duration-le p.state_update_period_ms 1000 (ground arith) in
    record {
      port_kept = omega arith;
      port_valid = port_low;
      period_kept = omega arith;
      period_low = low;
      period_high = high;
      connect_waits = duration-gt p.connect_timeout_ms (ground arith);
      response_waits = duration-gt p.response_timeout_ms (ground arith);
      motion_waits = duration-gt p.motion_timeout_ms (ground arith);
      reconnect_waits = duration-gt p.reconnect_interval_ms (ground arith);
      period_sent = stream_payload-period F p (omega arith) (omega (arith, high));
    }
