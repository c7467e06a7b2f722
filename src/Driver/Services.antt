-- ===== src/Driver/Services.antt =====
-- The services of the node of wsg50_driver/src/main.cpp. Each gives a command to the transport and
-- waits for its future; what the other threads do to the transport until then is an argument.
pub mod Offline
pub mod Answered
mod Examples
use wsg50_ros2_humble.Base.{
  ℕ, Bool, false, List, [], ◌∷◌, Option, none, some, String, ◌==◌, if◌then◌else◌, Outcome, returns,
  waits, ◌>>=◌,
}
use wsg50_ros2_humble.Device.{CommandReply}
use wsg50_ros2_humble.Transport.{Transport}
use wsg50_ros2_humble.Driver.{Doubles, Parameters}
use wsg50_ros2_humble.Driver.Motion.{
  Response, fill_trigger_response, home, stop_motion, acknowledge, tare,
}

-- The reply that a promise was set to.
unfoldable pub reply_of : ℕ → List (ℕ × CommandReply) → Option CommandReply
reply_of k [] = none
reply_of k ((p, reply) ∷ rest) = if p == k then some reply else reply_of k rest

-- std::future::get.
unfoldable pub get : ℕ → Transport → Outcome (CommandReply × Transport)
unfolding reply_of
get k t = elim (reply_of k t.settled) [ none ↦ waits | some reply ↦ returns (reply, t) ]

-- The response of a service from the command that it has given.
unfoldable pub respond : (Transport → Transport) → ℕ × Transport → Outcome (Response × Transport)
unfolding get
respond others (k, t) = do (reply, t') ← get k (others t); returns (fill_trigger_response reply, t')

module _ (F : Doubles) (p : Parameters F) (others : Transport → Transport) where
  unfoldable pub home_service : Transport → Outcome (Response × Transport)
  unfolding respond home
  home_service t =
      if t.connected
      then respond others (home F p t)
      else returns (record { success = false; message = "gripper is not connected" }, t)

  unfoldable pub stop_service : Transport → Outcome (Response × Transport)
  unfolding respond stop_motion
  stop_service t = respond others (stop_motion F p t)

  unfoldable pub acknowledge_service : Transport → Outcome (Response × Transport)
  unfolding respond acknowledge
  acknowledge_service t = respond others (acknowledge F p t)

  unfoldable pub tare_service : Transport → Outcome (Response × Transport)
  unfolding respond tare
  tare_service t = respond others (tare F p t)
