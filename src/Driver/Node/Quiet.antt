-- ===== src/Driver/Node/Quiet.antt =====
-- What the node of wsg50_driver/src/main.cpp sends on its own.
use wsg50_ros2_humble.Base.{In, ℕ, ◌≡◌, inl, inr, subst, true, false, []}
use wsg50_ros2_humble.Wire.Bytes.{Bytes}
use wsg50_ros2_humble.Transport.{init}
use wsg50_ros2_humble.Transport.Requests.{stream_ids, stream_payload}
use wsg50_ros2_humble.Transport.Invariant.Carries.Weaker.{Written-mono}
use wsg50_ros2_humble.Transport.Invariant.Carries.{contains, Written}
use wsg50_ros2_humble.Driver.{Doubles, Parameters}
use wsg50_ros2_humble.Driver.Motion.{command_set_acceleration, command_set_force}
use wsg50_ros2_humble.Driver.Setup.{make_options}
use wsg50_ros2_humble.Driver.Node.{Service, Goal, Node, Reach}
use wsg50_ros2_humble.Driver.Node.Permits.{
  Permits, streams, configures_acceleration, configures_force, acknowledged, homed, tared, stopped,
  goal_stopped, accelerated, forced, moved, acceleration_payload, force_payload,
}
use wsg50_ros2_humble.Driver.Node.Sends.{Reach-Written}

module _ (F : Doubles) (p : Parameters F) where
  -- What the node sends on its own: the stream requests and the settings of the parameters.
  pub data Quiet : ℕ → Bytes → Type 0 where
    streaming :
        (id : ℕ)
        → contains id stream_ids ≡ true
        → Quiet id (stream_payload (init (make_options F p)))
    setting_acceleration :
        Quiet command_set_acceleration (acceleration_payload F p.default_acceleration)
    setting_force : Quiet command_set_force (force_payload F p.default_grasp_force)

  module _ (n : Node F) (no_ack : p.auto_acknowledge_faults ≡ false) (no_home : p.auto_home ≡ false)
      (no_calls : n.called ≡ []) (no_goals : n.threads ≡ []) where
    not_called : (s : Service) → In s n.called → ⊥
    not_called s i = subst (In s) no_calls i

    not_asked : (x : ℕ × Goal F) → In x n.threads → ⊥
    not_asked x i = subst (In x) no_goals i

    Permits-Quiet : (id : ℕ) (payload : Bytes) → Permits F p n id payload → Quiet id payload
    Permits-Quiet id payload (streams k h) = streaming k h
    Permits-Quiet id payload configures_acceleration = setting_acceleration
    Permits-Quiet id payload configures_force = setting_force
    Permits-Quiet id payload (acknowledged (inl e)) = cc
    Permits-Quiet id payload (acknowledged (inr i)) = absurd (not_called _ i)
    Permits-Quiet id payload (homed (inl e)) = cc
    Permits-Quiet id payload (homed (inr i)) = absurd (not_called _ i)
    Permits-Quiet id payload (tared i) = absurd (not_called _ i)
    Permits-Quiet id payload (stopped i) = absurd (not_called _ i)
    Permits-Quiet id payload (goal_stopped g goal i) = absurd (not_asked _ i)
    Permits-Quiet id payload (accelerated g goal i l) = absurd (not_asked _ i)
    Permits-Quiet id payload (forced g goal i l) = absurd (not_asked _ i)
    Permits-Quiet id payload (moved g goal i l) = absurd (not_asked _ i)

  -- If both automatic parameters are off, no service has been called and no goal accepted,
  -- then in each reachable state of the whole node only beginnings of frames of stream
  -- requests and of the settings of the default acceleration and grasp force have been
  -- written to the connection.
  pub Reach-Quiet :
      {n : Node F}
      → Reach F p n
      → p.auto_acknowledge_faults ≡ false
      → p.auto_home ≡ false
      → n.called ≡ []
      → n.threads ≡ []
      → Written Quiet n.worker.transport.written
  Reach-Quiet {n} r no_ack no_home no_calls no_goals =
      Written-mono (Permits F p n) Quiet (Permits-Quiet n no_ack no_home no_calls no_goals)
        (Reach-Written F p r)
