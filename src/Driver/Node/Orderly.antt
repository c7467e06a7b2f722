-- ===== src/Driver/Node/Orderly.antt =====
-- The transport of the node of wsg50_driver/src/main.cpp stays orderly, whatever the callbacks and the
-- threads of the node do.
use wsg50_ros2_humble.Base.{
  ℕ, ◌≡◌, sym, subst, Bool, some, if_both, arith, Yields-at, Safely, Safely-Yields,
}
use wsg50_ros2_humble.Transport.{Transport, init}
use wsg50_ros2_humble.Transport.Requests.{start}
use wsg50_ros2_humble.Transport.Worker.{run_exit, Worker, Turn, run_round}
use wsg50_ros2_humble.Transport.Invariant.{IsOrderly}
use wsg50_ros2_humble.Transport.Invariant.Client.{
  init-IsOrderly, command-IsOrderly, start-IsOrderly, stop-IsOrderly,
}
use wsg50_ros2_humble.Transport.Invariant.Link.{disconnect-IsOrderly}
use wsg50_ros2_humble.Transport.Invariant.Worker.{run_round-Safely}
use wsg50_ros2_humble.Driver.{Doubles, Parameters}
use wsg50_ros2_humble.Driver.Motion.{
  set_acceleration, set_force, start_motion, stop_motion, home, acknowledge, tare,
}
use wsg50_ros2_humble.Driver.Execution.{
  Event, acceleration_set, force_set, motion_started, feedback, stop_sent, canceled, aborted,
  succeeded, finished,
}
use wsg50_ros2_humble.Driver.Setup.{
  Step, acceleration, force, acknowledgement, homing, make_options, construct,
}
use wsg50_ros2_humble.Driver.Node.{
  Service, homes, stops, acknowledges, tares, Node, Timer, state_timer, diagnostics_timer,
  connection_timer, run_timer, service_command, setup_command, perform, NodeStep, works, requests,
  cancels, serves, ticks, initializes, completes, executes_standard, executes_advanced, halts, ends,
  Reach, begins, goes_on,
}

module _ (F : Doubles) (p : Parameters F) where
  perform-IsOrderly :
      {Result : Type 0} (e : Event F.Double Result) (t : Transport)
      → IsOrderly t
      → IsOrderly (perform F p e t).1
  unfolding perform set_acceleration set_force start_motion stop_motion
  perform-IsOrderly (acceleration_set a) t v = command-IsOrderly _ _ _ _ _ t v
  perform-IsOrderly (force_set f) t v = command-IsOrderly _ _ _ _ _ t v
  perform-IsOrderly (motion_started mode width speed stop_on_block) t v =
      command-IsOrderly _ _ _ _ _ t v
  perform-IsOrderly stop_sent t v = command-IsOrderly _ _ _ _ _ t v
  perform-IsOrderly (feedback state reached) t v = v
  perform-IsOrderly (canceled r) t v = v
  perform-IsOrderly (aborted r) t v = v
  perform-IsOrderly (succeeded r) t v = v
  perform-IsOrderly finished t v = v

  service_command-IsOrderly :
      (s : Service) (t : Transport) → IsOrderly t → IsOrderly (service_command F p s t).1
  unfolding service_command home stop_motion acknowledge tare
  service_command-IsOrderly homes t v =
      if_both (λ (x : ℕ × Transport). IsOrderly x.1) t.connected _ _
        (λ _. command-IsOrderly _ _ _ _ _ t v) (λ _. v)
  service_command-IsOrderly stops t v = command-IsOrderly _ _ _ _ _ t v
  service_command-IsOrderly acknowledges t v = command-IsOrderly _ _ _ _ _ t v
  service_command-IsOrderly tares t v = command-IsOrderly _ _ _ _ _ t v

  setup_command-IsOrderly :
      (s : Step) (t : Transport) → IsOrderly t → IsOrderly (setup_command F p s t).1
  unfolding setup_command set_acceleration set_force acknowledge home
  setup_command-IsOrderly acceleration t v = command-IsOrderly _ _ _ _ _ t v
  setup_command-IsOrderly force t v = command-IsOrderly _ _ _ _ _ t v
  setup_command-IsOrderly acknowledgement t v = command-IsOrderly _ _ _ _ _ t v
  setup_command-IsOrderly homing t v = command-IsOrderly _ _ _ _ _ t v

  abbrev NodeOrderly : Node F → Type 0
  NodeOrderly n = IsOrderly n.worker.transport

  run_timer-Orderly :
      (timer : Timer) (n : Node F) → NodeOrderly n → NodeOrderly (run_timer F p timer n)
  unfolding run_timer
  run_timer-Orderly state_timer n v = v
  run_timer-Orderly diagnostics_timer n v = v
  run_timer-Orderly connection_timer n v = v

  NodeStep-Orderly : {n m : Node F} → NodeStep F p n m → NodeOrderly n → NodeOrderly m
  unfolding run_exit
  NodeStep-Orderly {n} (works turn going_on w e) v =
      Yields-at (λ (x : Bool × Worker). IsOrderly x.1.transport)
        (Safely-Yields (λ (x : Bool × Worker). IsOrderly x.1.transport) (run_round turn n.worker)
          (run_round-Safely turn n.worker v))
        e
  NodeStep-Orderly (requests name goal e h) v = v
  NodeStep-Orderly (cancels generation goal i e) v = v
  NodeStep-Orderly {n} (serves name s e) v = service_command-IsOrderly s n.worker.transport v
  NodeStep-Orderly {n} (ticks period timer i) v = run_timer-Orderly timer n v
  NodeStep-Orderly {n} (initializes r s on i) v = setup_command-IsOrderly s n.worker.transport v
  NodeStep-Orderly (completes generation r on) v = v
  NodeStep-Orderly {n} (executes_standard generation goal s events e i returned there) v =
      perform-IsOrderly e n.worker.transport v
  NodeStep-Orderly {n} (executes_advanced generation goal s events e i returned there) v =
      perform-IsOrderly e n.worker.transport v
  NodeStep-Orderly {n} halts v = stop-IsOrderly n.worker.transport v
  NodeStep-Orderly {n} (ends now) v =
      disconnect-IsOrderly now "transport stopped" n.worker.transport v.accounted

  construct-IsOrderly : (t : Transport) → construct F p ≡ some t → IsOrderly t
  unfolding construct
  construct-IsOrderly t e =
      let started : t ≡ (start (init (make_options F p))).1 = ground arith in
      subst IsOrderly (sym started) (start-IsOrderly _ (init-IsOrderly (make_options F p)))

  Reach-Orderly : {n : Node F} → Reach F p n → NodeOrderly n
  Reach-Orderly (begins t now e) = construct-IsOrderly t e
  Reach-Orderly (goes_on r st) = NodeStep-Orderly st (Reach-Orderly r)

  -- In each reachable state of the whole node, whatever its callbacks and threads have done,
  -- the transport is orderly, and a round of run(), with any results of the system calls,
  -- throws nothing; if it comes to its end, it leaves an orderly transport.
  pub Reach-run_round :
      {n : Node F} (turn : Turn)
      → Reach F p n
      → IsOrderly n.worker.transport
        × Safely (λ (x : Bool × Worker). IsOrderly x.1.transport) (run_round turn n.worker)
  Reach-run_round {n} turn r = (Reach-Orderly r, run_round-Safely turn n.worker (Reach-Orderly r))
