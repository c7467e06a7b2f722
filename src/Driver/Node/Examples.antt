-- ===== src/Driver/Node/Examples.antt =====
-- A run of the node of wsg50_driver/src/main.cpp: the worker connects and sends a stream request, the
-- timer starts the initialization, and its thread gives the first command.
use wsg50_ros2_humble.Base.{Bool, true, refl, inl, inr, returns, throws, waits, Safely}
use wsg50_ros2_humble.Transport.{Transport, init, assign}
use wsg50_ros2_humble.Transport.Requests.{start, queue_state_streaming}
use wsg50_ros2_humble.Transport.Link.{connect_socket, send_all}
use wsg50_ros2_humble.Transport.Replies.{expire_requests}
use wsg50_ros2_humble.Transport.Dispatch.{dispatch_requests, pick_request}
use wsg50_ros2_humble.Transport.Worker.{Turn, nothing, Worker, run_round}
use wsg50_ros2_humble.Transport.Invariant.{IsOrderly}
use wsg50_ros2_humble.Transport.Invariant.Carries.{Written}
use wsg50_ros2_humble.Transport.Samples.{script, slow}
use wsg50_ros2_humble.Driver.Samples.{fixed, parameters, accepted_reply}
use wsg50_ros2_humble.Driver.{duration}
use wsg50_ros2_humble.Device.{success}
use wsg50_ros2_humble.Wire.Frame.{encode_frame}
use wsg50_ros2_humble.Driver.Setup.{acceleration, Replies, initialize, make_options, construct}
use wsg50_ros2_humble.Driver.Node.{
  Node, NodeStep, works, ticks, initializes, connection_timer, Reach, begins, goes_on, run_timer,
}
use wsg50_ros2_humble.Driver.Node.Permits.{Permits}
use wsg50_ros2_humble.Driver.Node.Sends.{Reach-Written}
use wsg50_ros2_humble.Driver.Node.Quiet.{Quiet, Reach-Quiet}
use wsg50_ros2_humble.Driver.Node.Orderly.{Reach-run_round}

record Run : Type 0 where
  last : Node fixed
  reach : Reach fixed parameters last

abbrev and_then : (r : Run) {n : Node fixed} → NodeStep fixed parameters r.last n → Run
and_then r st = record { last = _; reach = goes_on r.reach st }

abbrev turn : Turn
turn = record {
  now = 200;
  connect = script;
  still_running = true;
  send = slow 11;
  poll = nothing;
  later = 310;
}

abbrev made : Transport
made = (start (init (make_options fixed parameters))).1

abbrev rounded : Worker → Worker
rounded w = elim (run_round turn w) [ returns x ↦ x.1 | throws ↦ w | waits ↦ w ]

abbrev replies : Replies
replies = record {
  acceleration_reply = accepted_reply;
  force_reply = accepted_reply;
  acknowledge_reply = accepted_reply;
  home_reply = accepted_reply;
}

abbrev node_run : Run
unfolding init construct run_round connect_socket dispatch_requests pick_request
    queue_state_streaming encode_frame send_all run_timer expire_requests assign duration initialize
    success
node_run =
    let a : Run = record { last = _; reach = begins made 100 refl } in
    let b = and_then a (works turn true (rounded a.last.worker) refl) in
    let c = and_then b (ticks 100000000 connection_timer (inr (inr (inl refl)))) in
    and_then c (initializes replies acceleration refl (inl refl))

Reach-Written_example :
    Written (Permits fixed parameters node_run.last) node_run.last.worker.transport.written
Reach-Written_example = Reach-Written fixed parameters node_run.reach

Reach-Quiet_example : Written (Quiet fixed parameters) node_run.last.worker.transport.written
unfolding node_run init construct run_round connect_socket dispatch_requests pick_request
    queue_state_streaming encode_frame send_all run_timer expire_requests assign duration initialize
    success
Reach-Quiet_example = Reach-Quiet fixed parameters node_run.reach refl refl refl refl

Reach-run_round_example :
    IsOrderly node_run.last.worker.transport
    × Safely (λ (x : Bool × Worker). IsOrderly x.1.transport) (run_round turn node_run.last.worker)
Reach-run_round_example = Reach-run_round fixed parameters turn node_run.reach
