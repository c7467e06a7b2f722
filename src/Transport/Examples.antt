-- ===== src/Transport/Examples.antt =====
-- Runs of the class Transport of wsg50_driver/src/transport.cpp on concrete requests, replies and
-- results of the system calls.
use wsg50_ros2_humble.Base.{true, false, List, [], ◌∷◌, none, some, Safely, Returns}
use wsg50_ros2_humble.Wire.Frame.{encode_frame}
use wsg50_ros2_humble.Transport.{Transport, init}
use wsg50_ros2_humble.Transport.Requests.{command}
use wsg50_ros2_humble.Transport.Link.{connect_socket, SendRound, accepted, try_again}
use wsg50_ros2_humble.Transport.Replies.{handle_frame}
use wsg50_ros2_humble.Transport.Dispatch.{pick_request}
use wsg50_ros2_humble.Transport.Worker.{
  received, would_block, parse_received, readable, Turn, Worker, stopped, round, run,
}
use wsg50_ros2_humble.Transport.Samples.{reply, script, online, online-IsOrderly}
use wsg50_ros2_humble.Transport.Invariant.{IsOrderly}
use wsg50_ros2_humble.Transport.Invariant.Client.{command-IsOrderly}
use wsg50_ros2_humble.Transport.Link.{disconnect}
use wsg50_ros2_humble.Transport.Invariant.Link.{IsDown, disconnect-IsDown}
use wsg50_ros2_humble.Transport.Invariant.Routing.{Routes, handle_frame-Routes}
use wsg50_ros2_humble.Transport.Invariant.Expiry.{Expires, expire_requests-Expires}
use wsg50_ros2_humble.Transport.Replies.{expire_requests}
use wsg50_ros2_humble.Transport.Threads.{system, resting, over}
use wsg50_ros2_humble.Transport.Threads.Runs.{halted}
use wsg50_ros2_humble.Transport.Threads.Refines.{StopsOnce, run-Steps}
use wsg50_ros2_humble.Transport.Invariant.Dispatch.{pick_request-Picked}
use wsg50_ros2_humble.Transport.Invariant.Worker.{parse_received-Returns, IsOver, run-Safely}

-- A command is queued, and then it is sent.
abbrev busy : Transport
busy = (command 0x21 (0 ∷ []) true 5000 false online).1

abbrev sent : Transport
sent = elim (pick_request 200 busy) [ none ↦ busy | some p ↦ p.1 ]

busy-IsOrderly : IsOrderly busy
busy-IsOrderly = command-IsOrderly 0x21 (0 ∷ []) true 5000 false online online-IsOrderly

sent-IsOrderly : IsOrderly sent
unfolding pick_request command connect_socket init
sent-IsOrderly = (pick_request-Picked 200 busy busy-IsOrderly).orderly

-- Half of the frame is taken at once, the rest after a wait.
abbrev sends : List SendRound
sends =
    record { running = true; result = accepted 5; now = 201 }
    ∷ record { running = true; result = try_again true "busy"; now = 202 }
    ∷ record { running = true; result = accepted 4; now = 203 }
    ∷ []

abbrev turn : Turn
turn = record {
  now = 200;
  connect = script;
  still_running = true;
  send = sends;
  poll = readable (
      record { running = true; result = received (encode_frame 0x21 reply); now = 300 }
      ∷ record { running = true; result = would_block; now = 301 }
      ∷ []);
  later = 310;
}

abbrev worker : Worker
worker = record { transport = busy; next_connect = 0 }

disconnect-IsDown_example :
    IsDown "transport stopped" busy (disconnect 400 "transport stopped" busy)
disconnect-IsDown_example = disconnect-IsDown 400 "transport stopped" busy busy-IsOrderly.accounted

parse_received-Returns_example : Returns IsOrderly (parse_received 300 sent)
parse_received-Returns_example = parse_received-Returns 300 sent sent-IsOrderly

run-Safely_example : Safely IsOver (run (round turn (stopped 500)) worker)
run-Safely_example = run-Safely (round turn (stopped 500)) worker busy-IsOrderly

handle_frame-Routes_example :
    Returns (Routes 300 0x21 reply sent) (handle_frame 300 0x21 reply sent)
handle_frame-Routes_example = handle_frame-Routes 300 0x21 reply sent sent-IsOrderly

expire_requests-Expires_example : Expires 9000 sent (expire_requests 9000 sent)
expire_requests-Expires_example = expire_requests-Expires 9000 sent sent-IsOrderly

run-Steps_example :
    Safely
      (λ (t : Transport). StopsOnce (system busy resting []) (system (halted t) over []))
      (run (round turn (stopped 500)) worker)
run-Steps_example = run-Steps [] (round turn (stopped 500)) worker busy-IsOrderly
