-- ===== src/Driver/Services/Examples.antt =====
-- Runs of the services of the node of wsg50_driver/src/main.cpp.
use wsg50_ros2_humble.Base.{refl, true, [], returns, throws, waits}
use wsg50_ros2_humble.Driver.Services.{
  home_service, stop_service, acknowledge_service, tare_service,
}
use wsg50_ros2_humble.Driver.Services.Offline.{SaysFailed, services-SaysFailed}
use wsg50_ros2_humble.Transport.{Transport, init, default_options}
use wsg50_ros2_humble.Transport.Invariant.Client.{init-IsOrderly}
use wsg50_ros2_humble.Transport.Samples.{reply, answering_turn, online}
use wsg50_ros2_humble.Transport.Worker.{Worker, run_round}
use wsg50_ros2_humble.Transport.Requests.{command}
use wsg50_ros2_humble.Driver.Samples.{fixed, parameters}

-- The other threads do nothing meanwhile.
abbrev nothing : Transport → Transport
nothing t = t

services-SaysFailed_example :
    SaysFailed "gripper is not connected"
      (home_service fixed parameters nothing (init default_options))
    × SaysFailed "gripper is not connected"
        (stop_service fixed parameters nothing (init default_options))
    × SaysFailed "gripper is not connected"
        (acknowledge_service fixed parameters nothing (init default_options))
    × SaysFailed "gripper is not connected"
        (tare_service fixed parameters nothing (init default_options))
unfolding init
services-SaysFailed_example =
    services-SaysFailed fixed parameters nothing (λ u k reply h. h) (init default_options)
      (init-IsOrderly default_options) refl

-- The worker sends the frame, and the device answers.
abbrev asked : Worker
asked = record { transport = (command 0x22 [] true 2000 true online).1; next_connect = 0 }

abbrev answered : Worker
answered = elim (run_round answering_turn asked) [
  | returns x ↦ x.1
  | throws ↦ asked
  | waits ↦ asked
]

abbrev worker : Transport → Transport
worker t = answered.transport
