-- ===== src/Driver/Setup/Steps.antt =====
-- The initialization thread of wsg50_driver/src/main.cpp against its plan: the commands in their
-- order, up to the first that fails.
use wsg50_ros2_humble.Base.{◌≡◌, List, [], ◌∷◌, ◌++◌, if◌then◌else◌, arith}
use wsg50_ros2_humble.Device.{CommandReply, success}
use wsg50_ros2_humble.Driver.{Doubles, Parameters}
use wsg50_ros2_humble.Driver.Setup.{
  Step, acceleration, force, acknowledgement, homing, Replies, initialize,
}

-- The reply to a command.
abbrev pub reply_to : Replies → Step → CommandReply
reply_to r acceleration = r.acceleration_reply
reply_to r force = r.force_reply
reply_to r acknowledgement = r.acknowledge_reply
reply_to r homing = r.home_reply

-- Commands in their order, up to the first that fails, with the last reply.
abbrev pub up_to_failure : Replies → CommandReply → List Step → List Step × CommandReply
up_to_failure r last [] = ([], last)
up_to_failure r last (x ∷ xs) =
    let rest = up_to_failure r (reply_to r x) xs in
    if success (reply_to r x) then (x ∷ rest.0, rest.1) else (x ∷ [], reply_to r x)

module _ (F : Doubles) where
  abbrev pub plan : Parameters F → List Step
  plan p =
      acceleration
      ∷ force
      ∷ ((if p.auto_acknowledge_faults then acknowledgement ∷ [] else [])
          ++ (if p.auto_home then homing ∷ [] else []))

  -- The initialization thread sends the acceleration and the force, then the acknowledgement
  -- and the homing where the parameters ask for them, in this order and none behind one that
  -- fails; its last reply is that of the last command sent.
  pub initialize-eq-up_to_failure :
      (p : Parameters F) (r : Replies) (last : CommandReply)
      → initialize F p r ≡ up_to_failure r last (plan p)
  unfolding initialize
  initialize-eq-up_to_failure p r last = ground arith
