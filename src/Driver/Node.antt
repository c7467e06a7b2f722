-- ===== src/Driver/Node.antt =====
-- The node of wsg50_driver/src/main.cpp as a whole: the object that the constructor makes, and what
-- its callbacks, its threads and the worker of its transport do to it. A step is a round of the
-- worker or the end of run(), a callback up to its wait for a future, a command of a thread, the
-- end of the initialization thread, or the destructor up to its joins, which are in Driver/Shutdown;
-- any of them may come next, which covers the order in each thread.
pub mod Permits
pub mod Sends
pub mod Quiet
pub mod Orderly
mod Examples
use text.Mathlib.Text as Text
use wsg50_ros2_humble.Base.{
  In, ℕ, suc, ◌≡◌, ◌⊎◌, Bool, true, false, List, [], ◌∷◌, Option, none, some, String, if◌then◌else◌,
  returns,
}
use wsg50_ros2_humble.Device.{CommandReply, DeviceState}
use wsg50_ros2_humble.Transport.{Transport}
use wsg50_ros2_humble.Transport.Requests.{stop}
use wsg50_ros2_humble.Transport.Worker.{Turn, Worker, run_round, run_exit}
use wsg50_ros2_humble.Driver.{Doubles, Parameters}
use wsg50_ros2_humble.Driver.Goals.{
  StandardGoal, AdvancedGoal, as_advanced, handle_standard_goal, handle_advanced_goal,
}
use wsg50_ros2_humble.Driver.Motion.{
  set_acceleration, set_force, start_motion, stop_motion, home, acknowledge, tare,
}
use wsg50_ros2_humble.Driver.Execution.{
  Surroundings, Event, acceleration_set, force_set, motion_started, stop_sent,
}
use wsg50_ros2_humble.Driver.Execution.Standard.{StandardResult, execute_standard}
use wsg50_ros2_humble.Driver.Execution.Advanced.{AdvancedResult, execute_advanced}
use wsg50_ros2_humble.Driver.Setup.{
  Setup, Step, acceleration, force, acknowledgement, homing, Replies, initialize_connection,
  initialized, initialize, construct,
}

-- The action servers and the Trigger services, with the names that the constructor gives them.
pub data Action : Type 0 where
  standard_action advanced_action : Action

abbrev pub actions : List (String × Action)
actions = ("~/gripper_action", standard_action) ∷ ("~/command", advanced_action) ∷ []

pub data Service : Type 0 where
  homes stops acknowledges tares : Service

abbrev pub services : List (String × Service)
services =
    ("~/home", homes) ∷ ("~/stop", stops) ∷ ("~/ack_fault", acknowledges) ∷ ("~/tare", tares) ∷ []

unfoldable pub named : {A : Type 0} → String → List (String × A) → Option A
named name [] = none
named name ((key, a) ∷ rest) = if Text.◌==◌ key name then some a else named name rest

-- The timers of the constructor.
pub data Timer : Type 0 where
  state_timer diagnostics_timer connection_timer : Timer

-- The answer of handle_standard_cancel and handle_advanced_cancel.
pub data CancelResponse : Type 0 where
  rejects accepts : CancelResponse

module _ (F : Doubles) where
  pub data Goal : Type 0 where
    standard : StandardGoal F → Goal
    advanced : AdvancedGoal F → Goal

  -- `threads` are the goals of action_threads_ with their generations, the latest first; `called`
  -- are the services that have been called. motion_active_, which nothing reads, is in Driver/Actions.
  pub record Node : Type 0 where
    pub worker : Worker
    pub setup : Setup
    pub shutting_down : Bool
    pub latest : ℕ
    pub threads : List (ℕ × Goal)
    pub called : List Service

module _ (F : Doubles) (p : Parameters F) where
  abbrev pub give : Node F → ℕ × Transport → Node F
  give n x = record n { worker = record (n.worker) { transport = x.1 } }

  -- handle_standard_goal and handle_advanced_goal.
  abbrev pub handle_goal : Node F → Goal F → Bool
  handle_goal n (standard goal) =
      handle_standard_goal F p n.setup.done n.worker.transport.state goal
  handle_goal n (advanced goal) = handle_advanced_goal F n.setup.done n.worker.transport.state goal

  -- handle_standard_accepted and handle_advanced_accepted.
  abbrev pub handle_accepted : Goal F → Node F → Node F
  handle_accepted goal n = record n {
    latest = suc n.latest;
    threads = (suc n.latest, goal) ∷ n.threads;
  }

  -- The command of a service; home_service sends none without a connection.
  unfoldable pub service_command : Service → Transport → ℕ × Transport
  unfolding home stop_motion acknowledge tare
  service_command homes t = if t.connected then home F p t else (t.promises, t)
  service_command stops t = stop_motion F p t
  service_command acknowledges t = acknowledge F p t
  service_command tares t = tare F p t

  -- The command of the initialization thread.
  unfoldable pub setup_command : Step → Transport → ℕ × Transport
  unfolding set_acceleration set_force acknowledge home
  setup_command acceleration t = set_acceleration F p p.default_acceleration t
  setup_command force t = set_force F p p.default_grasp_force t
  setup_command acknowledgement t = acknowledge F p t
  setup_command homing t = home F p t

  -- The command of the thread of a goal; the other events send nothing.
  unfoldable pub perform : {Result : Type 0} → Event F.Double Result → Transport → ℕ × Transport
  unfolding set_acceleration set_force start_motion stop_motion
  perform (acceleration_set a) t = set_acceleration F p a t
  perform (force_set f) t = set_force F p f t
  perform (motion_started mode width speed stop_on_block) t =
      start_motion F p mode width speed stop_on_block t
  perform stop_sent t = stop_motion F p t
  perform e t = (t.promises, t)

  -- publish_state and publish_diagnostics leave the node as it is.
  unfoldable pub run_timer : Timer → Node F → Node F
  unfolding initialize_connection
  run_timer connection_timer n = record n {
    setup = (initialize_connection n.shutting_down n.setup n.worker.transport.state).1;
  }
  run_timer timer n = n

  abbrev pub action_of : Goal F → Action
  action_of (standard goal) = standard_action
  action_of (advanced goal) = advanced_action

  abbrev pub handle_cancel : Goal F → CancelResponse
  handle_cancel goal = accepts

  -- The periods of the timers, in nanoseconds.
  abbrev pub timers : List (ℕ × Timer)
  timers =
      (F.nanoseconds (F.over (F.quotient 1 1) p.state_publish_rate), state_timer)
      ∷ (1000000000, diagnostics_timer)
      ∷ (100000000, connection_timer)
      ∷ []

  pub data NodeStep (n : Node F) : Node F → Type 0 where
    works :
        (turn : Turn) (going_on : Bool) (w : Worker)
        → run_round turn n.worker ≡ returns (going_on, w)
        → NodeStep n (record n { worker = w })
    requests :
        (name : String) (goal : Goal F)
        → named name actions ≡ some (action_of goal)
        → handle_goal n goal ≡ true
        → NodeStep n (handle_accepted goal n)
    cancels :
        (generation : ℕ) (goal : Goal F)
        → In (generation, goal) n.threads
        → handle_cancel goal ≡ accepts
        → NodeStep n n
    serves :
        (name : String) (s : Service)
        → named name services ≡ some s
        → NodeStep n
            (give (record n { called = s ∷ n.called }) (service_command s n.worker.transport))
    ticks :
        (period : ℕ) (timer : Timer) → In (period, timer) timers → NodeStep n (run_timer timer n)
    initializes :
        (r : Replies) (s : Step)
        → n.setup.running ≡ true
        → In s (initialize F p r).0
        → NodeStep n (give n (setup_command s n.worker.transport))
    completes :
        (generation : ℕ) (r : Replies)
        → n.setup.running ≡ true
        → NodeStep n (record n { setup = initialized generation (initialize F p r).1 n.setup })
    executes_standard :
        (generation : ℕ) (goal : StandardGoal F) (s : Surroundings)
        (events : List (Event F.Double (StandardResult F))) (e : Event F.Double (StandardResult F))
        → In (generation, standard goal) n.threads
        → execute_standard F p goal generation s ≡ returns events
        → In e events
        → NodeStep n (give n (perform e n.worker.transport))
    executes_advanced :
        (generation : ℕ) (goal : AdvancedGoal F) (s : Surroundings)
        (events : List (Event F.Double (AdvancedResult F))) (e : Event F.Double (AdvancedResult F))
        → In (generation, advanced goal) n.threads
        → execute_advanced F p goal generation s ≡ returns events
        → In e events
        → NodeStep n (give n (perform e n.worker.transport))
    halts : NodeStep n (record n {
      shutting_down = true;
      worker = record (n.worker) { transport = (stop n.worker.transport).1 };
    })
    ends :
        (now : ℕ)
        → NodeStep n (record n { worker = record (n.worker) { transport = run_exit now n.worker } })

  -- The node that the constructor makes, whose worker reads the clock at the start of run().
  abbrev pub constructed : Transport → ℕ → Node F
  constructed t now = record {
    worker = record { transport = t; next_connect = now };
    setup = record { done = record { successful = false; generation = 0 }; running = false };
    shutting_down = false;
    latest = 0;
    threads = [];
    called = [];
  }

  pub data Reach : Node F → Type 0 where
    begins : (t : Transport) (now : ℕ) → construct F p ≡ some t → Reach (constructed t now)
    goes_on : {n m : Node F} → Reach n → NodeStep n m → Reach m
