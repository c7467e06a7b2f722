-- ===== src/Driver/Node/Permits.antt =====
-- What the node of wsg50_driver/src/main.cpp sends to the device, and why.
use wsg50_ros2_humble.Base.{
  In, ℕ, ◌≤◌, ◌≡◌, ◌⊎◌, inl, inr, sym, subst, Bool, true, false, not, List, [], ◌∷◌, if_both,
}
use wsg50_ros2_humble.Wire.Bytes.{Bytes, append_float}
use wsg50_ros2_humble.Device.{CommandReply, success}
use wsg50_ros2_humble.Transport.{Transport, init}
use wsg50_ros2_humble.Transport.Requests.{command, stream_ids, stream_payload}
use wsg50_ros2_humble.Transport.Invariant.Carries.{contains, Carries, command-Carries}
use wsg50_ros2_humble.Driver.{
  Doubles, Parameters, minimum_width, maximum_width, minimum_speed, maximum_speed,
  minimum_acceleration, maximum_acceleration, minimum_force, maximum_force,
}
use wsg50_ros2_humble.Driver.Goals.{AdvancedGoal, as_advanced, within, mode_release}
use wsg50_ros2_humble.Driver.Motion.{
  thousandfold, motion_payload, motion_command, ack_payload, command_home, command_stop,
  command_acknowledge, command_tare, command_set_acceleration, command_set_force, set_acceleration,
  set_force, start_motion, stop_motion, home, acknowledge, tare,
}
use wsg50_ros2_humble.Driver.Execution.{
  Event, acceleration_set, force_set, motion_started, feedback, stop_sent, canceled, aborted,
  succeeded, finished,
}
use wsg50_ros2_humble.Driver.Execution.Orders.{Orders}
use wsg50_ros2_humble.Driver.Setup.{
  Step, acceleration, force, acknowledgement, homing, Replies, initialize, make_options,
}
use wsg50_ros2_humble.Driver.Node.{
  Service, homes, stops, acknowledges, tares, Goal, standard, advanced, Node, service_command,
  setup_command, perform,
}

-- A goal whose values are finite and in the range that the node allows.
pub record InLimits (F : Doubles) (goal : AdvancedGoal F) : Type 0 where
  pub mode : goal.mode ≤ mode_release
  pub width : within F goal.width (minimum_width F) (maximum_width F) ≡ true
  pub speed : within F goal.speed (minimum_speed F) (maximum_speed F) ≡ true
  pub acceleration :
      within F goal.acceleration (minimum_acceleration F) (maximum_acceleration F) ≡ true
  pub force : within F goal.force (minimum_force F) (maximum_force F) ≡ true

abbrev pub acceleration_payload : (F : Doubles) → F.Double → Bytes
acceleration_payload F a = append_float [] (F.narrow (thousandfold F a))

abbrev pub force_payload : (F : Doubles) → F.Double → Bytes
force_payload F f = append_float [] (F.narrow f)

module _ (F : Doubles) (p : Parameters F) where
  -- What is carried out for a goal.
  abbrev pub view : Goal F → AdvancedGoal F
  view (standard goal) = as_advanced F p goal
  view (advanced goal) = goal

  -- The commands that the node may have sent, with the reason for each: the stream requests; the
  -- settings of the parameters; an acknowledgement or a homing that a parameter asks for, or a call
  -- of a service; a stop by the service or for a goal; and the settings and the motion of a goal
  -- that was accepted, with its values, which are in the limits.
  pub data Permits (n : Node F) : ℕ → Bytes → Type 0 where
    streams :
        (id : ℕ)
        → contains id stream_ids ≡ true
        → Permits n id (stream_payload (init (make_options F p)))
    configures_acceleration :
        Permits n command_set_acceleration (acceleration_payload F p.default_acceleration)
    configures_force : Permits n command_set_force (force_payload F p.default_grasp_force)
    acknowledged :
        (p.auto_acknowledge_faults ≡ true) ⊎ In acknowledges n.called
        → Permits n command_acknowledge ack_payload
    homed : (p.auto_home ≡ true) ⊎ In homes n.called → Permits n command_home (0x00 ∷ [])
    tared : In tares n.called → Permits n command_tare []
    stopped : In stops n.called → Permits n command_stop []
    goal_stopped :
        (generation : ℕ) (goal : Goal F)
        → In (generation, goal) n.threads
        → Permits n command_stop []
    accelerated :
        (generation : ℕ) (goal : Goal F)
        → In (generation, goal) n.threads
        → InLimits F (view goal)
        → Permits n command_set_acceleration (acceleration_payload F (view goal).acceleration)
    forced :
        (generation : ℕ) (goal : Goal F)
        → In (generation, goal) n.threads
        → InLimits F (view goal)
        → Permits n command_set_force (force_payload F (view goal).force)
    moved :
        (generation : ℕ) (goal : Goal F)
        → In (generation, goal) n.threads
        → InLimits F (view goal)
        → Permits n (motion_command F (view goal).mode) (
            motion_payload F
              (view goal).mode
              (view goal).width
              (view goal).speed
              (view goal).stop_on_block)

  -- What was permitted stays so, while the goals and the calls stay.
  module _ (n m : Node F) (threads : (x : ℕ × Goal F) → In x n.threads → In x m.threads)
      (called : (s : Service) → In s n.called → In s m.called) where
    asked : {A : Type 0} (s : Service) → A ⊎ In s n.called → A ⊎ In s m.called
    asked s (inl a) = inl a
    asked s (inr c) = inr (called s c)

    pub Permits-grows : (id : ℕ) (payload : Bytes) → Permits n id payload → Permits m id payload
    Permits-grows id payload (streams k h) = streams k h
    Permits-grows id payload configures_acceleration = configures_acceleration
    Permits-grows id payload configures_force = configures_force
    Permits-grows id payload (acknowledged why) = acknowledged (asked acknowledges why)
    Permits-grows id payload (homed why) = homed (asked homes why)
    Permits-grows id payload (tared c) = tared (called tares c)
    Permits-grows id payload (stopped c) = stopped (called stops c)
    Permits-grows id payload (goal_stopped g goal i) = goal_stopped g goal (threads (g, goal) i)
    Permits-grows id payload (accelerated g goal i l) = accelerated g goal (threads (g, goal) i) l
    Permits-grows id payload (forced g goal i l) = forced g goal (threads (g, goal) i) l
    Permits-grows id payload (moved g goal i l) = moved g goal (threads (g, goal) i) l

  abbrev pub NodeCarries : Node F → Transport → Type 0
  NodeCarries n = Carries (Permits n) (make_options F p)

  -- A permitted command.
  given :
      (n : Node F) (id : ℕ) (payload : Bytes) (timeout : ℕ) (priority : Bool) (t : Transport)
      → Permits n id payload
      → NodeCarries n t
      → NodeCarries n (command id payload true timeout priority t).1
  given n id payload timeout priority t h c =
      command-Carries (Permits n) (make_options F p) id payload true timeout priority t h c

  pub perform-Carries :
      {Result : Type 0} (n : Node F) (generation : ℕ) (goal : Goal F) (e : Event F.Double Result)
      (t : Transport)
      → In (generation, goal) n.threads
      → InLimits F (view goal)
      → Orders F Result (view goal) e
      → NodeCarries n t
      → NodeCarries n (perform F p e t).1
  unfolding perform set_acceleration set_force start_motion stop_motion
  perform-Carries n g goal (acceleration_set a) t i l o c =
      given n _ _ _ false t
        (subst (λ (x : F.Double). Permits n command_set_acceleration (acceleration_payload F x))
          (sym o) (accelerated g goal i l))
        c
  perform-Carries n g goal (force_set f) t i l o c =
      given n _ _ _ false t
        (subst (λ (x : F.Double). Permits n command_set_force (force_payload F x)) (sym o)
          (forced g goal i l))
        c
  perform-Carries n g goal (motion_started mode width speed stop_on_block) t i l (e, e', e'', e''')
        c =
      given n _ _ _ false t (rw (e, e', e'', e''') (moved g goal i l)) c
  perform-Carries n g goal stop_sent t i l o c = given n _ _ _ true t (goal_stopped g goal i) c
  perform-Carries n g goal (feedback state reached) t i l o c = c
  perform-Carries n g goal (canceled r) t i l o c = c
  perform-Carries n g goal (aborted r) t i l o c = c
  perform-Carries n g goal (succeeded r) t i l o c = c
  perform-Carries n g goal finished t i l o c = c

  pub service_command-Carries :
      (n : Node F) (s : Service) (t : Transport)
      → In s n.called
      → NodeCarries n t
      → NodeCarries n (service_command F p s t).1
  unfolding service_command home stop_motion acknowledge tare
  service_command-Carries n homes t i c =
      if_both (λ (x : ℕ × Transport). NodeCarries n x.1) t.connected _ _
        (λ _. given n _ _ _ false t (homed (inr i)) c) (λ _. c)
  service_command-Carries n stops t i c = given n _ _ _ true t (stopped i) c
  service_command-Carries n acknowledges t i c = given n _ _ _ false t (acknowledged (inr i)) c
  service_command-Carries n tares t i c = given n _ _ _ false t (tared i) c

  -- The initialization thread acknowledges and homes only where the parameters ask for it.
  abbrev Wanted : Step → Type 0
  Wanted acceleration = Unit {0}
  Wanted force = Unit {0}
  Wanted acknowledgement = p.auto_acknowledge_faults ≡ true
  Wanted homing = p.auto_home ≡ true

  abbrev AllWanted : List Step → Type 0
  AllWanted [] = Unit {0}
  AllWanted (s ∷ steps) = Wanted s × AllWanted steps

  In-Wanted : (s : Step) (steps : List Step) → AllWanted steps → In s steps → Wanted s
  In-Wanted s [] a i = absurd i
  In-Wanted s (x ∷ steps) (w, a) (inl e) = subst Wanted (sym e) w
  In-Wanted s (x ∷ steps) (w, a) (inr i) = In-Wanted s steps a i

  initialize-AllWanted : (r : Replies) → AllWanted (initialize F p r).0
  unfolding initialize
  initialize-AllWanted r =
      if_both Sends (not (success r.acceleration_reply)) _ _ (λ _. (tt, tt))
        (λ _.
          if_both Sends (not (success r.force_reply)) _ _ (λ _. (tt, pair tt tt))
            (λ _.
              if_both Sends p.auto_acknowledge_faults _ _
                (λ ack.
                  if_both Sends (not (success r.acknowledge_reply)) _ _
                    (λ _. (tt, pair tt (pair ack tt)))
                    (λ _.
                      if_both Sends p.auto_home _ _ (λ on. (tt, pair tt (pair ack (pair on tt))))
                        (λ _. (tt, pair tt (pair ack tt)))))
                (λ _.
                  if_both Sends p.auto_home _ _ (λ on. (tt, pair tt (pair on tt)))
                    (λ _. (tt, pair tt tt)))))
    where
      Sends : List Step × CommandReply → Type 0
      Sends x = AllWanted x.0

      pair : {A B : Type 0} → A → B → A × B
      pair a b = (a, b)

  pub setup_command-Carries :
      (n : Node F) (r : Replies) (s : Step) (t : Transport)
      → In s (initialize F p r).0
      → NodeCarries n t
      → NodeCarries n (setup_command F p s t).1
  unfolding setup_command set_acceleration set_force acknowledge home
  setup_command-Carries n r s t i c =
      by_step s (In-Wanted s (initialize F p r).0 (initialize-AllWanted r) i)
    where
      by_step : (s : Step) → Wanted s → NodeCarries n (setup_command F p s t).1
      by_step acceleration w = given n _ _ _ false t configures_acceleration c
      by_step force w = given n _ _ _ false t configures_force c
      by_step acknowledgement w = given n _ _ _ false t (acknowledged (inl w)) c
      by_step homing w = given n _ _ _ false t (homed (inl w)) c
