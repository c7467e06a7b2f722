-- ===== src/Driver/Execution/Orders.antt =====
-- The commands that execute_standard and execute_advanced of wsg50_driver/src/main.cpp send for a
-- goal are those of the goal.
use wsg50_ros2_humble.Base.{
  ℕ, ◌≡◌, refl, Bool, true, false, not, ◌&&◌, ◌||◌, List, [], ◌∷◌, ◌++◌, ◌==◌, if_both,
  if◌then◌else◌, Outcome, returns, ◌>>=◌, Yields, Yields-bind, Yields-any,
}
use wsg50_ros2_humble.Device.{DeviceState, success}
use wsg50_ros2_humble.Driver.{Doubles, Parameters}
use wsg50_ros2_humble.Driver.Goals.{
  StandardGoal, AdvancedGoal, as_advanced, is_grasp, standard_force,
}
use wsg50_ros2_humble.Driver.Motion.{wait_for_settled_state}
use wsg50_ros2_humble.Driver.Execution.{
  Surroundings, Watch, Event, acceleration_set, force_set, motion_started, feedback, stop_sent,
  canceled, aborted, succeeded, finished, watch_loop, motion_is_ok,
}
use wsg50_ros2_humble.Driver.Execution.Once.{is_ending}
use wsg50_ros2_humble.Driver.Execution.Endings.{conclude-ends, conclude_standard-ends}
use wsg50_ros2_humble.Driver.Execution.Standard.{
  StandardResult, standard_result, move_standard, execute_standard,
}
use wsg50_ros2_humble.Driver.Execution.Advanced.{
  AdvancedResult, advanced_grasp, advanced_result, move_advanced, execute_advanced,
}

module _ (F : Doubles) (Result : Type 0) (goal : AdvancedGoal F) where
  -- The event is no command, or one with the values of the goal.
  abbrev pub Orders : Event F.Double Result → Type 0
  Orders (acceleration_set a) = a ≡ goal.acceleration
  Orders (force_set f) = f ≡ goal.force
  Orders (motion_started mode width speed stop_on_block) =
      (mode ≡ goal.mode)
      × (width ≡ goal.width)
      × (speed ≡ goal.speed)
      × (stop_on_block ≡ goal.stop_on_block)
  Orders e = Unit {0}

  abbrev pub AllOrders : List (Event F.Double Result) → Type 0
  AllOrders [] = Unit {0}
  AllOrders (e ∷ es) = Orders e × AllOrders es

  AllOrders-append :
      (es fs : List (Event F.Double Result)) → AllOrders es → AllOrders fs → AllOrders (es ++ fs)
  AllOrders-append [] fs a b = b
  AllOrders-append (e ∷ es) fs (o, a) b = (o, AllOrders-append es fs a b)

  watch_loop-AllOrders :
      (p : Parameters F) (target : F.Double) (grasp : Bool) (generation : ℕ) (ws : List Watch)
      (stopped : Bool)
      → AllOrders (watch_loop F Result p target grasp generation ws stopped)
  unfolding watch_loop
  watch_loop-AllOrders p target grasp generation [] stopped = tt
  watch_loop-AllOrders p target grasp generation (w ∷ ws) stopped =
      let stop = not stopped && (w.canceling || not (generation == w.latest)) in
      let rest = watch_loop-AllOrders p target grasp generation ws (stopped || stop) in
      (tt, if_both AllOrders stop _ _ (λ _. (tt, rest)) (λ _. rest))

  ending-Orders : (e : Event F.Double Result) → is_ending e ≡ true → Orders e
  ending-Orders (canceled r) h = tt
  ending-Orders (aborted r) h = tt
  ending-Orders (succeeded r) h = tt
  ending-Orders (acceleration_set a) h = cc
  ending-Orders (force_set f) h = cc
  ending-Orders (motion_started mode width speed stop_on_block) h = cc
  ending-Orders (feedback state reached) h = cc
  ending-Orders stop_sent h = cc
  ending-Orders finished h = cc

  -- What is sent between start_motion and the end of the goal.
  watched-AllOrders :
      (p : Parameters F) (target : F.Double) (grasp : Bool) (generation : ℕ) (ws : List Watch)
      (e : Event F.Double Result)
      → Orders e
      → AllOrders (watch_loop F Result p target grasp generation ws false ++ e ∷ finished ∷ [])
  watched-AllOrders p target grasp generation ws e o =
      AllOrders-append (watch_loop F Result p target grasp generation ws false) _
        (watch_loop-AllOrders p target grasp generation ws false) (o, (tt, tt))

  -- The way from the first test to the motion.
  guarded-AllOrders :
      (stale canceling slow weak : Bool) (x y r r' : Result) (a f : F.Double)
      (moves : Outcome (List (Event F.Double Result)))
      → a ≡ goal.acceleration
      → f ≡ goal.force
      → Yields AllOrders moves
      → Yields AllOrders (
          if stale
          then returns ((if canceling then canceled x else aborted y) ∷ finished ∷ [])
          else if slow
          then returns (acceleration_set a ∷ aborted r ∷ finished ∷ [])
          else if weak
          then returns (acceleration_set a ∷ force_set f ∷ aborted r' ∷ finished ∷ [])
          else (moves >>= λ es. returns (acceleration_set a ∷ force_set f ∷ es)))
  guarded-AllOrders true true slow weak x y r r' a f moves e e' h = (tt, (tt, tt))
  guarded-AllOrders true false slow weak x y r r' a f moves e e' h = (tt, (tt, tt))
  guarded-AllOrders false canceling true weak x y r r' a f moves e e' h = (e, (tt, (tt, tt)))
  guarded-AllOrders false canceling false true x y r r' a f moves e e' h = (e, (e', (tt, (tt, tt))))
  guarded-AllOrders false canceling false false x y r r' a f moves e e' h =
      Yields-bind AllOrders AllOrders moves _ h
        (λ es o. let forced : AllOrders (force_set f ∷ es) = (e', o) in (e, forced))

module _ (F : Doubles) (p : Parameters F) (generation : ℕ) (s : Surroundings) where
  move_advanced-AllOrders :
      (goal : AdvancedGoal F)
      → Yields (AllOrders F (AdvancedResult F) goal) (move_advanced F p goal generation s)
  unfolding move_advanced
  move_advanced-AllOrders goal =
      Yields-bind (λ (state : DeviceState). Unit {0}) (AllOrders F (AdvancedResult F) goal)
        (wait_for_settled_state F p goal.width (advanced_grasp F goal)
          (motion_is_ok (advanced_grasp F goal) s.motion_reply) s.settle_start s.settle_readings
          s.settle_state)
        _ (Yields-any _)
        (λ state _. (
          (refl, refl, refl, refl),
          watched-AllOrders F (AdvancedResult F) goal p goal.width (advanced_grasp F goal)
              generation s.watches _
              (ending-Orders F (AdvancedResult F) goal _ (
                conclude-ends F goal generation s (advanced_result F p goal s.motion_reply state))),
        ))

  -- execute_advanced sends the commands of its goal only.
  pub execute_advanced-AllOrders :
      (goal : AdvancedGoal F)
      → Yields (AllOrders F (AdvancedResult F) goal) (execute_advanced F p goal generation s)
  unfolding execute_advanced
  execute_advanced-AllOrders goal =
      guarded-AllOrders F (AdvancedResult F) goal
        (not (generation == s.latest_before) || s.shutting_down) s.canceling_before
        (not (success s.acceleration_reply)) (not (success s.force_reply)) _ _ _ _ goal.acceleration
        goal.force (move_advanced F p goal generation s) refl refl (move_advanced-AllOrders goal)

  move_standard-AllOrders :
      (goal : StandardGoal F)
      → Yields
          (AllOrders F (StandardResult F) (as_advanced F p goal))
          (move_standard F p goal generation s)
  unfolding move_standard
  move_standard-AllOrders goal =
      Yields-bind (λ (state : DeviceState). Unit {0})
        (AllOrders F (StandardResult F) (as_advanced F p goal))
        (wait_for_settled_state F p goal.position (is_grasp F goal)
          (motion_is_ok (is_grasp F goal) s.motion_reply) s.settle_start s.settle_readings
          s.settle_state)
        _ (Yields-any _)
        (λ state _. (
          (refl, refl, refl, refl),
          watched-AllOrders F (StandardResult F) (as_advanced F p goal) p goal.position
              (is_grasp F goal) generation s.watches _
              (ending-Orders F (StandardResult F) (as_advanced F p goal) _ (
                conclude_standard-ends F goal generation s
                  (standard_result F p goal s.motion_reply state))),
        ))

  -- execute_standard sends the commands of the goal in its advanced form.
  pub execute_standard-AllOrders :
      (goal : StandardGoal F)
      → Yields
          (AllOrders F (StandardResult F) (as_advanced F p goal))
          (execute_standard F p goal generation s)
  unfolding execute_standard
  execute_standard-AllOrders goal =
      guarded-AllOrders F (StandardResult F) (as_advanced F p goal)
        (not (generation == s.latest_before) || s.shutting_down) s.canceling_before
        (not (success s.acceleration_reply)) (not (success s.force_reply)) _ _ _ _
        p.default_acceleration (standard_force F p goal) (move_standard F p goal generation s) refl
        refl (move_standard-AllOrders goal)
