-- ===== src/Driver/Node/Sends.antt =====
-- The node of wsg50_driver/src/main.cpp sends what it has been asked for, and nothing on its own.
use wsg50_ros2_humble.Base.{
  In, ℕ, ◌≡◌, inl, inr, refl, sym, subst, Bool, true, List, [], ◌∷◌, some, arith, Yields-at,
}
use wsg50_ros2_humble.Transport.{Transport, init}
use wsg50_ros2_humble.Transport.Requests.{start}
use wsg50_ros2_humble.Transport.Worker.{run_exit, Worker}
use wsg50_ros2_humble.Transport.Invariant.Carries.Weaker.{Carries-mono}
use wsg50_ros2_humble.Transport.Invariant.Carries.{
  Written, init-Carries, start-Carries, stop-Carries, disconnect-Carries,
}
use wsg50_ros2_humble.Transport.Invariant.Carries.Rounds.{run_round-Carries}
use wsg50_ros2_humble.Driver.{Doubles, Parameters}
use wsg50_ros2_humble.Driver.Goals.{
  AdvancedGoal, as_advanced, goal_is_valid, handle_advanced_goal, handle_standard-handle_advanced,
  Initialization,
}
use wsg50_ros2_humble.Device.{DeviceState}
use wsg50_ros2_humble.Driver.Execution.{Event}
use wsg50_ros2_humble.Driver.Execution.Orders.{
  Orders, AllOrders, execute_standard-AllOrders, execute_advanced-AllOrders,
}
use wsg50_ros2_humble.Driver.Execution.Standard.{StandardResult}
use wsg50_ros2_humble.Driver.Execution.Advanced.{AdvancedResult}
use wsg50_ros2_humble.Driver.Setup.{make_options, construct}
use wsg50_ros2_humble.Driver.Node.{
  Service, Goal, standard, advanced, Node, Timer, state_timer, diagnostics_timer, connection_timer,
  handle_goal, handle_accepted, run_timer, constructed, NodeStep, works, requests, cancels, serves,
  ticks, initializes, completes, executes_standard, executes_advanced, halts, ends, Reach, begins,
  goes_on,
}
use wsg50_ros2_humble.Driver.Node.Permits.{
  InLimits, view, Permits, streams, Permits-grows, NodeCarries, perform-Carries,
  service_command-Carries, setup_command-Carries,
}

module _ (F : Doubles) (p : Parameters F) where
  handle_advanced-InLimits :
      (i : Initialization) (state : DeviceState) (goal : AdvancedGoal F)
      → handle_advanced_goal F i state goal ≡ true
      → InLimits F goal
  unfolding handle_advanced_goal goal_is_valid
  handle_advanced-InLimits i state goal h = record {
    mode = ground arith;
    width = ground arith;
    speed = ground arith;
    acceleration = ground arith;
    force = ground arith;
  }

  -- An accepted goal is in the limits.
  handle_goal-InLimits :
      (n : Node F) (goal : Goal F) → handle_goal F p n goal ≡ true → InLimits F (view F p goal)
  handle_goal-InLimits n (standard goal) h =
      handle_advanced-InLimits _ _ (as_advanced F p goal)
        (handle_standard-handle_advanced F p n.setup.done n.worker.transport.state goal h)
  handle_goal-InLimits n (advanced goal) h = handle_advanced-InLimits _ _ goal h

  record NodeInv (n : Node F) : Type 0 where
    carries : NodeCarries F p n n.worker.transport
    limits : (g : ℕ) (goal : Goal F) → In (g, goal) n.threads → InLimits F (view F p goal)

  -- What the step leaves of the goals and the calls is enough for what has been sent.
  grown :
      (n m : Node F)
      → ((x : ℕ × Goal F) → In x n.threads → In x m.threads)
      → ((s : Service) → In s n.called → In s m.called)
      → (t : Transport) → NodeCarries F p n t
      → NodeCarries F p m t
  grown n m threads called t c =
      Carries-mono (Permits F p n) (Permits F p m) (Permits-grows F p n m threads called) c

  same :
      (n m : Node F)
      → n.threads ≡ m.threads
      → n.called ≡ m.called
      → (t : Transport) → NodeCarries F p n t
      → NodeCarries F p m t
  same n m e e' = grown n m (λ x. subst (In x) e) (λ s. subst (In s) e')

  In-Orders :
      {Result : Type 0} (goal : AdvancedGoal F) (e : Event F.Double Result)
      (es : List (Event F.Double Result))
      → AllOrders F Result goal es
      → In e es
      → Orders F Result goal e
  In-Orders goal e [] a i = absurd i
  In-Orders {Result} goal e (x ∷ es) (o, a) (inl same_event) =
      subst (Orders F Result goal) (sym same_event) o
  In-Orders goal e (x ∷ es) (o, a) (inr i) = In-Orders goal e es a i

  timer-same : (timer : Timer) (n : Node F) → NodeInv n → NodeInv (run_timer F p timer n)
  unfolding run_timer
  timer-same state_timer n v = v
  timer-same diagnostics_timer n v = v
  timer-same connection_timer n v = record {
    carries = same n _ refl refl _ v.carries;
    limits = v.limits;
  }

  NodeStep-Inv : {n m : Node F} → NodeStep F p n m → NodeInv n → NodeInv m
  unfolding run_exit
  NodeStep-Inv {n} (works turn going_on w e) v = record {
    carries =
        same n (record n { worker = w }) refl refl w.transport
          (Yields-at (λ (x : Bool × Worker). NodeCarries F p n x.1.transport)
            (run_round-Carries (Permits F p n) (make_options F p) (streams) turn n.worker v.carries)
            e);
    limits = v.limits;
  }
  NodeStep-Inv {n} (requests name goal e h) v = record {
    carries =
        grown n (handle_accepted F p goal n) (λ x. inr) (λ s i. i) n.worker.transport v.carries;
    limits = λ g other i. elim i [
      | inl here ↦
          subst (λ (x : ℕ × Goal F). InLimits F (view F p x.1)) (sym here)
            (handle_goal-InLimits n goal h)
      | inr before ↦ v.limits g other before
    ];
  }
  NodeStep-Inv (cancels generation goal i e) v = v
  NodeStep-Inv {n} (serves name s e) v =
      let m = record n { called = s ∷ n.called } in
      record {
        carries = same m _ refl refl _ (
            service_command-Carries F p m s n.worker.transport (inl refl)
              (grown n m (λ x i. i) (λ x. inr) n.worker.transport v.carries));
        limits = v.limits;
      }
  NodeStep-Inv {n} (ticks period timer i) v = timer-same timer n v
  NodeStep-Inv {n} (initializes r s on i) v = record {
    carries = same n _ refl refl _ (setup_command-Carries F p n r s n.worker.transport i v.carries);
    limits = v.limits;
  }
  NodeStep-Inv {n} (completes generation r on) v = record {
    carries = same n _ refl refl _ v.carries;
    limits = v.limits;
  }
  NodeStep-Inv {n} (executes_standard generation goal s events e i returned there) v = record {
    carries = same n _ refl refl _ (
        perform-Carries F p n generation (standard goal) e n.worker.transport i
          (v.limits generation (standard goal) i)
          (In-Orders (as_advanced F p goal) e events
            (Yields-at (AllOrders F (StandardResult F) (as_advanced F p goal))
              (execute_standard-AllOrders F p generation s goal) returned)
            there)
          v.carries);
    limits = v.limits;
  }
  NodeStep-Inv {n} (executes_advanced generation goal s events e i returned there) v = record {
    carries = same n _ refl refl _ (
        perform-Carries F p n generation (advanced goal) e n.worker.transport i
          (v.limits generation (advanced goal) i)
          (In-Orders goal e events
            (Yields-at (AllOrders F (AdvancedResult F) goal)
              (execute_advanced-AllOrders F p generation s goal) returned)
            there)
          v.carries);
    limits = v.limits;
  }
  NodeStep-Inv {n} halts v = record {
    carries =
        same n _ refl refl _
          (stop-Carries (Permits F p n) (make_options F p) n.worker.transport v.carries);
    limits = v.limits;
  }
  NodeStep-Inv {n} (ends now) v = record {
    carries = same n _ refl refl _ (
        disconnect-Carries (Permits F p n) (make_options F p) now "transport stopped"
          n.worker.transport v.carries);
    limits = v.limits;
  }

  construct-Carries :
      (t : Transport) (now : ℕ) → construct F p ≡ some t → NodeCarries F p (constructed F p t now) t
  unfolding construct
  construct-Carries t now e =
      let started : t ≡ (start (init (make_options F p))).1 = ground arith in
      subst (NodeCarries F p (constructed F p t now)) (sym started)
        (start-Carries _ (make_options F p) _ (init-Carries _ (make_options F p)))

  Reach-Inv : {n : Node F} → Reach F p n → NodeInv n
  Reach-Inv (begins t now e) = record {
    carries = construct-Carries t now e;
    limits = λ g goal i. absurd i;
  }
  Reach-Inv (goes_on r st) = NodeStep-Inv st (Reach-Inv r)

  -- In each reachable state of the whole node, the bytes written to the connection are
  -- beginnings of frames of commands with a reason: a stream request, a setting of a
  -- parameter, an acknowledgement or homing that a parameter or service asks for, a called
  -- service, or an accepted goal within the limits.
  pub Reach-Written :
      {n : Node F} → Reach F p n → Written (Permits F p n) n.worker.transport.written
  Reach-Written r = (Reach-Inv r).carries.written
