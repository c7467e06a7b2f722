-- ===== src/Driver/Actions/Order.antt =====
-- In which order the goals of wsg50_driver/src/main.cpp move the gripper, and what motion_active_ says.
use wsg50_ros2_humble.Base.{
  ℕ, suc, ◌≤◌, ◌<◌, ◌≡◌, refl, sym, subst, Bool, true, false, List, [], ◌∷◌, none, arith, ==_iff,
}
use wsg50_ros2_humble.Driver.Actions.{
  Pc, absent, accepted, waiting, entered, ending, clearing, leaving, ended, Node, update, Move,
  activate, lock, go, give_up, shut, end_goal, is_latest, is_older, clear, unlock, home_lock,
  home_returns, is_homing, Step, accept, call_home, shut_down, moves, Reach, begin, later,
}
use wsg50_ros2_humble.Driver.Actions.Exclusion.{inside, past, Inv, Reach-Inv}

-- However the threads of the goals and the callbacks that accept goals interleave, at most one
-- thread is between the lock of motion_execution_mutex_ and its unlock.
pub Reach-exclusive :
    {n : Node} (i j : ℕ) → Reach n → inside (n.pc i) ≡ true → inside (n.pc j) ≡ true → i ≡ j
Reach-exclusive i j r hi hj = let v = Reach-Inv r in ground (arith, v.held i, v.held j)

-- However the threads of the goals, the callbacks that accept goals and home_service
-- interleave, no thread of a goal is between the lock of motion_execution_mutex_ and its
-- unlock while home_service has the lock.
pub Reach-home_alone :
    {n : Node} (g : ℕ) → Reach n → is_homing n.home ≡ true → inside (n.pc g) ≡ false
Reach-home_alone g r h = let v = Reach-Inv r in ground (arith, v.held g, v.alone)

-- Between two acceptances of goals, once the thread of the latest goal is behind its finish_motion,
-- motion_active_ is false.
Reach-inactive :
    {n : Node} → Reach n → n.callback ≡ none → past (n.pc n.latest) ≡ true → n.active ≡ false
Reach-inactive r = (Reach-Inv r).quiet

-- Each number is below those before it, and all are below the bound.
abbrev pub Falls : ℕ → List ℕ → Type 0
Falls top [] = Unit {0}
Falls top (g ∷ gs) = (g < top) × Falls g gs

Falls-mono : (a b : ℕ) (gs : List ℕ) → a ≤ b → Falls a gs → Falls b gs
Falls-mono a b [] h f = tt
Falls-mono a b (g ∷ gs) h (lt, rest) = (omega arith, rest)

-- Not yet behind the test of the generation.
abbrev unstarted : Pc → Bool
unstarted absent = true
unstarted accepted = true
unstarted waiting = true
unstarted entered = true
unstarted p = false

record Ordered (n : Node) : Type 0 where
  order : Falls (suc n.latest) n.started
  fresh : unstarted (n.pc n.latest) ≡ true → Falls n.latest n.started

-- A move that starts no goal.
move-Ordered :
    (n : Node) (g : ℕ) (p : Pc)
    → (unstarted p ≡ true → unstarted (n.pc g) ≡ true)
    → Ordered n
    → (unstarted (update n.pc g p n.latest) ≡ true)
    → Falls n.latest n.started
move-Ordered n g p back o h = o.fresh (ground arith)

Move-Ordered : {n m : Node} → Move n m → Inv n → Ordered n → Ordered m
Move-Ordered {n} (activate g e) v o =
    let (_, here) = v.calling g e in
    record { order = o.order; fresh = move-Ordered n g waiting (λ _. rw here refl) o }
Move-Ordered {n} (lock g e free unhomed) v o = record {
  order = o.order;
  fresh = move-Ordered n g entered (λ _. rw e refl) o;
}
Move-Ordered {n} (go g e same up) v o =
    let below = o.fresh (rw (sym same, e) refl) in
    record {
      order = (omega arith, subst (λ x. Falls x n.started) (sym same) below);
      fresh = λ h. ground (arith, ==_iff n.latest g);
    }
Move-Ordered {n} (give_up g e other) v o = record {
  order = o.order;
  fresh = move-Ordered n g ending (λ h. cc) o;
}
Move-Ordered {n} (shut g e down) v o = record {
  order = o.order;
  fresh = move-Ordered n g ending (λ h. cc) o;
}
Move-Ordered {n} (end_goal g e) v o = record {
  order = o.order;
  fresh = move-Ordered n g ending (λ h. cc) o;
}
Move-Ordered {n} (is_latest g e same) v o = record {
  order = o.order;
  fresh = move-Ordered n g clearing (λ h. cc) o;
}
Move-Ordered {n} (is_older g e other) v o = record {
  order = o.order;
  fresh = move-Ordered n g leaving (λ h. cc) o;
}
Move-Ordered {n} (clear g e) v o = record {
  order = o.order;
  fresh = move-Ordered n g leaving (λ h. cc) o;
}
Move-Ordered {n} (unlock g e) v o = record {
  order = o.order;
  fresh = move-Ordered n g ended (λ h. cc) o;
}
Move-Ordered (home_lock e free) v o = record { order = o.order; fresh = o.fresh }
Move-Ordered (home_returns e) v o = record { order = o.order; fresh = o.fresh }

Step-Ordered : {n m : Node} → Step n m → Inv n → Ordered n → Ordered m
Step-Ordered {n} (accept free unasked small) v o = record {
  order = Falls-mono (suc n.latest) (suc (suc n.latest)) n.started (omega arith) o.order;
  fresh = λ h. o.order;
}
Step-Ordered (call_home free unasked) v o = record { order = o.order; fresh = o.fresh }
Step-Ordered shut_down v o = record { order = o.order; fresh = o.fresh }
Step-Ordered (moves mv) v o = Move-Ordered mv v o

Reach-Ordered : {n : Node} → Reach n → Ordered n
Reach-Ordered begin = record { order = tt; fresh = λ h. tt }
Reach-Ordered (later r st) = Step-Ordered st (Reach-Inv r) (Reach-Ordered r)

-- Goals move the gripper in the order in which they were accepted, and each of them once at
-- most: in each reachable state the generations of the goals that have started to move rise
-- strictly, up to the generation of the latest goal.
pub Reach-Falls : {n : Node} → Reach n → Falls (suc n.latest) n.started
Reach-Falls r = (Reach-Ordered r).order
