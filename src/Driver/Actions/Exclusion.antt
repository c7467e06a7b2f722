-- ===== src/Driver/Actions/Exclusion.antt =====
-- What holds of the threads of the goals of wsg50_driver/src/main.cpp in every reachable state.
use wsg50_ros2_humble.Base.{ℕ, ◌<◌, ◌≡◌, refl, Bool, true, false, List, [], ◌∷◌, none, some, arith}
use wsg50_ros2_humble.Driver.Actions.{
  Pc, absent, accepted, entered, moving, ending, clearing, leaving, ended, Node, update, at, Move,
  activate, lock, go, give_up, shut, end_goal, is_latest, is_older, clear, unlock, home_lock,
  home_returns, is_homing, Step, accept, call_home, shut_down, moves, first, Reach, begin, later,
}

-- Between the lock and the unlock.
abbrev pub inside : Pc → Bool
inside entered = true
inside moving = true
inside ending = true
inside clearing = true
inside leaving = true
inside p = false

-- Behind the store to motion_active_ in finish_motion, or not there.
abbrev pub past : Pc → Bool
past absent = true
past leaving = true
past ended = true
past p = false

-- Each is above those behind it, and the first is below the bound.
abbrev pub Falls : ℕ → List ℕ → Type 0
Falls top [] = Unit {0}
Falls top (g ∷ gs) = (g < top) × Falls g gs

pub record Inv (n : Node) : Type 0 where
  pub beyond : (g : ℕ) → n.latest < g → n.pc g ≡ absent
  pub held : (g : ℕ) → inside (n.pc g) ≡ true → n.holder ≡ some g
  pub holds : (g : ℕ) → n.holder ≡ some g → inside (n.pc g) ≡ true
  pub calling : (g : ℕ) → n.callback ≡ some g → (g ≡ n.latest) × (n.pc g ≡ accepted)
  pub called : (g : ℕ) → n.pc g ≡ accepted → n.callback ≡ some g
  pub alone : is_homing n.home ≡ true → n.holder ≡ none
  pub quiet : n.callback ≡ none → past (n.pc n.latest) ≡ true → n.active ≡ false

first-Inv : Inv first
first-Inv = record {
  beyond = λ g h. refl;
  held = λ g h. cc;
  holds = λ g h. cc;
  calling = λ g h. cc;
  called = λ g h. cc;
  alone = λ h. cc;
  quiet = λ h k. refl;
}

-- A thread that moves between the lock and the unlock.
inside-Inv :
    (n : Node) (g : ℕ) (p : Pc) (active : Bool) (started : List ℕ)
    → inside (n.pc g) ≡ true
    → inside p ≡ true
    → (n.callback ≡ none → past (update n.pc g p n.latest) ≡ true → active ≡ false)
    → Inv n
    → Inv (record (at n g p) { active = active; started = started })
inside-Inv n g p active started here there quiet v = record {
  beyond = λ j h. ground (arith, v.beyond j, v.beyond g);
  held = λ j h. ground (arith, v.held j, v.held g);
  holds = λ j h. ground (arith, v.holds j);
  calling = λ j h. ground (arith, v.calling j);
  called = λ j h. ground (arith, v.called j);
  alone = v.alone;
  quiet = quiet;
}

Move-Inv : {n m : Node} → Move n m → Inv n → Inv m
Move-Inv {n} (activate g e) v = record {
  beyond = λ j h. ground (arith, v.beyond j, v.calling g);
  held = λ j h. ground (arith, v.held j, v.calling g);
  holds = λ j h. ground (arith, v.holds j, v.calling g);
  calling = λ j h. cc;
  called = λ j h. ground (arith, v.called j, v.calling g);
  alone = v.alone;
  quiet = λ h k. ground (arith, v.calling g);
}
Move-Inv {n} (lock g e free unhomed) v = record {
  beyond = λ j h. ground (arith, v.beyond j, v.beyond g);
  held = λ j h. ground (arith, v.held j);
  holds = λ j h. ground (arith, v.holds j);
  calling = λ j h. ground (arith, v.calling j);
  called = λ j h. ground (arith, v.called j);
  alone = λ h. cc;
  quiet = λ h k. ground (arith, v.quiet);
}
Move-Inv {n} (go g e same up) v =
    inside-Inv n g moving n.active (g ∷ n.started) (rw e refl) refl (λ h k. ground arith) v
Move-Inv {n} (give_up g e other) v =
    inside-Inv n g ending n.active n.started (rw e refl) refl (λ h k. ground (arith, v.quiet)) v
Move-Inv {n} (shut g e down) v =
    inside-Inv n g ending n.active n.started (rw e refl) refl (λ h k. ground (arith, v.quiet)) v
Move-Inv {n} (end_goal g e) v =
    inside-Inv n g ending n.active n.started (rw e refl) refl (λ h k. ground (arith, v.quiet)) v
Move-Inv {n} (is_latest g e same) v =
    inside-Inv n g clearing n.active n.started (rw e refl) refl (λ h k. ground arith) v
Move-Inv {n} (is_older g e other) v =
    inside-Inv n g leaving n.active n.started (rw e refl) refl (λ h k. ground (arith, v.quiet)) v
Move-Inv {n} (clear g e) v = inside-Inv n g leaving false n.started (rw e refl) refl (λ h k. refl) v
Move-Inv {n} (unlock g e) v = record {
  beyond = λ j h. ground (arith, v.beyond j, v.beyond g);
  held = λ j h. ground (arith, v.held j, v.held g);
  holds = λ j h. cc;
  calling = λ j h. ground (arith, v.calling j);
  called = λ j h. ground (arith, v.called j);
  alone = λ h. refl;
  quiet = λ h k. ground (arith, v.quiet);
}
Move-Inv {n} (home_lock e free) v = record {
  beyond = v.beyond;
  held = v.held;
  holds = v.holds;
  calling = v.calling;
  called = v.called;
  alone = λ h. free;
  quiet = v.quiet;
}
Move-Inv {n} (home_returns e) v = record {
  beyond = v.beyond;
  held = v.held;
  holds = v.holds;
  calling = v.calling;
  called = v.called;
  alone = λ h. cc;
  quiet = v.quiet;
}

Step-Inv : {n m : Node} → Step n m → Inv n → Inv m
Step-Inv {n} (accept free unasked small) v = record {
  beyond = λ j h. ground (arith, v.beyond j);
  held = λ j h. ground (arith, v.held j);
  holds = λ j h. ground (arith, v.holds j, v.beyond j);
  calling = λ j h. ground (arith, v.calling j);
  called = λ j h. ground (arith, v.called j);
  alone = v.alone;
  quiet = λ h k. cc;
}
Step-Inv (call_home free unasked) v = record {
  beyond = v.beyond;
  held = v.held;
  holds = v.holds;
  calling = v.calling;
  called = v.called;
  alone = λ h. cc;
  quiet = v.quiet;
}
Step-Inv shut_down v = record {
  beyond = v.beyond;
  held = v.held;
  holds = v.holds;
  calling = v.calling;
  called = v.called;
  alone = v.alone;
  quiet = v.quiet;
}
Step-Inv (moves mv) v = Move-Inv mv v

pub Reach-Inv : {n : Node} → Reach n → Inv n
Reach-Inv begin = first-Inv
Reach-Inv (later r st) = Step-Inv st (Reach-Inv r)
