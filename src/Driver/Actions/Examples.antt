-- ===== src/Driver/Actions/Examples.antt =====
-- Runs of the threads of two goals of wsg50_driver/src/main.cpp.
use wsg50_ros2_humble.Base.{ℕ, ◌≡◌, ◌+◌, ◌<◌, ◌^◌, refl, false, none, [], ◌∷◌, arith}
use wsg50_ros2_humble.Driver.Actions.{
  Pc, idle, home_lock, call_home, Node, Move, activate, lock, go, end_goal, is_latest, is_older,
  clear, unlock, accept, moves, first, Reach, begin, later,
}
use wsg50_ros2_humble.Driver.Actions.Exclusion.{inside}
use wsg50_ros2_humble.Driver.Actions.Order.{Reach-home_alone, Reach-exclusive, Falls, Reach-Falls}
use wsg50_ros2_humble.Driver.Actions.Progress.{live, Moves, Reach-completes}

record Run : Type 0 where
  last : Node
  reach : Reach last

abbrev then_moves : (r : Run) {m : Node} → Move r.last m → Run
then_moves r mv = record { last = _; reach = later r.reach (moves mv) }

abbrev accepts :
    (r : Run) → r.last.callback ≡ none → r.last.home ≡ idle → r.last.latest + 1 < 2 ^ 64 → Run
accepts r free unasked small = record {
  last = _;
  reach = later r.reach (accept free unasked small);
}

-- One goal, from its acceptance to the move.
abbrev one_moves : Run
one_moves =
    let a = accepts (record { last = first; reach = begin }) refl refl (omega arith) in
    let b = then_moves a (activate 1 refl) in
    let c = then_moves b (lock 1 refl refl refl) in then_moves c (go 1 refl refl refl)

-- A second goal is accepted meanwhile.
abbrev two_goals : Run
two_goals = let a = accepts one_moves refl refl (omega arith) in then_moves a (activate 2 refl)

-- The first ends, and the second moves.
abbrev second_moves : Run
second_moves =
    let a = then_moves two_goals (end_goal 1 refl) in
    let b = then_moves a (is_older 1 refl (omega arith)) in
    let c = then_moves b (unlock 1 refl) in
    let d = then_moves c (lock 2 refl refl refl) in then_moves d (go 2 refl refl refl)

abbrev second_ends : Run
second_ends =
    let a = then_moves second_moves (end_goal 2 refl) in
    let b = then_moves a (is_latest 2 refl refl) in
    let c = then_moves b (clear 2 refl) in then_moves c (unlock 2 refl)

both_started : second_ends.last.started ≡ 2 ∷ 1 ∷ []
both_started = refl

-- A goal that is accepted between the test and the store of finish_motion is waiting or moving
-- while motion_active_ is false.
abbrev overwritten : Run
overwritten =
    let a = then_moves one_moves (end_goal 1 refl) in
    let b = then_moves a (is_latest 1 refl refl) in
    let c = accepts b refl refl (omega arith) in
    let d = then_moves c (activate 2 refl) in then_moves d (clear 1 refl)

overwritten_active : (overwritten.last.active ≡ false) × (overwritten.last.pc 2 ≡ Pc.waiting)
overwritten_active = (refl, refl)

Reach-exclusive_example : ◌≡◌ {A = ℕ} 2 2
Reach-exclusive_example = Reach-exclusive 2 2 second_moves.reach refl refl

Reach-Falls_example : Falls 3 (2 ∷ 1 ∷ [])
Reach-Falls_example = Reach-Falls second_ends.reach

Reach-completes_example :
    (m : Node) × Moves two_goals.last m × ((g : ℕ) → live (m.pc g) ≡ false) × (m.home ≡ idle)
Reach-completes_example = Reach-completes two_goals.reach

-- home_service is called behind the goals, and takes the lock.
abbrev homing_run : Run
homing_run =
    let a : Run = record { last = _; reach = later second_ends.reach (call_home refl refl) } in
    then_moves a (home_lock refl refl)

Reach-home_alone_example : inside (homing_run.last.pc 2) ≡ false
Reach-home_alone_example = Reach-home_alone 2 homing_run.reach refl
