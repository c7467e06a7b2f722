-- ===== src/Driver/Actions/Rank.antt =====
-- How many moves the threads of the goals of wsg50_driver/src/main.cpp have before them.
use wsg50_ros2_humble.Base.{ℕ, zero, suc, ◌+◌, ◌≤◌, ◌<◌, ◌≡◌, ◌≢◌, refl, ap, arith, ==_iff}
use wsg50_ros2_humble.Driver.Actions.{
  Pc, absent, accepted, waiting, entered, moving, ending, clearing, leaving, ended, Node, update,
  Move, activate, lock, go, give_up, shut, end_goal, is_latest, is_older, clear, unlock, home_lock,
  home_returns, Home, idle, asking, homing,
}
use wsg50_ros2_humble.Driver.Actions.Exclusion.{Inv}

-- How many moves a thread has before it at most.
abbrev pub rank : Pc → ℕ
rank absent = 0
rank accepted = 8
rank waiting = 7
rank entered = 6
rank moving = 5
rank ending = 4
rank clearing = 3
rank leaving = 2
rank ended = 0

abbrev pub total : (ℕ → Pc) → ℕ → ℕ
total pc zero = 0
total pc (suc n) = rank (pc n) + total pc n

total-above : (pc : ℕ → Pc) (g n : ℕ) (p : Pc) → n ≤ g → total (update pc g p) n ≡ total pc n
total-above pc g zero p h = refl
total-above pc g (suc n) p h = ground (arith, total-above pc g n p (omega arith))

total-update :
    (pc : ℕ → Pc) (g n : ℕ) (p : Pc)
    → g < n
    → total (update pc g p) n + rank (pc g) ≡ total pc n + rank p
total-update pc g zero p h = elim h [ ]
total-update pc g (suc n) p h =
    ground (arith, total-update pc g n p, total-above pc g n p, ==_iff n g)

-- A thread that is not absent is one of an accepted goal.
known : (n : Node) (g : ℕ) → Inv n → n.pc g ≢ absent → g < suc n.latest
known n g v here = ground (arith, v.beyond g)

lower :
    (n : Node) (g : ℕ) (p : Pc)
    → Inv n
    → rank p < rank (n.pc g)
    → total (update n.pc g p) (suc n.latest) < total n.pc (suc n.latest)
lower n g p v less = omega (
  arith,
  total-update n.pc g (suc n.latest) p (known n g v (λ e. omega (arith, ap rank e, less))),
  less,
)

-- The same for home_service.
abbrev pub home_rank : Home → ℕ
home_rank idle = 0
home_rank asking = 2
home_rank homing = 1

-- How many moves are left at most.
abbrev pub moves_left : Node → ℕ
moves_left n = home_rank n.home + total n.pc (suc n.latest)

pub Move-lower : {n m : Node} → Move n m → Inv n → moves_left m < moves_left n
Move-lower {n} (activate g e) v =
    let (_, here) = v.calling g e in omega (arith, lower n g waiting v (rw here (omega arith)))
Move-lower {n} (lock g e free unhomed) v = omega (arith, lower n g entered v (rw e (omega arith)))
Move-lower {n} (go g e same up) v = omega (arith, lower n g moving v (rw e (omega arith)))
Move-lower {n} (give_up g e other) v = omega (arith, lower n g ending v (rw e (omega arith)))
Move-lower {n} (shut g e down) v = omega (arith, lower n g ending v (rw e (omega arith)))
Move-lower {n} (end_goal g e) v = omega (arith, lower n g ending v (rw e (omega arith)))
Move-lower {n} (is_latest g e same) v = omega (arith, lower n g clearing v (rw e (omega arith)))
Move-lower {n} (is_older g e other) v = omega (arith, lower n g leaving v (rw e (omega arith)))
Move-lower {n} (clear g e) v = omega (arith, lower n g leaving v (rw e (omega arith)))
Move-lower {n} (unlock g e) v = omega (arith, lower n g ended v (rw e (omega arith)))
Move-lower {n} (home_lock e free) v = rw e (omega arith)
Move-lower {n} (home_returns e) v = rw e (omega arith)
