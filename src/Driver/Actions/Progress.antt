-- ===== src/Driver/Actions/Progress.antt =====
-- The threads of the goals of wsg50_driver/src/main.cpp come to their ends.
use wsg50_ros2_humble.Base.{
  ℕ, zero, suc, ◌<◌, ◌≡◌, ◌≢◌, refl, Bool, true, false, ◌==◌, arith, ==_iff, Bool-cases,
  Option-cases, inl, inr, ◌⊎◌,
}
use wsg50_ros2_humble.Driver.Actions.{
  Pc, absent, accepted, waiting, entered, moving, ending, clearing, leaving, ended, Node, Move,
  activate, lock, go, give_up, shut, end_goal, is_latest, is_older, clear, unlock, home_lock,
  home_returns, Home, idle, asking, homing, is_homing, Reach, later, moves,
}
use wsg50_ros2_humble.Driver.Actions.Exclusion.{inside, Inv, Reach-Inv}
use wsg50_ros2_humble.Driver.Actions.Rank.{moves_left, Move-lower}

-- The goal was accepted, and its thread has not come to its end.
abbrev pub live : Pc → Bool
live absent = false
live ended = false
live p = true

same_or_other : (g h : ℕ) → (g ≡ h) ⊎ (g ≢ h)
same_or_other g h = elim (Bool-cases (g == h)) [
  | inl e ↦ inl ((==_iff g h).0 e)
  | inr e ↦ inr (λ k. ground (arith, ==_iff g h))
]

-- What the thread that holds the lock does next.
inside_moves : (n : Node) (g : ℕ) (p : Pc) → n.pc g ≡ p → inside p ≡ true → (m : Node) × Move n m
inside_moves n g entered e h = elim (same_or_other g n.latest) [
  | inl same ↦ elim (Bool-cases n.shutting_down) [
    | inl down ↦ (_, shut g e down)
    | inr up ↦ (_, go g e same up)
  ]
  | inr other ↦ (_, give_up g e other)
]
inside_moves n g moving e h = (_, end_goal g e)
inside_moves n g ending e h = elim (same_or_other g n.latest) [
  | inl same ↦ (_, is_latest g e same)
  | inr other ↦ (_, is_older g e other)
]
inside_moves n g clearing e h = (_, clear g e)
inside_moves n g leaving e h = (_, unlock g e)
inside_moves n g absent e h = cc
inside_moves n g accepted e h = cc
inside_moves n g waiting e h = cc
inside_moves n g ended e h = cc

is_homing_homing : (h : Home) → is_homing h ≡ true → h ≡ homing
is_homing_homing idle e = cc
is_homing_homing asking e = cc
is_homing_homing homing e = refl

-- Where a thread has not come to its end, some thread can move.
live_moves :
    (n : Node) (g : ℕ) (p : Pc) → Inv n → n.pc g ≡ p → live p ≡ true → (m : Node) × Move n m
live_moves n g waiting v e h = elim (Option-cases n.holder) [
  | inl free ↦ elim (Bool-cases (is_homing n.home)) [
    | inl busy ↦ (_, home_returns (is_homing_homing n.home busy))
    | inr unhomed ↦ (_, lock g e free unhomed)
  ]
  | inr (other, held) ↦ inside_moves n other (n.pc other) refl (v.holds other held)
]
live_moves n g accepted v e h = (_, activate g (v.called g e))
live_moves n g absent v e h = cc
live_moves n g ended v e h = cc
live_moves n g entered v e h = inside_moves n g entered e refl
live_moves n g moving v e h = inside_moves n g moving e refl
live_moves n g ending v e h = inside_moves n g ending e refl
live_moves n g clearing v e h = inside_moves n g clearing e refl
live_moves n g leaving v e h = inside_moves n g leaving e refl

-- Where home_service has not returned, it or the goal with the lock can move.
home_moves : (n : Node) (h : Home) → Inv n → n.home ≡ h → (h ≡ idle) ⊎ ((m : Node) × Move n m)
home_moves n idle v e = inl refl
home_moves n homing v e = inr (_, home_returns e)
home_moves n asking v e = elim (Option-cases n.holder) [
  | inl free ↦ inr (_, home_lock e free)
  | inr (other, held) ↦ inr (inside_moves n other (n.pc other) refl (v.holds other held))
]

find_live :
    (pc : ℕ → Pc) (n : ℕ)
    → ((g : ℕ) × (live (pc g) ≡ true)) ⊎ ((g : ℕ) → g < n → live (pc g) ≡ false)
find_live pc zero = inr (λ g h. elim h [ ])
find_live pc (suc n) = elim (Bool-cases (live (pc n))) [
  | inl here ↦ inl (n, here)
  | inr dead ↦ elim (find_live pc n) [
    | inl found ↦ inl found
    | inr rest ↦ inr (λ g h. ground (arith, rest g))
  ]
]

-- Moves of the threads, with no new goal between them.
pub data Moves (n : Node) : Node → Type 0 where
  done : Moves n n
  andthen : {m k : Node} → Moves n m → Move m k → Moves n k

joined : {n m k : Node} → Moves n m → Moves m k → Moves n k
joined a done = a
joined a (andthen b mv) = andthen (joined a b) mv

record Completes (n : Node) : Type 0 where
  last : Node
  path : Moves n last
  over : (g : ℕ) → live (last.pc g) ≡ false
  returned : last.home ≡ idle

-- After a move, what is left completes.
moved : {n m : Node} → Move n m → Completes m → Completes n
moved mv c = record {
  last = c.last;
  path = joined (andthen done mv) c.path;
  over = c.over;
  returned = c.returned;
}

reaches_end : (fuel : ℕ) (n : Node) → moves_left n < fuel → Reach n → Completes n
reaches_end zero n h r = elim h [ ]
reaches_end (suc fuel) n h r = elim (find_live n.pc (suc n.latest)) [
  | inl (g, here) ↦
      let (m, mv) = live_moves n g (n.pc g) (Reach-Inv r) refl here in
      let less = Move-lower mv (Reach-Inv r) in
      moved mv (reaches_end fuel m (omega arith) (later r (moves mv)))
  | inr dead ↦ elim (home_moves n n.home (Reach-Inv r) refl) [
    | inr (m, mv) ↦
        let less = Move-lower mv (Reach-Inv r) in
        moved mv (reaches_end fuel m (omega arith) (later r (moves mv)))
    | inl unasked ↦ record {
      last = n;
      path = done;
      over = λ g. ground (arith, dead g, (Reach-Inv r).beyond g);
      returned = unasked;
    }
  ]
]

-- No thread is stuck: from each reachable state there are moves of the threads and of
-- home_service, with no new goal, after which the thread of each accepted goal has come to its
-- end and home_service has returned, if it was called.
pub Reach-completes :
    {n : Node}
    → Reach n
    → (m : Node) × Moves n m × ((g : ℕ) → live (m.pc g) ≡ false) × (m.home ≡ idle)
Reach-completes {n} r =
    let c = reaches_end (suc (moves_left n)) n (omega arith) r in
    (c.last, c.path, c.over, c.returned)
