-- ===== src/Driver/Actions.antt =====
-- The threads of the goals of wsg50_driver/src/main.cpp: handle_standard_accepted and
-- handle_advanced_accepted, the lock and the tests of execute_standard and execute_advanced,
-- finish_motion, and home_service with the same lock, a shared access at a time. The callbacks of
-- the node stand in one callback group, so one of them at a time runs.
pub mod Exclusion
pub mod Order
pub mod Rank
pub mod Progress
mod Examples
use wsg50_ros2_humble.Base.{
  ℕ, suc, ◌+◌, ◌^◌, ◌<◌, ◌≡◌, ◌≢◌, Bool, true, false, List, [], ◌∷◌, Option, none, some, ◌==◌,
  if◌then◌else◌,
}

-- Where the thread of a goal stands, which is named by its generation.
pub data Pc : Type 0 where
  absent : Pc
  accepted : Pc  -- behind the increment of motion_generation_
  waiting : Pc  -- before the lock of motion_execution_mutex_
  entered : Pc  -- before the test of the generation
  moving : Pc  -- from the acceleration to the end of the goal
  ending : Pc  -- before the test in finish_motion
  clearing : Pc  -- before the store to motion_active_
  leaving : Pc  -- before the unlock
  ended : Pc

-- Where the callback home_service stands: it is not called, before the lock, or behind it.
pub data Home : Type 0 where
  idle asking homing : Home

abbrev pub is_homing : Home → Bool
is_homing homing = true
is_homing h = false

-- `holder` is the goal that has the lock, which is else free or home_service's; `callback` is the goal whose callback is between its two stores, and
-- `started` are the goals that have moved the gripper, the latest first.
pub record Node : Type 0 where
  pub latest : ℕ
  pub active : Bool
  pub shutting_down : Bool
  pub holder : Option ℕ
  pub callback : Option ℕ
  pub home : Home
  pub pc : ℕ → Pc
  pub started : List ℕ

abbrev pub update : (ℕ → Pc) → ℕ → Pc → ℕ → Pc
update f i p j = if j == i then p else f j

abbrev pub at : Node → ℕ → Pc → Node
at n i p = record n { pc = update n.pc i p }

-- The moves of a thread, of the callback that makes it, and of home_service.
pub data Move (n : Node) : Node → Type 0 where
  activate :
      (g : ℕ)
      → n.callback ≡ some g
      → Move n (record (at n g waiting) { active = true; callback = none })
  lock :
      (g : ℕ)
      → n.pc g ≡ waiting
      → n.holder ≡ none
      → is_homing n.home ≡ false
      → Move n (record (at n g entered) { holder = some g })
  go :
      (g : ℕ)
      → n.pc g ≡ entered
      → g ≡ n.latest
      → n.shutting_down ≡ false
      → Move n (record (at n g moving) { started = g ∷ n.started })
  give_up : (g : ℕ) → n.pc g ≡ entered → g ≢ n.latest → Move n (at n g ending)
  shut : (g : ℕ) → n.pc g ≡ entered → n.shutting_down ≡ true → Move n (at n g ending)
  end_goal : (g : ℕ) → n.pc g ≡ moving → Move n (at n g ending)
  is_latest : (g : ℕ) → n.pc g ≡ ending → g ≡ n.latest → Move n (at n g clearing)
  is_older : (g : ℕ) → n.pc g ≡ ending → g ≢ n.latest → Move n (at n g leaving)
  clear : (g : ℕ) → n.pc g ≡ clearing → Move n (record (at n g leaving) { active = false })
  unlock : (g : ℕ) → n.pc g ≡ leaving → Move n (record (at n g ended) { holder = none })
  home_lock : n.home ≡ asking → n.holder ≡ none → Move n (record n { home = homing })
  home_returns : n.home ≡ homing → Move n (record n { home = idle })

-- A goal is accepted, home_service is called, the node begins to shut down, or a thread moves. The counter does not wrap:
-- there are fewer than 2 ^ 64 goals.
pub data Step (n : Node) : Node → Type 0 where
  accept :
      n.callback ≡ none
      → n.home ≡ idle
      → n.latest + 1 < 2 ^ 64
      → Step n (record (at n (suc n.latest) accepted) {
        latest = suc n.latest;
        callback = some (suc n.latest);
      })
  call_home : n.callback ≡ none → n.home ≡ idle → Step n (record n { home = asking })
  shut_down : Step n (record n { shutting_down = true })
  moves : {m : Node} → Move n m → Step n m

abbrev pub first : Node
first = record {
  latest = 0;
  active = false;
  shutting_down = false;
  holder = none;
  callback = none;
  home = idle;
  pc = λ g. absent;
  started = [];
}

pub data Reach : Node → Type 0 where
  begin : Reach first
  later : {n m : Node} → Reach n → Step n m → Reach m
