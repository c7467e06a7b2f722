-- ===== src/Driver/Execution/Once.antt =====
-- Goals of wsg50_driver/src/main.cpp that are ended once, and the loop that waits for a motion.
use wsg50_ros2_humble.Base.{
  ℕ, ◌+◌, ◌≤◌, ◌≡◌, refl, Bool, true, false, not, ◌&&◌, ◌||◌, List, [], ◌∷◌, ◌++◌, ◌==◌, arith,
  if_both, if◌then◌else◌,
}
use wsg50_ros2_humble.Driver.{Doubles, Parameters}
use wsg50_ros2_humble.Driver.Execution.{
  Watch, Event, acceleration_set, force_set, motion_started, stop_sent, canceled, aborted,
  succeeded, finished, watch_loop,
}

module _ {Double Result : Type 0} where
  abbrev pub is_ending : Event Double Result → Bool
  is_ending (canceled r) = true
  is_ending (aborted r) = true
  is_ending (succeeded r) = true
  is_ending e = false

  abbrev pub is_stop : Event Double Result → Bool
  is_stop stop_sent = true
  is_stop e = false

  abbrev pub count : (Event Double Result → Bool) → List (Event Double Result) → ℕ
  count f [] = 0
  count f (e ∷ es) = (if f e then 1 else 0) + count f es

  -- The goal is ended once, right before finish_motion, which is the last; the motion is stopped
  -- once at most, and before that.
  pub record EndsOnce (es : List (Event Double Result)) : Type 0 where
    pub front : List (Event Double Result)
    pub ending : Event Double Result
    pub shape : es ≡ front ++ (ending ∷ finished ∷ [])
    pub ends : is_ending ending ≡ true
    pub not_before : count is_ending front ≡ 0
    pub one_stop : count is_stop front ≤ 1

module _ (F : Doubles) (Result : Type 0) (p : Parameters F) (target : F.Double) (grasp : Bool)
    (generation : ℕ) where
  watch_loop-endings :
      (ws : List Watch) (stopped : Bool)
      → count is_ending (watch_loop F Result p target grasp generation ws stopped) ≡ 0
  unfolding watch_loop
  watch_loop-endings [] stopped = refl
  watch_loop-endings (w ∷ ws) stopped =
      let stop = not stopped && (w.canceling || not (generation == w.latest)) in
      let rest = watch_loop F Result p target grasp generation ws (stopped || stop) in
      if_both (λ es. 0 + count is_ending es ≡ 0) stop (stop_sent ∷ rest) rest
        (λ _. omega (arith, watch_loop-endings ws (stopped || stop)))
        (λ _. omega (arith, watch_loop-endings ws (stopped || stop)))

  watch_loop-stops :
      (ws : List Watch) (stopped : Bool)
      → (if stopped then 1 else 0)
          + count is_stop (watch_loop F Result p target grasp generation ws stopped)
        ≤ 1
  unfolding watch_loop
  watch_loop-stops [] stopped = ground arith
  watch_loop-stops (w ∷ ws) stopped =
      let stop = not stopped && (w.canceling || not (generation == w.latest)) in
      let rest = watch_loop F Result p target grasp generation ws (stopped || stop) in
      let bound = watch_loop-stops ws (stopped || stop) in
      if_both (λ es. (if stopped then 1 else 0) + (0 + count is_stop es) ≤ 1) stop
        (stop_sent ∷ rest) rest (λ on. ground (arith, bound)) (λ off. ground (arith, bound))

  pub moved-EndsOnce :
      (ws : List Watch) (a f : F.Double) (mode : ℕ) (width speed : F.Double) (stop_on_block : Bool)
      (e : Event F.Double Result)
      → is_ending e ≡ true
      → EndsOnce (
          acceleration_set a
          ∷ force_set f
          ∷ motion_started mode width speed stop_on_block
          ∷ (watch_loop F Result p target grasp generation ws false ++ (e ∷ finished ∷ [])))
  moved-EndsOnce ws a f mode width speed stop_on_block e h = record {
    front =
        acceleration_set a
        ∷ force_set f
        ∷ motion_started mode width speed stop_on_block
        ∷ watch_loop F Result p target grasp generation ws false;
    ending = e;
    shape = refl;
    ends = h;
    not_before = omega (arith, watch_loop-endings ws false);
    one_stop = ground (arith, watch_loop-stops ws false);
  }
