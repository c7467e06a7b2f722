-- ===== src/Driver/Execution/Every.antt =====
-- What holds of each event in the lists of execute_standard and execute_advanced of
-- wsg50_driver/src/main.cpp.
use wsg50_ros2_humble.Base.{
  ℕ, ◌≡◌, refl, sym, subst, Bool, true, false, not, ◌&&◌, ◌||◌, List, [], ◌∷◌, ◌++◌, ◌==◌, In, inl,
  inr, if_both, if◌then◌else◌, Outcome, returns, ◌>>=◌, Yields, Yields-bind,
}
use wsg50_ros2_humble.Driver.{Doubles, Parameters}
use wsg50_ros2_humble.Driver.Execution.{
  Watch, Event, acceleration_set, force_set, motion_started, feedback, stop_sent, canceled, aborted,
  succeeded, finished, watch_loop,
}

module _ (F : Doubles) (Result : Type 0) (Done : Result → Type 0) where
  -- The event does not end the goal as succeeded, or the result is one that may be told.
  abbrev pub Tells : Event F.Double Result → Type 0
  Tells (succeeded r) = Done r
  Tells e = Unit {0}

  abbrev pub AllTell : List (Event F.Double Result) → Type 0
  AllTell [] = Unit {0}
  AllTell (e ∷ es) = Tells e × AllTell es

  pub Tells-if : (e : Event F.Double Result) → ((r : Result) → e ≡ succeeded r → Done r) → Tells e
  Tells-if (succeeded r) h = h r refl
  Tells-if (acceleration_set a) h = tt
  Tells-if (force_set f) h = tt
  Tells-if (motion_started mode width speed stop_on_block) h = tt
  Tells-if (feedback state reached) h = tt
  Tells-if stop_sent h = tt
  Tells-if (canceled r) h = tt
  Tells-if (aborted r) h = tt
  Tells-if finished h = tt

  pub In-Tells :
      (e : Event F.Double Result) (es : List (Event F.Double Result))
      → AllTell es
      → In e es
      → Tells e
  In-Tells e [] a i = absurd i
  In-Tells e (x ∷ es) (t, a) (inl here) = subst Tells (sym here) t
  In-Tells e (x ∷ es) (t, a) (inr i) = In-Tells e es a i

  AllTell-append :
      (es fs : List (Event F.Double Result)) → AllTell es → AllTell fs → AllTell (es ++ fs)
  AllTell-append [] fs a b = b
  AllTell-append (e ∷ es) fs (t, a) b = (t, AllTell-append es fs a b)

  watch_loop-AllTell :
      (p : Parameters F) (target : F.Double) (grasp : Bool) (generation : ℕ) (ws : List Watch)
      (stopped : Bool)
      → AllTell (watch_loop F Result p target grasp generation ws stopped)
  unfolding watch_loop
  watch_loop-AllTell p target grasp generation [] stopped = tt
  watch_loop-AllTell p target grasp generation (w ∷ ws) stopped =
      let stop = not stopped && (w.canceling || not (generation == w.latest)) in
      let rest = watch_loop-AllTell p target grasp generation ws (stopped || stop) in
      (tt, if_both AllTell stop _ _ (λ _. (tt, rest)) (λ _. rest))

  -- What is told between start_motion and the end of the goal.
  pub watched-AllTell :
      (p : Parameters F) (target : F.Double) (grasp : Bool) (generation : ℕ) (ws : List Watch)
      (e : Event F.Double Result)
      → Tells e
      → AllTell (watch_loop F Result p target grasp generation ws false ++ e ∷ finished ∷ [])
  watched-AllTell p target grasp generation ws e t =
      AllTell-append (watch_loop F Result p target grasp generation ws false) _
        (watch_loop-AllTell p target grasp generation ws false) (t, (tt, tt))

  -- The way from the first test to the motion, which is taken only if no test fails.
  pub guarded-AllTell :
      (stale canceling slow weak : Bool) (x y r r' : Result) (a f : F.Double)
      (moves : Outcome (List (Event F.Double Result)))
      → (stale ≡ false → slow ≡ false → weak ≡ false → Yields AllTell moves)
      → Yields AllTell (
          if stale
          then returns ((if canceling then canceled x else aborted y) ∷ finished ∷ [])
          else if slow
          then returns (acceleration_set a ∷ aborted r ∷ finished ∷ [])
          else if weak
          then returns (acceleration_set a ∷ force_set f ∷ aborted r' ∷ finished ∷ [])
          else (moves >>= λ es. returns (acceleration_set a ∷ force_set f ∷ es)))
  guarded-AllTell true true slow weak x y r r' a f moves h = (tt, (tt, tt))
  guarded-AllTell true false slow weak x y r r' a f moves h = (tt, (tt, tt))
  guarded-AllTell false canceling true weak x y r r' a f moves h = (tt, (tt, (tt, tt)))
  guarded-AllTell false canceling false true x y r r' a f moves h = (tt, (tt, (tt, (tt, tt))))
  guarded-AllTell false canceling false false x y r r' a f moves h =
      Yields-bind AllTell AllTell moves _ (h refl refl refl)
        (λ es t. let forced : AllTell (force_set f ∷ es) = (tt, t) in (tt, forced))
