-- ===== src/Driver/Motion/Settling.antt =====
-- wait_for_settled_state of wsg50_driver/src/main.cpp: where its loop ends.
use wsg50_ros2_humble.Base.{
  ℕ, ◌≤◌, ◌<◌, ◌≡◌, Bool, true, false, List, [], ◌∷◌, ◌++◌, ◌&&◌, arith, Returns-mono, returns,
  Returns, ltb, if_both, Bool-cases, inl, inr, max, ◌+◌, ◌*◌,
}
use wsg50_ros2_humble.Device.{DeviceState}
use wsg50_ros2_humble.Driver.{Doubles, Parameters, duration}
use wsg50_ros2_humble.Driver.Motion.{unsettled, settle_loop, wait_for_settled_state}

module _ (F : Doubles) (p : Parameters F) (target : F.Double) (grasp motion_ok : Bool)
    (deadline : ℕ) where
  -- The state at which the readings end: the first that is settled, or that was the latest when the
  -- clock had reached the deadline.
  pub data EndsAt : List (ℕ × DeviceState) → DeviceState → DeviceState → Type 0 where
    settled :
        {readings : List (ℕ × DeviceState)} {state : DeviceState}
        → unsettled F p target grasp motion_ok state ≡ false
        → EndsAt readings state state
    too_late :
        {now : ℕ} {next state : DeviceState} {rest : List (ℕ × DeviceState)}
        → unsettled F p target grasp motion_ok state ≡ true
        → deadline ≤ now
        → EndsAt ((now, next) ∷ rest) state state
    waited :
        {now : ℕ} {next state last : DeviceState} {rest : List (ℕ × DeviceState)}
        → unsettled F p target grasp motion_ok state ≡ true
        → now < deadline
        → EndsAt rest next last
        → EndsAt ((now, next) ∷ rest) state last

  Ends : List (ℕ × DeviceState) → DeviceState → Type 0
  unfolding settle_loop
  Ends all state =
      Returns (EndsAt all state) (settle_loop F p target grasp motion_ok deadline all state)

  -- What the loop does at a reading, where the rest of the readings makes it return.
  reading-Ends :
      (now : ℕ) (next state : DeviceState) (rest : List (ℕ × DeviceState))
      → (now < deadline → Ends rest next)
      → Ends ((now, next) ∷ rest) state
  unfolding Ends settle_loop
  reading-Ends now next state rest later =
      if_both (Returns (EndsAt ((now, next) ∷ rest) state))
        (unsettled F p target grasp motion_ok state && ltb now deadline)
        (settle_loop F p target grasp motion_ok deadline rest next) (returns state)
        (λ go.
          Returns-mono (EndsAt rest next) (EndsAt ((now, next) ∷ rest) state)
            (settle_loop F p target grasp motion_ok deadline rest next)
            (λ last e. waited (ground arith) (ground arith) e) (later (ground arith)))
        (λ stay. elim (Bool-cases (unsettled F p target grasp motion_ok state)) [
          | inl on ↦ too_late on (ground arith)
          | inr off ↦ settled off
        ])

  late-Ends :
      (readings : List (ℕ × DeviceState)) (now : ℕ) (next state : DeviceState)
      → deadline ≤ now
      → Ends (readings ++ (now, next) ∷ []) state
  late-Ends [] now next state h = reading-Ends now next state [] (λ soon. absurd (omega arith))
  late-Ends ((earlier, s) ∷ readings) now next state h =
      reading-Ends earlier s state (readings ++ (now, next) ∷ [])
        (λ soon. late-Ends readings now next s h)

module _ (F : Doubles) (p : Parameters F) (target : F.Double) (grasp motion_ok : Bool) where
  -- If the last of the clock readings has reached the deadline, 500 ms or three update
  -- periods after the start, wait_for_settled_state returns the first state that is settled
  -- or at which the clock had reached the deadline.
  pub wait_for_settled_state-EndsAt :
      (start : ℕ) (readings : List (ℕ × DeviceState)) (now : ℕ) (next state : DeviceState)
      → start + max 500 (duration p.state_update_period_ms * 3) ≤ now
      → Returns
          (EndsAt F p target grasp motion_ok
            (start + max 500 (duration p.state_update_period_ms * 3))
            (readings ++ (now, next) ∷ [])
            state)
          (wait_for_settled_state F p target grasp motion_ok start
            (readings ++ (now, next) ∷ [])
            state)
  unfolding wait_for_settled_state Ends
  wait_for_settled_state-EndsAt start readings now next state h =
      late-Ends F p target grasp motion_ok (start + max 500 (duration p.state_update_period_ms * 3))
        readings now next state h
