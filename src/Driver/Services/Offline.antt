-- ===== src/Driver/Services/Offline.antt =====
-- The services of wsg50_driver/src/main.cpp without a connection.
use wsg50_ros2_humble.Base.{
  ℕ, ◌≡◌, refl, Bool, true, false, List, ◌∷◌, some, String, ==_iff, arith, Outcome, Returns,
}
use wsg50_ros2_humble.Wire.Bytes.{Bytes}
use wsg50_ros2_humble.Device.{CommandReply, success}
use wsg50_ros2_humble.Transport.{Transport, set_value}
use wsg50_ros2_humble.Transport.Requests.{failure, after_make, fail_request, command}
use wsg50_ros2_humble.Transport.Invariant.{times_set, IsOrderly}
use wsg50_ros2_humble.Transport.Invariant.Settle.{is_settled_fresh}
use wsg50_ros2_humble.Driver.{Doubles, Parameters}
use wsg50_ros2_humble.Driver.Motion.{Response, fill_trigger_response}
use wsg50_ros2_humble.Driver.Services.{
  reply_of, get, respond, home_service, stop_service, acknowledge_service, tare_service,
}

-- A promise of the next number has not been set.
pub next_fresh : (t : Transport) → IsOrderly t → times_set t.promises t.settled ≡ 0
next_fresh t v = let b = v.accounted t.promises in ground arith

-- Without a connection, command itself sets the promise that it returns, to a failure.
pub command-fails :
    (id : ℕ) (payload : Bytes) (allow_pending : Bool) (timeout : ℕ) (priority : Bool)
    (t : Transport)
    → IsOrderly t
    → t.connected ≡ false
    → (command id payload allow_pending timeout priority t ≡ (
      t.promises,
      record (after_make t) {
        settled = (t.promises, failure "gripper is not connected") ∷ t.settled;
      },
    ))
unfolding command fail_request set_value
command-fails id payload allow_pending timeout priority t v off =
    rw (off, is_settled_fresh t.promises t.settled (next_fresh t v)) refl

pub reply_of_own :
    (k : ℕ) (reply : CommandReply) (rest : List (ℕ × CommandReply))
    → reply_of k ((k, reply) ∷ rest) ≡ some reply
unfolding reply_of
reply_of_own k reply rest = ground (arith, ==_iff k k)

-- The service says that it has failed, and why.
abbrev pub SaysFailed : String → Outcome (Response × Transport) → Type 0
SaysFailed text =
    Returns (λ (x : Response × Transport). x.0 ≡ record { success = false; message = text })

module _ (F : Doubles) (p : Parameters F) (others : Transport → Transport)
    (keeps : (u : Transport) (k : ℕ) (reply : CommandReply)
      → reply_of k u.settled ≡ some reply
      → reply_of k (others u).settled ≡ some reply) where
  -- A promise that is set gives its reply to the service, whatever the other threads do.
  pub respond-answers :
      (k : ℕ) (t : Transport) (reply : CommandReply)
      → reply_of k t.settled ≡ some reply
      → Returns
          (λ (x : Response × Transport). x.0 ≡ fill_trigger_response reply)
          (respond others (k, t))
  unfolding respond get
  respond-answers k t reply h = rw (keeps t k reply h, Returns) refl

  command-SaysFailed :
      (id : ℕ) (payload : Bytes) (timeout : ℕ) (priority : Bool) (t : Transport)
      → IsOrderly t
      → t.connected ≡ false
      → SaysFailed "gripper is not connected"
          (respond others (command id payload true timeout priority t))
  unfolding success
  command-SaysFailed id payload timeout priority t v off =
      rw (command-fails id payload true timeout priority t v off) (
        respond-answers t.promises _ (failure "gripper is not connected")
          (reply_of_own t.promises (failure "gripper is not connected") t.settled))

  -- If the other threads leave the promises that are set alone, then on an orderly transport
  -- without a connection each of the four services returns, and says that it failed because
  -- the gripper is not connected.
  pub services-SaysFailed :
      (t : Transport)
      → IsOrderly t
      → t.connected ≡ false
      → SaysFailed "gripper is not connected" (home_service F p others t)
        × SaysFailed "gripper is not connected" (stop_service F p others t)
        × SaysFailed "gripper is not connected" (acknowledge_service F p others t)
        × SaysFailed "gripper is not connected" (tare_service F p others t)
  unfolding home_service stop_service acknowledge_service tare_service
  services-SaysFailed t v off = (
    rw off refl,
    command-SaysFailed _ _ _ _ t v off,
    command-SaysFailed _ _ _ _ t v off,
    command-SaysFailed _ _ _ _ t v off,
  )
