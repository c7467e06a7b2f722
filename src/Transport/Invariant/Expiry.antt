-- ===== src/Transport/Invariant/Expiry.antt =====
-- The deadlines of requests: expire_requests of wsg50_driver/src/transport.cpp.
use wsg50_ros2_humble.Base.{
  ℕ, suc, ==_iff, ◌≤◌, ◌<◌, ◌≡◌, refl, true, false, List, [], ◌∷◌, some, leb, arith, Bool-cases,
  inl, inr,
}
use wsg50_ros2_humble.Transport.{Transport, Request, find}
use wsg50_ros2_humble.Transport.Replies.{any_expired, expire_requests}
use wsg50_ros2_humble.Transport.Invariant.{Ascending, IsOrderly}
use wsg50_ros2_humble.Transport.Invariant.Flight.{find_below}
use wsg50_ros2_humble.Transport.Invariant.Link.{IsDown, disconnect-IsDown}

-- Each request has a deadline that is still to come.
abbrev pub AllInTime : ℕ → List (ℕ × Request) → Type 0
AllInTime now [] = Unit {0}
AllInTime now ((k, r) ∷ m) = (now < r.deadline) × AllInTime now m

any_expired-false : (now : ℕ) (m : List (ℕ × Request)) → any_expired now m ≡ false → AllInTime now m
unfolding any_expired
any_expired-false now [] h = tt
any_expired-false now ((j, x) ∷ m) h = (ground arith, any_expired-false now m (ground arith))

-- A request in flight whose deadline is past.
pub record Late (now : ℕ) (m : List (ℕ × Request)) : Type 0 where
  pub key : ℕ
  pub request : Request
  pub stands : find key m ≡ some request
  pub past : request.deadline ≤ now

behind_first :
    (now k low : ℕ) (x : Request) (m : List (ℕ × Request))
    → Ascending (suc k) m
    → Late now m
    → Late now ((k, x) ∷ m)
unfolding find
behind_first now k low x m a l = record {
  key = l.key;
  request = l.request;
  stands = ground (arith, find_below k (suc k) m, l.stands, ==_iff k l.key);
  past = l.past;
}

any_expired-Late :
    (now low : ℕ) (m : List (ℕ × Request)) → Ascending low m → any_expired now m ≡ true → Late now m
unfolding any_expired
any_expired-Late now low [] a h = cc
any_expired-Late now low ((k, x) ∷ m) (lo, e, a) h = elim (Bool-cases (leb x.deadline now)) [
  | inl here ↦ record {
    key = k;
    request = x;
    stands = unfold find in ground (arith, ==_iff k k);
    past = ground arith;
  }
  | inr later ↦ behind_first now k low x m a (any_expired-Late now (suc k) m a (ground arith))
]

-- Either no request in flight is past its deadline, and nothing changes; or one is, and the
-- transport goes down, with the timeout as the reply to each request that waited.
pub data Expires (now : ℕ) (t t' : Transport) : Type 0 where
  in_time : AllInTime now t.in_flight → t' ≡ t → Expires now t t'
  too_late : Late now t.in_flight → IsDown "command response timeout" t t' → Expires now t t'

-- On an orderly transport, expire_requests changes nothing while each deadline in the map is
-- still to come; else some deadline is past, and the transport is down, with the timeout as
-- the reply to each request that waited.
pub expire_requests-Expires :
    (now : ℕ) (t : Transport) → IsOrderly t → Expires now t (expire_requests now t)
unfolding expire_requests
expire_requests-Expires now t v = elim (Bool-cases (any_expired now t.in_flight)) [
  | inr none_late ↦ rw none_late (in_time (any_expired-false now t.in_flight none_late) refl)
  | inl some_late ↦ rw some_late (
      too_late (any_expired-Late now 0 t.in_flight v.keyed some_late)
        (disconnect-IsDown now "command response timeout" t v.accounted))
]
