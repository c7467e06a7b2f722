-- ===== src/Transport/Invariant/Settle.antt =====
-- Promises that are set: set_value, fail_request and fail_all of wsg50_driver/src/transport.cpp,
-- and the account of promises.
use wsg50_ros2_humble.Base.{
  ℕ, ◌+◌, ◌≤◌, ◌≡◌, refl, ap, ◌∙◌, true, false, List, [], ◌∷◌, ◌++◌, map, String, ◌==◌, arith,
  returns,
}
use wsg50_ros2_humble.Device.{CommandReply}
use wsg50_ros2_humble.Transport.{Transport, Request, is_settled, set_value}
use wsg50_ros2_humble.Transport.Requests.{failure, fail_request, fail_each, fail_all, collected}
use wsg50_ros2_humble.Transport.Invariant.{one_if, waiting, flying, times_set, held, Balance}

pub is_settled_fresh :
    (p : ℕ) (s : List (ℕ × CommandReply)) → times_set p s ≡ 0 → is_settled p s ≡ false
unfolding is_settled
is_settled_fresh p [] h = refl
is_settled_fresh p ((q, reply) ∷ s) h = ground (arith, is_settled_fresh p s)

is_settled_set : (p : ℕ) (s : List (ℕ × CommandReply)) → 1 ≤ times_set p s → is_settled p s ≡ true
unfolding is_settled
is_settled_set p [] h = absurd (omega arith)
is_settled_set p ((q, reply) ∷ s) h = ground (arith, is_settled_set p s)

-- A promise that a request still holds has not been set, so setting it throws nothing.
pub set_value_held :
    (p : ℕ) (reply : CommandReply) (t : Transport) (extra : ℕ → ℕ)
    → Balance (λ k. one_if (p == k) + extra k) t
    → set_value p reply t ≡ returns (record t { settled = (p, reply) ∷ t.settled })
unfolding set_value
set_value_held p reply t extra b =
    let balance = b p in
    let fresh : times_set p t.settled ≡ 0 = ground arith in rw (is_settled_fresh p t.settled fresh)

pub fail_request_held :
    (r : Request) (reason : String) (t : Transport) (extra : ℕ → ℕ)
    → Balance (λ k. one_if (r.promise == k) + extra k) t
    → fail_request r reason t ≡ record t { settled = (r.promise, failure reason) ∷ t.settled }
unfolding fail_request
fail_request_held r reason t extra b = rw (set_value_held r.promise (failure reason) t extra b)

pub fail_request_set :
    (r : Request) (reason : String) (t : Transport)
    → 1 ≤ times_set r.promise t.settled
    → fail_request r reason t ≡ t
unfolding fail_request set_value
fail_request_set r reason t h = rw (is_settled_set r.promise t.settled h)

-- What fail_request and fail_all leave alone.
abbrev pub with_settled : Transport → List (ℕ × CommandReply) → Transport
with_settled t s = record t { settled = s }

abbrev pub Settles : Transport → Transport → (ℕ → ℕ) → Type 0
Settles t t' extra =
    (s : List (ℕ × CommandReply)) × (t' ≡ with_settled t s) × Balance extra (with_settled t s)

pub fail_request-Balance :
    (r : Request) (reason : String) (t : Transport) (extra : ℕ → ℕ)
    → Balance (λ k. one_if (r.promise == k) + extra k) t
    → Settles t (fail_request r reason t) extra
fail_request-Balance r reason t extra b = (
  (r.promise, failure reason) ∷ t.settled,
  fail_request_held r reason t extra b,
  λ k. omega (arith, b k),
)

-- The replies that fail_all adds, newest first.
abbrev pub failures : String → List Request → List (ℕ × CommandReply) → List (ℕ × CommandReply)
failures reason [] s = s
failures reason (r ∷ rs) s = failures reason rs ((r.promise, failure reason) ∷ s)

fail_each-Balance :
    (rs : List Request) (reason : String) (t : Transport)
    → Balance (λ k. waiting k rs) t
    → (fail_each rs reason t ≡ with_settled t (failures reason rs t.settled))
      × Balance (λ k. 0) (with_settled t (failures reason rs t.settled))
unfolding fail_each
fail_each-Balance [] reason t b = (refl, b)
fail_each-Balance (r ∷ rs) reason t b =
    let settled = (r.promise, failure reason) ∷ t.settled in
    let (e, b') = fail_each-Balance rs reason (with_settled t settled) (λ k. omega (arith, b k)) in
    (ap (fail_each rs reason) (fail_request_held r reason t (λ k. waiting k rs) b) ∙ e, b')

pub waiting-append :
    (k : ℕ) (xs ys : List Request) → waiting k (xs ++ ys) ≡ waiting k xs + waiting k ys
waiting-append k [] ys = omega arith
waiting-append k (x ∷ xs) ys = omega (arith, waiting-append k xs ys)

waiting-flying :
    (k : ℕ) (m : List (ℕ × Request)) → waiting k (map (λ (e : ℕ × Request). e.1) m) ≡ flying k m
waiting-flying k [] = refl
waiting-flying k ((j, r) ∷ m) = omega (arith, waiting-flying k m)

pub waiting-collected : (k : ℕ) (t : Transport) → waiting k (collected t) ≡ held k t
waiting-collected k t =
    waiting-append k (map (λ (e : ℕ × Request). e.1) t.in_flight) (t.queue ++ t.priority_queue)
    ∙ omega (arith, waiting-flying k t.in_flight, waiting-append k t.queue t.priority_queue)

-- fail_all empties the queues and the map, and sets each promise that they held, once.
pub fail_all-Balance :
    (reason : String) (t : Transport)
    → Balance (λ k. 0) t
    → let settled = failures reason (collected t) t.settled in
      let cleared = record t { in_flight = []; queue = []; priority_queue = [] } in
      (fail_all reason t ≡ with_settled cleared settled)
      × Balance (λ k. 0) (with_settled cleared settled)
unfolding fail_all
fail_all-Balance reason t b =
    fail_each-Balance (collected t) reason _ (λ k. omega (arith, b k, waiting-collected k t))
