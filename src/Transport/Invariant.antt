-- ===== src/Transport/Invariant.antt =====
-- What holds of the class Transport of wsg50_driver/src/transport.cpp between its operations: the
-- account of promises, the keys of the map, and what waits without a connection.
pub mod Flight
pub mod Settle
pub mod Client
pub mod Link
pub mod Replies
pub mod Dispatch
pub mod Worker
pub mod Exchange
pub mod Routing
pub mod Receiving
pub mod Delivery
pub mod Settles
pub mod Carries
pub mod Expiry
use wsg50_ros2_humble.Base.{
  ℕ, suc, ◌+◌, ◌≤◌, ◌<◌, ◌≡◌, Bool, true, false, List, [], ◌∷◌, Option, none, some, ltb, ◌==◌,
  if◌then◌else◌,
}
use wsg50_ros2_humble.Device.{CommandReply}
use wsg50_ros2_humble.Transport.{Transport, Request}

-- How often promise `k` stands in a queue, in the map, and among those that are set.
abbrev pub one_if : Bool → ℕ
one_if b = if b then 1 else 0

abbrev pub waiting : ℕ → List Request → ℕ
waiting k [] = 0
waiting k (r ∷ rs) = one_if (r.promise == k) + waiting k rs

abbrev pub flying : ℕ → List (ℕ × Request) → ℕ
flying k [] = 0
flying k ((j, r) ∷ m) = one_if (r.promise == k) + flying k m

abbrev pub times_set : ℕ → List (ℕ × CommandReply) → ℕ
times_set k [] = 0
times_set k ((p, reply) ∷ rest) = one_if (p == k) + times_set k rest

abbrev pub held : ℕ → Transport → ℕ
held k t = flying k t.in_flight + (waiting k t.queue + waiting k t.priority_queue)

-- The promises are accounted for, with `extra` of them in the hands of the operation.
abbrev pub Balance : (ℕ → ℕ) → Transport → Type 0
Balance extra t = (k : ℕ) → extra k + (held k t + times_set k t.settled) ≡ one_if (ltb k t.promises)

-- The keys of the map ascend from `low`, and each is the id of its request.
abbrev pub Ascending : ℕ → List (ℕ × Request) → Type 0
Ascending low [] = Unit {0}
Ascending low ((j, r) ∷ m) = (low ≤ j) × (j ≡ r.id) × Ascending (suc j) m

abbrev pub is_open : Option ℕ → Bool
is_open none = false
is_open (some fd) = true

pub record IsOrderly (t : Transport) : Type 0 where
  pub accounted : Balance (λ k. 0) t
  pub keyed : Ascending 0 t.in_flight
  pub offline_flight : t.connected ≡ false → t.in_flight ≡ []
  pub offline_queue : t.connected ≡ false → t.queue ≡ []
  pub offline_priority : t.connected ≡ false → t.priority_queue ≡ []
  pub shown : t.state.connected ≡ t.connected
  pub linked : is_open t.socket ≡ t.connected
