-- ===== src/Transport/Threads/Account.antt =====
-- The account of promises of the class Transport of wsg50_driver/src/transport.cpp with those that
-- threads hold between their steps.
use wsg50_ros2_humble.Base.{
  ℕ, ◌+◌, ◌≤◌, ◌≡◌, refl, Bool, true, false, List, [], ◌∷◌, ◌++◌, some, ◌==◌, arith,
}
use wsg50_ros2_humble.Wire.Bytes.{Bytes}
use wsg50_ros2_humble.Transport.{Transport, Request, find}
use wsg50_ros2_humble.Transport.Requests.{make_request, after_make, stream_each}
use wsg50_ros2_humble.Transport.Invariant.{one_if, waiting, times_set, Balance, Ascending}
use wsg50_ros2_humble.Transport.Invariant.Settle.{waiting-append}
use wsg50_ros2_humble.Transport.Threads.{
  After, next_round, give_up, stop_run, Pc, resting, opening, sending, closing, failing, abandoning,
  looking, answering, over, System,
}

-- How often the worker holds a promise.
abbrev pub in_hand : Pc → ℕ → ℕ
in_hand (failing reason rs after) k = waiting k rs
in_hand (answering p status payload) k = one_if (p == k)
in_hand pc k = 0

abbrev pub is_closing : Pc → Bool
is_closing (closing reason after) = true
is_closing pc = false

-- No request waits in the map or in a queue.
abbrev pub IsEmpty : Transport → Type 0
IsEmpty t = (t.in_flight ≡ []) × (t.queue ≡ []) × (t.priority_queue ≡ [])

-- What is known of the request that a disconnect will make dispatch_requests give up.
abbrev pub Gives : (Request → Type 0) → After → Type 0
Gives P (give_up r) = P r
Gives P after = Unit {0}

-- What the position of the worker says of the transport.
abbrev pub Facts : Pc → Transport → Type 0
Facts resting t = Unit {0}
Facts opening t = Unit {0}
Facts (sending r) t = (t.connected ≡ true) × (find r.id t.in_flight ≡ some r)
Facts (closing reason after) t =
    (t.connected ≡ false) × Gives (λ r. find r.id t.in_flight ≡ some r) after
Facts (failing reason rs after) t =
    (t.connected ≡ false)
    × Gives (λ r. 1 ≤ waiting r.promise rs + times_set r.promise t.settled) after
Facts (abandoning r) t = (t.connected ≡ false) × (1 ≤ times_set r.promise t.settled)
Facts (looking id status payload) t = Unit {0}
Facts (answering p status payload) t = Unit {0}
Facts over t = t.connected ≡ false

pub record Inv (s : System) : Type 0 where
  pub accounted : Balance (λ k. in_hand s.pc k + waiting k s.refused) s.transport
  pub keyed : Ascending 0 s.transport.in_flight
  pub offline : s.transport.connected ≡ false → is_closing s.pc ≡ false → IsEmpty s.transport
  pub facts : Facts s.pc s.transport

-- The facts stay where the connection and the map stay and no promise is lost.
pub Facts-more :
    (pc : Pc) (t t' : Transport)
    → t'.connected ≡ t.connected
    → t'.in_flight ≡ t.in_flight
    → ((k : ℕ) → times_set k t.settled ≤ times_set k t'.settled)
    → Facts pc t
    → Facts pc t'
Facts-more resting t t' c m more f = tt
Facts-more opening t t' c m more f = tt
Facts-more (sending r) t t' c m more (on, there) = rw (c, m) (on, there)
Facts-more (closing reason next_round) t t' c m more (off, there) = rw c (off, tt)
Facts-more (closing reason (give_up r)) t t' c m more (off, there) = rw (c, m) (off, there)
Facts-more (closing reason stop_run) t t' c m more (off, there) = rw c (off, tt)
Facts-more (failing reason rs next_round) t t' c m more (off, there) = rw c (off, tt)
Facts-more (failing reason rs (give_up r)) t t' c m more (off, there) =
    let grown = more r.promise in rw c (off, omega arith)
Facts-more (failing reason rs stop_run) t t' c m more (off, there) = rw c (off, tt)
Facts-more (abandoning r) t t' c m more (off, there) =
    let grown = more r.promise in rw c (off, omega arith)
Facts-more (looking id status payload) t t' c m more f = tt
Facts-more (answering p status payload) t t' c m more f = tt
Facts-more over t t' c m more f = rw c f

-- A new promise goes to the thread that made it.
pub made-Balance :
    (t : Transport) (extra : ℕ → ℕ)
    → Balance extra t
    → Balance (λ k. one_if (t.promises == k) + extra k) (after_make t)
made-Balance t extra b k = let balance = b k in ground arith

-- Each streaming request holds the promise that is made for it.
pub stream_each-Balance :
    (ids : List ℕ) (payload : Bytes) (t : Transport) (extra : ℕ → ℕ)
    → Balance extra t
    → Balance extra (stream_each ids payload t)
unfolding stream_each
stream_each-Balance [] payload t extra b = b
stream_each-Balance (id ∷ ids) payload t extra b =
    let r = make_request id payload false true t.options.response_timeout t in
    stream_each-Balance ids payload (record (after_make t) { queue = t.queue ++ r ∷ [] }) extra
      (λ k. omega (arith, made-Balance t extra b k, waiting-append k t.queue (r ∷ [])))

pub stream_each-same :
    (ids : List ℕ) (payload : Bytes) (t : Transport)
    → ((stream_each ids payload t).connected ≡ t.connected)
      × ((stream_each ids payload t).in_flight ≡ t.in_flight)
      × ((stream_each ids payload t).settled ≡ t.settled)
unfolding stream_each
stream_each-same [] payload t = (refl, refl, refl)
stream_each-same (id ∷ ids) payload t = stream_each-same ids payload _
