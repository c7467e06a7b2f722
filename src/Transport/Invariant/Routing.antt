-- ===== src/Transport/Invariant/Routing.antt =====
-- Which promise handle_frame of wsg50_driver/src/transport.cpp sets.
use wsg50_ros2_humble.Base.{
  ℕ, if_both, suc, ◌+◌, ◌<◌, ◌≡◌, ◌≢◌, ◌⊎◌, refl, true, false, List, [], ◌∷◌, none, some, ltb, ◌==◌,
  ==_iff, arith, Bool-cases, Option-cases, inl, inr, returns, Returns, ◌&&◌, length,
}
use wsg50_ros2_humble.Wire.Bytes.{Bytes, read_u16}
use wsg50_ros2_humble.Transport.Invariant.Dispatch.{find-assign}
use wsg50_ros2_humble.Device.{DeviceState, status_command_pending, update_state}
use wsg50_ros2_humble.Transport.{Transport, Request, find, erase, assign}
use wsg50_ros2_humble.Transport.Replies.{answer, note_reply, settle_request, handle_frame}
use wsg50_ros2_humble.Transport.Invariant.{IsOrderly, Ascending}
use wsg50_ros2_humble.Transport.Invariant.Flight.{find_id, find_below, flying-erase}
use wsg50_ros2_humble.Transport.Invariant.Settle.{set_value_held}

find-erase_other : (k j : ℕ) (m : List (ℕ × Request)) → k ≢ j → find k (erase j m) ≡ find k m
unfolding find erase
find-erase_other k j [] h = refl
find-erase_other k j ((i, r) ∷ m) h = ground (arith, find-erase_other k j m)

find-assign_other :
    (k j : ℕ) (r : Request) (m : List (ℕ × Request)) → k ≢ j → find k (assign j r m) ≡ find k m
unfolding find assign
find-assign_other k j r [] h = ground arith
find-assign_other k j r ((i, x) ∷ m) h = ground (arith, find-assign_other k j r m)

find-erase_self : (k low : ℕ) (m : List (ℕ × Request)) → Ascending low m → find k (erase k m) ≡ none
unfolding find erase
find-erase_self k low [] a = refl
find-erase_self k low ((i, r) ∷ m) (lo, e, a) =
    ground (arith, find-erase_self k (suc i) m, find_below k (suc i) m)

-- What becomes of a frame with an id: nothing, for it is too short or nothing is in flight under the
-- id; a longer wait of the request under the id; or the answer to it.
pub data Routed (now id : ℕ) (payload : Bytes) (t t' : Transport) : Type 0 where
  ignored :
      (length payload < 2) ⊎ (find id t.in_flight ≡ none)
      → t'.in_flight ≡ t.in_flight
      → t'.settled ≡ t.settled
      → Routed now id payload t t'
  prolonged :
      (r : Request)
      → find id t.in_flight ≡ some r
      → r.id ≡ id
      → (r.allow_pending ≡ true) × (read_u16 payload ≡ status_command_pending)
      → find id t'.in_flight ≡ some (record r { deadline = now + r.timeout })
      → t'.settled ≡ t.settled
      → Routed now id payload t t'
  answered :
      (r : Request)
      → find id t.in_flight ≡ some r
      → r.id ≡ id
      → (r.allow_pending && read_u16 payload == status_command_pending) ≡ false
      → find id t'.in_flight ≡ none
      → t'.settled ≡ (r.promise, answer (read_u16 payload) payload) ∷ t.settled
      → Routed now id payload t t'

-- The frame is routed, and no other request is touched.
pub record Routes (now id : ℕ) (payload : Bytes) (t t' : Transport) : Type 0 where
  pub routed : Routed now id payload t t'
  pub others : (k : ℕ) → k ≢ id → find k t'.in_flight ≡ find k t.in_flight
  pub queued : (t'.queue ≡ t.queue) × (t'.priority_queue ≡ t.priority_queue)

module _ (now id : ℕ) (payload : Bytes) (t : Transport) (v : IsOrderly t) where
  abbrev updated : Transport
  updated = record t { state = update_state now id (read_u16 payload) payload t.state }

  ignored-Routes :
      (s : DeviceState)
      → (length payload < 2) ⊎ (find id t.in_flight ≡ none)
      → Routes now id payload t (record t { state = s })
  ignored-Routes s why = record {
    routed = ignored why refl refl;
    others = λ k h. refl;
    queued = (refl, refl);
  }

  found-Routes :
      (r : Request)
      → find id t.in_flight ≡ some r
      → Returns
          (Routes now id payload t)
          (settle_request now id (read_u16 payload) payload (some r) updated)
  unfolding settle_request
  found-Routes r e =
      let same = find_id id 0 t.in_flight v.keyed e in
      elim (Bool-cases (r.allow_pending && read_u16 payload == status_command_pending)) [
        | inl pending ↦ rw pending (record {
          routed =
              prolonged r e same (ground (arith, ==_iff (read_u16 payload) status_command_pending))
                (find-assign id (record r { deadline = now + r.timeout }) t.in_flight) refl;
          others =
              λ k h. find-assign_other k id (record r { deadline = now + r.timeout }) t.in_flight h;
          queued = (refl, refl);
        })
        | inr final ↦
            let taken = record t {
              in_flight = erase id t.in_flight;
              state = note_reply (read_u16 payload) updated.state;
            } in
            let set =
              set_value_held r.promise (answer (read_u16 payload) payload) taken (λ k. 0)
                (λ k. omega (arith, v.accounted k, flying-erase k id t.in_flight r e)) in
            rw (final, set)
              (record {
                routed = answered r e same final (find-erase_self id 0 t.in_flight v.keyed) refl;
                others = λ k h. find-erase_other k id t.in_flight h;
                queued = (refl, refl);
              })
      ]

-- On an orderly transport handle_frame returns: a frame that is too short or whose id is not
-- in flight leaves all requests alone; an allowed "command pending" moves the deadline of the
-- request with that id; any other answers and removes it. Requests with other ids and the
-- queues stay as they were.
pub handle_frame-Routes :
    (now id : ℕ) (payload : Bytes) (t : Transport)
    → IsOrderly t
    → Returns (Routes now id payload t) (handle_frame now id payload t)
unfolding handle_frame settle_request
handle_frame-Routes now id payload t v =
    if_both (Returns (Routes now id payload t)) (ltb (length payload) 2) (returns t)
      (settle_request now id (read_u16 payload) payload (find id t.in_flight)
        (updated now id payload t v))
      (λ short. ignored-Routes now id payload t v t.state (inl (ground arith)))
      (λ _. elim (Option-cases (find id t.in_flight)) [
        | inl free ↦ rw (free, settle_request) (ignored-Routes now id payload t v _ (inr free))
        | inr (r, e) ↦ rw e (found-Routes now id payload t v r e)
      ])
