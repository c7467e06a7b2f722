-- ===== src/Transport/Invariant/Replies.antt =====
-- handle_frame of wsg50_driver/src/transport.cpp and the invariant of the transport: the promise
-- that it sets.
use wsg50_ros2_humble.Base.{
  ℕ, ◌+◌, ◌≡◌, refl, sym, ◌∙◌, false, Option, none, some, ltb, ◌==◌, arith, if_both, returns,
  Returns, ◌&&◌, length,
}
use wsg50_ros2_humble.Wire.Bytes.{Bytes, read_u16}
use wsg50_ros2_humble.Device.{CommandReply, DeviceState, update_state, status_command_pending}
use wsg50_ros2_humble.Transport.{Transport, Request, find, erase, assign, set_value}
use wsg50_ros2_humble.Transport.Replies.{answer, note_reply, settle_request, handle_frame}
use wsg50_ros2_humble.Transport.Invariant.{one_if, Balance, IsOrderly}
use wsg50_ros2_humble.Transport.Invariant.Flight.{
  find_id, Ascending-erase, Ascending-assign, flying-erase, flying-assign_found,
}
use wsg50_ros2_humble.Transport.Invariant.Settle.{set_value_held}

pub update_state-connected :
    (now id status : ℕ) (payload : Bytes) (s : DeviceState)
    → (update_state now id status payload s).connected ≡ s.connected
unfolding update_state
update_state-connected now id status payload s = ground arith

note_reply-connected :
    (status : ℕ) (s : DeviceState) → (note_reply status s).connected ≡ s.connected
unfolding note_reply
note_reply-connected status s = ground arith

set_state-IsOrderly :
    (t : Transport) (s : DeviceState)
    → s.connected ≡ t.state.connected
    → IsOrderly t
    → IsOrderly (record t { state = s })
set_state-IsOrderly t s e v = record {
  accounted = v.accounted;
  keyed = v.keyed;
  offline_flight = v.offline_flight;
  offline_queue = v.offline_queue;
  offline_priority = v.offline_priority;
  shown = e ∙ v.shown;
  linked = v.linked;
}

module _ (id : ℕ) (t : Transport) (v : IsOrderly t) (r : Request)
    (found : find id t.in_flight ≡ some r) where
  -- Where something is in flight the connection is up.
  online : {A : Type 0} → t.connected ≡ false → A
  online off = absurd (unfold find in ground (arith, v.offline_flight off))

  prolonged-IsOrderly :
      (deadline : ℕ)
      → IsOrderly
          (record t { in_flight = assign id (record r { deadline = deadline }) t.in_flight })
  prolonged-IsOrderly deadline = record {
    accounted = λ k. omega (
      arith,
      v.accounted k,
      flying-assign_found k id 0 (record r { deadline = deadline }) r t.in_flight v.keyed found
          refl,
    );
    keyed =
        Ascending-assign id 0 (record r { deadline = deadline }) t.in_flight (omega arith)
          (sym (find_id id 0 t.in_flight v.keyed found)) v.keyed;
    offline_flight = λ off. online off;
    offline_queue = v.offline_queue;
    offline_priority = v.offline_priority;
    shown = v.shown;
    linked = v.linked;
  }

  taken : DeviceState → Transport
  taken s = record t { in_flight = erase id t.in_flight; state = s }

  taken-Balance : (s : DeviceState) → Balance (λ k. one_if (r.promise == k) + 0) (taken s)
  unfolding taken
  taken-Balance s k = omega (arith, v.accounted k, flying-erase k id t.in_flight r found)

  answered-IsOrderly :
      (reply : CommandReply) (s : DeviceState)
      → s.connected ≡ t.state.connected
      → Returns IsOrderly (set_value r.promise reply (taken s))
  unfolding taken
  answered-IsOrderly reply s e =
      rw (set_value_held r.promise reply (taken s) (λ k. 0) (taken-Balance s)) (record {
        accounted = λ k. omega (arith, taken-Balance s k);
        keyed = Ascending-erase id 0 t.in_flight v.keyed;
        offline_flight = λ off. online off;
        offline_queue = v.offline_queue;
        offline_priority = v.offline_priority;
        shown = e ∙ v.shown;
        linked = v.linked;
      })

settle_request-Returns :
    (now id status : ℕ) (payload : Bytes) (t : Transport) (o : Option Request)
    → find id t.in_flight ≡ o
    → IsOrderly t
    → Returns IsOrderly (settle_request now id status payload o t)
unfolding settle_request taken
settle_request-Returns now id status payload t none e v = v
settle_request-Returns now id status payload t (some r) e v =
    if_both (Returns IsOrderly) (r.allow_pending && status == status_command_pending)
      (returns
        (record t { in_flight = assign id (record r { deadline = now + r.timeout }) t.in_flight }))
      (set_value r.promise (answer status payload) (taken id t v r e (note_reply status t.state)))
      (λ _. prolonged-IsOrderly id t v r e (now + r.timeout))
      (λ _.
        answered-IsOrderly id t v r e (answer status payload) (note_reply status t.state)
          (note_reply-connected status t.state))

-- On every frame, handle_frame returns from an orderly transport, so its set_value throws nothing,
-- and leaves the transport orderly.
pub handle_frame-Returns :
    (now id : ℕ) (payload : Bytes) (t : Transport)
    → IsOrderly t
    → Returns IsOrderly (handle_frame now id payload t)
unfolding handle_frame
handle_frame-Returns now id payload t v =
    let status = read_u16 payload in
    let updated = record t { state = update_state now id status payload t.state } in
    if_both (Returns IsOrderly) (ltb (length payload) 2) (returns t)
      (settle_request now id status payload (find id t.in_flight) updated) (λ _. v)
      (λ _.
        settle_request-Returns now id status payload updated (find id t.in_flight) refl
          (set_state-IsOrderly t _ (update_state-connected now id status payload t.state) v))
