-- ===== src/Transport/Invariant/Exchange.antt =====
-- A command from Transport::command to the reply, over dispatch_requests and handle_frame of
-- wsg50_driver/src/transport.cpp.
use wsg50_ros2_humble.Base.{
  ℕ, ◌+◌, ◌≤◌, ◌≡◌, refl, ap, Bool, true, false, List, [], ◌∷◌, ◌++◌, ◌&&◌, ◌==◌, arith, length,
  Option, some, returns, Returns, ◌∙◌, subst, sym, le→not-ltb,
}
use wsg50_ros2_humble.Wire.Bytes.{Bytes, read_u16}
use wsg50_ros2_humble.Wire.Frame.{encode_frame}
use wsg50_ros2_humble.Wire.Frame.Shape.{encode_frame_shape}
use wsg50_ros2_humble.Device.{CommandReply, update_state, status_command_pending}
use wsg50_ros2_humble.Transport.{Transport, Request, find, erase, assign, set_value}
use wsg50_ros2_humble.Transport.Requests.{make_request, command}
use wsg50_ros2_humble.Transport.Link.{SendRound}
use wsg50_ros2_humble.Transport.Replies.{answer, note_reply, settle_request, handle_frame}
use wsg50_ros2_humble.Transport.Dispatch.{
  put_in_flight, pick_normal, pick_from, pick_request, send_frame, send_picked, dispatch_requests,
}
use wsg50_ros2_humble.Transport.Invariant.{times_set, IsOrderly}
use wsg50_ros2_humble.Transport.Invariant.Settle.{is_settled_fresh}
use wsg50_ros2_humble.Transport.Invariant.Link.Progress.{AllTake, send_all_completes}

-- The connection is up and nothing waits.
pub record IsIdle (t : Transport) : Type 0 where
  pub online : t.connected ≡ true
  pub no_flight : t.in_flight ≡ []
  pub no_queue : t.queue ≡ []
  pub no_priority : t.priority_queue ≡ []

send_picked-sends :
    (rounds : List SendRound) (r : Request) (t t' : Transport)
    → AllTake rounds
    → length r.payload ≤ 65535
    → length (encode_frame r.id r.payload) ≤ length rounds
    → send_picked rounds (some (r, t')) t
      ≡ returns (record t' { written = t'.written ++ encode_frame r.id r.payload })
unfolding send_picked send_frame
send_picked-sends rounds r t t' takes small enough =
    let (tail, two, shape) = encode_frame_shape r.id r.payload small in
    by_frame (encode_frame r.id r.payload) shape enough
  where
    by_frame :
        {a : ℕ} {rest : Bytes} (frame : Bytes)
        → frame ≡ a ∷ rest
        → length frame ≤ length rounds
        → send_frame rounds r frame t' ≡ returns (record t' { written = t'.written ++ frame })
    by_frame {a} {rest} frame e fits =
        subst (λ f. send_frame rounds r f t' ≡ returns (record t' { written = t'.written ++ f }))
          (sym e)
          (rw
            (send_all_completes rounds (a ∷ rest) t' takes
              (subst (λ f. length f ≤ length rounds) e fits))
            refl)

find_own : (id : ℕ) (r : Request) → find id ((id, r) ∷ []) ≡ some r
unfolding find
find_own id r = ground arith

erase_own : (id : ℕ) (r : Request) → erase id ((id, r) ∷ []) ≡ []
unfolding erase
erase_own id r = ground arith

-- The final reply to the only request in flight sets its promise to the reply.
handle_frame-answers :
    (now id : ℕ) (reply : Bytes) (r : Request) (t : Transport)
    → t.in_flight ≡ (id, r) ∷ []
    → times_set r.promise t.settled ≡ 0
    → 2 ≤ length reply
    → (r.allow_pending && read_u16 reply == status_command_pending) ≡ false
    → handle_frame now id reply t
      ≡ returns (record t {
        in_flight = [];
        state = note_reply (read_u16 reply) (update_state now id (read_u16 reply) reply t.state);
        settled = (r.promise, answer (read_u16 reply) reply) ∷ t.settled;
      })
unfolding handle_frame settle_request find erase set_value
handle_frame-answers now id reply r t flight fresh long final =
    rw
      (
        le→not-ltb (length reply) 2 long,
        flight,
        find_own id r,
        settle_request,
        final,
        is_settled_fresh r.promise t.settled fresh,
        erase_own id r,
      )
      refl

-- A request is taken over: it alone is in flight.
record TakenOver (t : Transport) (r : Request) (o : Option (Request × Transport)) : Type 0 where
  after : Transport
  picked : o ≡ some (r, after)
  flight : after.in_flight ≡ (r.id, r) ∷ []
  settled : after.settled ≡ t.settled
  written : after.written ≡ t.written
  options : after.options ≡ t.options
  buffer : after.receive_buffer ≡ t.receive_buffer

module _ (id : ℕ) (payload : Bytes) (allow_pending : Bool) (timeout : ℕ) (t : Transport)
    (idle : IsIdle t) (now : ℕ) where
  abbrev dispatched : Request
  dispatched = record (make_request id payload allow_pending false timeout t) {
    deadline = now + timeout;
  }

  command-TakenOver :
      (priority : Bool)
      → TakenOver t dispatched
          (pick_request now (command id payload allow_pending timeout priority t).1)
  unfolding pick_request pick_from pick_normal put_in_flight find assign command
  command-TakenOver true =
      rw (idle.online, idle.no_priority, idle.no_flight)
        (record {
          after = _;
          picked = refl;
          flight = refl;
          settled = refl;
          written = refl;
          options = refl;
          buffer = refl;
        })
  command-TakenOver false =
      rw (idle.online, idle.no_priority, idle.no_queue, idle.no_flight)
        (record {
          after = _;
          picked = refl;
          flight = refl;
          settled = refl;
          written = refl;
          options = refl;
          buffer = refl;
        })

-- What is left after the reply: the promise is set to it, once and last, the frame of the command
-- has been written behind what was written before, and nothing is in flight.
pub record IsAnswered (id : ℕ) (payload reply : Bytes) (t t' : Transport) : Type 0 where
  pub answered : t'.settled ≡ (t.promises, answer (read_u16 reply) reply) ∷ t.settled
  pub sent : t'.written ≡ t.written ++ encode_frame id payload
  pub no_flight : t'.in_flight ≡ []
  pub options : t'.options ≡ t.options

-- The frame of the command has been written, and the command alone is in flight.
pub record Awaits (id : ℕ) (payload : Bytes) (allow_pending : Bool) (t t' : Transport)
    : Type 0 where
  pub request : Request
  pub flight : t'.in_flight ≡ (id, request) ∷ []
  pub promised : request.promise ≡ t.promises
  pub pending : request.allow_pending ≡ allow_pending
  pub settled : t'.settled ≡ t.settled
  pub written : t'.written ≡ t.written ++ encode_frame id payload
  pub options : t'.options ≡ t.options

-- dispatch_requests sends a command of an idle transport.
pub dispatch_requests-Awaits :
    (id : ℕ) (payload : Bytes) (allow_pending : Bool) (timeout : ℕ) (priority : Bool)
    (t : Transport) (now : ℕ) (rounds : List SendRound)
    → IsIdle t
    → AllTake rounds
    → length payload ≤ 65535
    → length (encode_frame id payload) ≤ length rounds
    → Returns
        (λ (t' : Transport).
          Awaits id payload allow_pending t t' × (t'.receive_buffer ≡ t.receive_buffer))
        (dispatch_requests now rounds (command id payload allow_pending timeout priority t).1)
unfolding dispatch_requests
dispatch_requests-Awaits id payload allow_pending timeout priority t now rounds idle takes small
      enough =
    let x = command-TakenOver id payload allow_pending timeout t idle now priority in
    let r = dispatched id payload allow_pending timeout t idle now in
    rw
      (
        x.picked,
        send_picked-sends rounds r (command id payload allow_pending timeout priority t).1 x.after
            takes small enough,
      )
      (
        record {
          request = r;
          flight = x.flight;
          promised = refl;
          pending = refl;
          settled = x.settled;
          written = ap (λ w. w ++ encode_frame id payload) x.written;
          options = x.options;
        },
        x.buffer,
      )

-- The final reply answers the command.
pub handle_frame-IsAnswered :
    (id : ℕ) (payload : Bytes) (allow_pending : Bool) (t : Transport) (later : ℕ) (reply : Bytes)
    (t' : Transport)
    → IsOrderly t
    → 2 ≤ length reply
    → (allow_pending && read_u16 reply == status_command_pending) ≡ false
    → Awaits id payload allow_pending t t'
    → Returns (IsAnswered id payload reply t) (handle_frame later id reply t')
handle_frame-IsAnswered id payload allow_pending t later reply t' v long final a =
    rw
      (handle_frame-answers later id reply a.request t' a.flight fresh long
        (ap (λ p. p && read_u16 reply == status_command_pending) a.pending ∙ final))
      (record {
        answered = entry a.promised a.settled;
        sent = a.written;
        no_flight = refl;
        options = a.options;
      })
  where
    fresh : times_set a.request.promise t'.settled ≡ 0
    fresh =
        subst (λ k. times_set k t'.settled ≡ 0) (sym a.promised)
          (subst (λ s. times_set t.promises s ≡ 0) (sym a.settled)
            (let b = v.accounted t.promises in ground arith))

    entry :
        {k : ℕ} {s : List (ℕ × CommandReply)}
        → k ≡ t.promises
        → s ≡ t.settled
        → (k, answer (read_u16 reply) reply) ∷ s
          ≡ (t.promises, answer (read_u16 reply) reply) ∷ t.settled
    entry e e' = rw (e, e') refl
