-- ===== src/Transport/Invariant/Worker.antt =====
-- The worker thread of wsg50_driver/src/transport.cpp: receive_available, each round of run() and
-- run() as a whole, and the invariant of the transport.
use wsg50_ros2_humble.Base.{
  ℕ, ◌<◌, ◌≡◌, refl, sym, Bool, true, false, List, [], ◌∷◌, ◌++◌, Option, none, some, ltb, if_both,
  subst, Outcome, returns, Safely, Safely-bind, Returns, Returns-bind, Returns-Safely, ◌>>=◌,
}
use wsg50_ros2_humble.Wire.Bytes.{Bytes}
use wsg50_ros2_humble.Parser.{parse_frames}
use wsg50_ros2_humble.Parser.Frames.{Frame, Decoded, decode_total, run_frames, parse_frames-Decodes}
use wsg50_ros2_humble.Transport.{Transport}
use wsg50_ros2_humble.Transport.Requests.{queue_state_streaming}
use wsg50_ros2_humble.Transport.Link.{connect_socket}
use wsg50_ros2_humble.Transport.Replies.{handle_frame}
use wsg50_ros2_humble.Transport.Dispatch.{dispatch_requests}
use wsg50_ros2_humble.Transport.Worker.{
  ReceiveResult, received, closed, would_block, interrupted, broken, ReceiveRound, parse_received,
  receive_available, PollResult, nothing, error_event, readable, poll_failed, Turn, Worker, put_off,
  after_poll, serve, after_connect, round_of, run_round, Rounds, stopped, round, run_exit, run,
}
use wsg50_ros2_humble.Transport.Invariant.{times_set, IsOrderly}
use wsg50_ros2_humble.Transport.Invariant.Client.{queue_state_streaming-IsOrderly}
use wsg50_ros2_humble.Transport.Invariant.Link.{
  disconnect-IsOrderly, disconnect-IsDown, expire_requests-IsOrderly, ConnectEnd, up, down,
  connect_socket_ends,
}
use wsg50_ros2_humble.Transport.Invariant.Replies.{handle_frame-Returns}
use wsg50_ros2_humble.Transport.Invariant.Dispatch.Sending.{dispatch_requests-Safely}

run_frames-Returns :
    (now : ℕ) (fs : List Frame) (t : Transport)
    → IsOrderly t
    → Returns IsOrderly (run_frames (handle_frame now) fs t)
unfolding run_frames
run_frames-Returns now [] t v = v
run_frames-Returns now (f ∷ fs) t v =
    Returns-bind IsOrderly IsOrderly (handle_frame now f.id f.payload t) _
      (handle_frame-Returns now f.id f.payload t v) (run_frames-Returns now fs)

pub set_buffer-IsOrderly :
    (t : Transport) (b : Bytes) → IsOrderly t → IsOrderly (record t { receive_buffer = b })
set_buffer-IsOrderly t b v = record {
  accounted = v.accounted;
  keyed = v.keyed;
  offline_flight = v.offline_flight;
  offline_queue = v.offline_queue;
  offline_priority = v.offline_priority;
  shown = v.shown;
  linked = v.linked;
}

-- On every receive buffer of an orderly transport, parse_frames with handle_frame returns: it
-- comes to an end and sets no promise a second time. The transport is orderly afterwards.
pub parse_received-Returns :
    (now : ℕ) (t : Transport) → IsOrderly t → Returns IsOrderly (parse_received now t)
unfolding parse_received
parse_received-Returns now t v =
    Returns-bind (λ (x : Bytes × Transport). IsOrderly x.1) IsOrderly
      (parse_frames (handle_frame now) t.options.max_payload_size t.receive_buffer t) _
      (subst (Returns (λ (x : Bytes × Transport). IsOrderly x.1))
        (sym (parse_frames-Decodes (handle_frame now) _ t d.decodes))
        (Returns-bind IsOrderly (λ (x : Bytes × Transport). IsOrderly x.1)
          (run_frames (handle_frame now) d.frames t) _ (run_frames-Returns now d.frames t v)
          (λ t' v'. v')))
      (λ x v'. set_buffer-IsOrderly x.1 x.0 v')
  where
    d : Decoded t.options.max_payload_size t.receive_buffer
    d = decode_total t.options.max_payload_size t.receive_buffer

abbrev SafeFlag : Outcome (Bool × Transport) → Type 0
SafeFlag = Safely (λ (x : Bool × Transport). IsOrderly x.1)

receive_round-Safely :
    (r : ReceiveRound) (rounds : List ReceiveRound) (t : Transport)
    → ((u : Transport) → IsOrderly u → SafeFlag (receive_available rounds u))
    → IsOrderly t
    → SafeFlag (receive_available (r ∷ rounds) t)
receive_round-Safely r rounds t next v = by_test r.running r.result refl refl
  where
    by_test :
        (running : Bool) (result : ReceiveResult)
        → r.running ≡ running
        → r.result ≡ result
        → SafeFlag (receive_available (r ∷ rounds) t)
    by_test false result e e' = unfold receive_available in rw (e, receive_available) v
    by_test true (received bytes) e e' =
        let u = record t { receive_buffer = t.receive_buffer ++ bytes } in
        unfold receive_available in
        rw (e, e', receive_available)
          (Safely-bind IsOrderly (λ (x : Bool × Transport). IsOrderly x.1) (parse_received r.now u)
            (receive_available rounds)
            (Returns-Safely IsOrderly (parse_received r.now u)
              (parse_received-Returns r.now u (set_buffer-IsOrderly t _ v)))
            next)
    by_test true closed e e' =
        unfold receive_available in
        rw (e, e', receive_available) (disconnect-IsOrderly r.now _ t v.accounted)
    by_test true would_block e e' = unfold receive_available in rw (e, e', receive_available) v
    by_test true interrupted e e' =
        unfold receive_available in rw (e, e', receive_available) (next t v)
    by_test true (broken error) e e' =
        unfold receive_available in
        rw (e, e', receive_available) (disconnect-IsOrderly r.now _ t v.accounted)

pub receive_available-Safely :
    (rounds : List ReceiveRound) (t : Transport)
    → IsOrderly t
    → SafeFlag (receive_available rounds t)
receive_available-Safely [] t v = unfold receive_available in tt
receive_available-Safely (r ∷ rounds) t v =
    receive_round-Safely r rounds t (receive_available-Safely rounds) v

abbrev WorkerOrderly : Worker → Type 0
WorkerOrderly w = IsOrderly w.transport

after_poll-Safely :
    (p : PollResult) (turn : Turn) (next : ℕ) (t : Transport)
    → IsOrderly t
    → Safely WorkerOrderly (after_poll p turn next t)
unfolding after_poll put_off
after_poll-Safely nothing turn next t v = expire_requests-IsOrderly turn.later t v
after_poll-Safely error_event turn next t v = disconnect-IsOrderly turn.later _ t v.accounted
after_poll-Safely (poll_failed error) turn next t v =
    disconnect-IsOrderly turn.later _ t v.accounted
after_poll-Safely (readable rounds) turn next t v =
    Safely-bind (λ (x : Bool × Transport). IsOrderly x.1) WorkerOrderly (receive_available rounds t)
      _ (receive_available-Safely rounds t v)
      (λ x v'.
        if_both WorkerOrderly x.0 _ _ (λ _. expire_requests-IsOrderly turn.later x.1 v') (λ _. v'))

serve-Safely :
    (turn : Turn) (next : ℕ) (t : Transport)
    → IsOrderly t
    → Safely WorkerOrderly (serve turn next t)
unfolding serve
serve-Safely turn next t v =
    Safely-bind IsOrderly WorkerOrderly (dispatch_requests turn.now turn.send t) _
      (dispatch_requests-Safely turn.now turn.send t v) (after_poll-Safely turn.poll turn next)

abbrev RoundOrderly : Bool × Worker → Type 0
RoundOrderly x = WorkerOrderly x.1

flagged-Safely :
    (m : Outcome Worker)
    → Safely WorkerOrderly m
    → Safely RoundOrderly (m >>= λ w. returns (true, w))
flagged-Safely m h = Safely-bind WorkerOrderly RoundOrderly m _ h (λ w v. v)

after_connect-Safely :
    (turn : Turn) (next : ℕ) (t : Transport) (ok : Bool) (t' : Transport)
    → IsOrderly t'
    → ConnectEnd t ok t'
    → Safely RoundOrderly (after_connect turn next (ok, t'))
unfolding after_connect
after_connect-Safely turn next t false t' v c = v
after_connect-Safely turn next t true t' v (down text e e') = cc
after_connect-Safely turn next t true t' v (up e on empty generation) =
    let u = queue_state_streaming t' in
    if_both (Safely RoundOrderly) turn.still_running (serve turn next u >>= λ w. returns (true, w))
      (returns (false, record { transport = t'; next_connect = next }))
      (λ _.
        flagged-Safely (serve turn next u)
          (serve-Safely turn next u (queue_state_streaming-IsOrderly t' on v)))
      (λ _. v)

-- A round of run() throws nothing and keeps the transport orderly.
pub run_round-Safely :
    (turn : Turn) (w : Worker) → IsOrderly w.transport → Safely RoundOrderly (run_round turn w)
unfolding run_round
run_round-Safely turn w v = by_socket w.transport.socket
  where
    by_socket : (s : Option ℕ) → Safely RoundOrderly (round_of turn s w)
    by_socket none =
        let r = connect_socket turn.connect w.transport in
        let ends = connect_socket_ends turn.connect w.transport v in
        if_both (Safely RoundOrderly) (ltb turn.now w.next_connect) (returns (true, w))
          (after_connect turn w.next_connect r) (λ _. v)
          (λ _. after_connect-Safely turn w.next_connect w.transport r.0 r.1 ends.0 ends.1)
    by_socket (some fd) =
        flagged-Safely (serve turn w.next_connect w.transport)
          (serve-Safely turn w.next_connect w.transport v)

-- What run() leaves behind.
pub record IsOver (t : Transport) : Type 0 where
  pub orderly : IsOrderly t
  pub offline : t.connected ≡ false
  pub all_set : (k : ℕ) → k < t.promises → times_set k t.settled ≡ 1

run_exit-IsOver : (now : ℕ) (w : Worker) → IsOrderly w.transport → IsOver (run_exit now w)
unfolding run_exit
run_exit-IsOver now w v =
    let d = disconnect-IsDown now "transport stopped" w.transport v.accounted in
    record {
      orderly = disconnect-IsOrderly now "transport stopped" w.transport v.accounted;
      offline = d.offline;
      all_set = d.all_set;
    }

-- From an orderly transport and for every script of system calls, run() throws nothing; if it
-- ends, the connection is down and every promise that was ever made has been set exactly once.
pub run-Safely :
    (rounds : Rounds) (w : Worker) → IsOrderly w.transport → Safely IsOver (run rounds w)
unfolding run
run-Safely (stopped now) w v = run_exit-IsOver now w v
run-Safely (round turn rest) w v =
    Safely-bind RoundOrderly IsOver (run_round turn w) _ (run_round-Safely turn w v)
      (by_flag (run-Safely rest))
  where
    by_flag :
        ((u : Worker) → IsOrderly u.transport → Safely IsOver (run rest u))
        → (x : Bool × Worker) → RoundOrderly x
        → Safely IsOver
            (elim x.0 [ true ↦ run rest x.1 | false ↦ returns (run_exit turn.later x.1) ])
    by_flag next (true, u) v' = next u v'
    by_flag next (false, u) v' = run_exit-IsOver turn.later u v'
