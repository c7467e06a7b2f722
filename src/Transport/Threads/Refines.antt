-- ===== src/Transport/Threads/Refines.antt =====
-- run() of wsg50_driver/src/transport.cpp, each operation of which is one step in Transport/Worker,
-- as a run of the interleaved steps.
use wsg50_ros2_humble.Base.{
  ℕ, ◌≡◌, refl, subst, Bool, true, false, List, [], ◌∷◌, ◌++◌, Option, none, some, ltb, if_both,
  Outcome, returns, Returns-Safely, Safely, Safely-bind, ◌>>=◌,
}
use wsg50_ros2_humble.Transport.{Transport, Request}
use wsg50_ros2_humble.Transport.Requests.{queue_state_streaming}
use wsg50_ros2_humble.Transport.Link.{
  connect_socket, with_descriptor, ConnectScript, connection_ready,
}
use wsg50_ros2_humble.Transport.Dispatch.{dispatch_requests}
use wsg50_ros2_humble.Transport.Worker.{
  ReceiveResult, received, closed, would_block, interrupted, broken, ReceiveRound, parse_received,
  receive_available, PollResult, nothing, error_event, readable, poll_failed, Turn, Worker, put_off,
  after_poll, serve, after_connect, round_of, run_round, Rounds, stopped, round, run_exit, run,
}
use wsg50_ros2_humble.Transport.Invariant.{IsOrderly}
use wsg50_ros2_humble.Transport.Invariant.Client.{queue_state_streaming-IsOrderly}
use wsg50_ros2_humble.Transport.Invariant.Link.{ConnectEnd, up, down, connect_socket_ends}
use wsg50_ros2_humble.Transport.Threads.{
  Pc, Step, resting, over, stop_run, System, system, connect, goes_online, connect_fails, stream,
  close_last, stops,
}
use wsg50_ros2_humble.Transport.Threads.Rounds.{WorkerSteps, stay, andthen, closed-Steps}
use wsg50_ros2_humble.Transport.Threads.Runs.{
  Kept, set_buffer-Kept, disconnect-Kept, expire_requests-Kept, dispatch_requests-Kept,
  parse_received-Kept, halted, disconnect-halted,
}

module _ (s : System) (refused : List Request) where
  abbrev KeptFlag : Bool × Transport → Type 0
  KeptFlag x = Kept s refused x.1

  received_round :
      (r : ReceiveRound) (rounds : List ReceiveRound) (t : Transport)
      → ((u : Transport) → Kept s refused u → Safely KeptFlag (receive_available rounds u))
      → Kept s refused t
      → Safely KeptFlag (receive_available (r ∷ rounds) t)
  received_round r rounds t next k = by_test r.running r.result refl refl
    where
      by_test :
          (running : Bool) (result : ReceiveResult)
          → r.running ≡ running
          → r.result ≡ result
          → Safely KeptFlag (receive_available (r ∷ rounds) t)
      by_test false result e e' = unfold receive_available in rw (e, receive_available) k
      by_test true (received bytes) e e' =
          let u = record t { receive_buffer = t.receive_buffer ++ bytes } in
          unfold receive_available in
          rw (e, e', receive_available)
            (Safely-bind (Kept s refused) KeptFlag (parse_received r.now u)
              (receive_available rounds)
              (Returns-Safely (Kept s refused) (parse_received r.now u) (
                parse_received-Kept s refused r.now u
                  (set_buffer-Kept s refused t (t.receive_buffer ++ bytes) k)))
              next)
      by_test true closed e e' =
          unfold receive_available in
          rw (e, e', receive_available) (disconnect-Kept s refused r.now _ t k)
      by_test true would_block e e' = unfold receive_available in rw (e, e', receive_available) k
      by_test true interrupted e e' =
          unfold receive_available in rw (e, e', receive_available) (next t k)
      by_test true (broken error) e e' =
          unfold receive_available in
          rw (e, e', receive_available) (disconnect-Kept s refused r.now _ t k)

  receive_available-Kept :
      (rounds : List ReceiveRound) (t : Transport)
      → Kept s refused t
      → Safely KeptFlag (receive_available rounds t)
  receive_available-Kept [] t k = unfold receive_available in tt
  receive_available-Kept (r ∷ rounds) t k =
      received_round r rounds t (receive_available-Kept rounds) k

  abbrev WorkerKept : Worker → Type 0
  WorkerKept w = Kept s refused w.transport

  abbrev RoundKept : Bool × Worker → Type 0
  RoundKept x = WorkerKept x.1

  after_poll-Kept :
      (p : PollResult) (turn : Turn) (next : ℕ) (t : Transport)
      → Kept s refused t
      → Safely WorkerKept (after_poll p turn next t)
  unfolding after_poll put_off
  after_poll-Kept nothing turn next t k = expire_requests-Kept s refused turn.later t k
  after_poll-Kept error_event turn next t k = disconnect-Kept s refused turn.later _ t k
  after_poll-Kept (poll_failed error) turn next t k = disconnect-Kept s refused turn.later _ t k
  after_poll-Kept (readable rounds) turn next t k =
      Safely-bind KeptFlag WorkerKept (receive_available rounds t) _
        (receive_available-Kept rounds t k)
        (λ x k'.
          if_both WorkerKept x.0 _ _ (λ _. expire_requests-Kept s refused turn.later x.1 k')
            (λ _. k'))

  serve-Kept :
      (turn : Turn) (next : ℕ) (t : Transport)
      → Kept s refused t
      → Safely WorkerKept (serve turn next t)
  unfolding serve
  serve-Kept turn next t k =
      Safely-bind (Kept s refused) WorkerKept (dispatch_requests turn.now turn.send t) _
        (dispatch_requests-Kept s refused turn.now turn.send t k)
        (after_poll-Kept turn.poll turn next)

  kept_flagged :
      (m : Outcome Worker) → Safely WorkerKept m → Safely RoundKept (m >>= λ w. returns (true, w))
  kept_flagged m h = Safely-bind WorkerKept RoundKept m _ h (λ w k. k)

  queue_state_streaming-Kept :
      (t : Transport)
      → t.connected ≡ true
      → Kept s refused t
      → Kept s refused (queue_state_streaming t)
  queue_state_streaming-Kept t on k = record {
    orderly = queue_state_streaming-IsOrderly t on k.orderly;
    path = andthen k.path (stream on);
  }

  connected_path :
      (script : ConnectScript) (t : Transport)
      → t.socket ≡ none
      → WorkerSteps s (system t resting refused)
      → WorkerSteps s (system (connect_socket script t).1 resting refused)
  unfolding connect_socket
  connected_path script t free path = by_descriptor script.descriptor
    where
      by_descriptor :
          (d : Option ℕ) → WorkerSteps s (system (with_descriptor script d t).1 resting refused)
      by_descriptor none = unfold with_descriptor in path
      by_descriptor (some fd) =
          unfold with_descriptor in
          if_both (λ (x : Bool × Transport). WorkerSteps s (system x.1 resting refused))
            script.non_blocking _ _
            (λ _.
              if_both (λ (x : Bool × Transport). WorkerSteps s (system x.1 resting refused))
                script.valid_address _ _
                (λ _.
                  if_both (λ (x : Bool × Transport). WorkerSteps s (system x.1 resting refused))
                    (connection_ready script.result) _ _
                    (λ _. andthen (andthen path (connect fd script.now free)) goes_online)
                    (λ _. path))
                (λ _. andthen path (connect_fails "invalid IPv4 address" free)))
            (λ _. path)

  after_connect-Kept :
      (turn : Turn) (next : ℕ) (t : Transport) (ok : Bool) (t' : Transport)
      → Kept s refused t'
      → ConnectEnd t ok t'
      → Safely RoundKept (after_connect turn next (ok, t'))
  unfolding after_connect
  after_connect-Kept turn next t false t' k c = k
  after_connect-Kept turn next t true t' k (down text e e') = cc
  after_connect-Kept turn next t true t' k (up e on empty generation) =
      let u = queue_state_streaming t' in
      if_both (Safely RoundKept) turn.still_running (serve turn next u >>= λ w. returns (true, w))
        (returns (false, record { transport = t'; next_connect = next }))
        (λ _.
          kept_flagged (serve turn next u)
            (serve-Kept turn next u (queue_state_streaming-Kept t' on k)))
        (λ _. k)

  run_round-Kept : (turn : Turn) (w : Worker) → WorkerKept w → Safely RoundKept (run_round turn w)
  unfolding run_round
  run_round-Kept turn w k = by_socket w.transport.socket refl
    where
      by_socket : (o : Option ℕ) → w.transport.socket ≡ o → Safely RoundKept (round_of turn o w)
      by_socket none free =
          let ends = connect_socket_ends turn.connect w.transport k.orderly in
          let r = connect_socket turn.connect w.transport in
          unfold round_of in
          if_both (Safely RoundKept) (ltb turn.now w.next_connect) (returns (true, w))
            (after_connect turn w.next_connect r) (λ _. k)
            (λ _.
              after_connect-Kept turn w.next_connect w.transport r.0 r.1
                (record {
                  orderly = ends.0;
                  path = connected_path turn.connect w.transport free k.path;
                })
                ends.1)
      by_socket (some fd) e =
          unfold round_of in
          kept_flagged (serve turn w.next_connect w.transport)
            (serve-Kept turn w.next_connect w.transport k)

-- Steps of the worker, then one of stop(), then again steps of the worker.
pub record StopsOnce (s u : System) : Type 0 where
  pub last : Transport
  pub pc : Pc
  pub waiting : List Request
  pub before : WorkerSteps s (system last pc waiting)
  pub stop : Step (system last pc waiting) (system (halted last) pc waiting)
  pub behind : WorkerSteps (system (halted last) pc waiting) u

module _ (s : System) (refused : List Request) where
  abbrev pub Ends : Transport → Type 0
  Ends t = StopsOnce s (system (halted t) over refused)

  exits : (now : ℕ) (w : Worker) → Kept s refused w.transport → Ends (run_exit now w)
  unfolding run_exit
  exits now w k =
      let t = w.transport in
      record {
        last = t;
        pc = resting;
        waiting = refused;
        before = k.path;
        stop = stops t resting refused;
        behind =
            subst
              (λ (u : Transport).
                WorkerSteps (system (halted t) resting refused) (system u over refused))
              (disconnect-halted now "transport stopped" t)
              (closed-Steps now "transport stopped" stop_run (halted t)
                (andthen stay (close_last refl)));
      }

  run-Kept :
      (rounds : Rounds) (w : Worker) → Kept s refused w.transport → Safely Ends (run rounds w)
  unfolding run
  run-Kept (stopped now) w k = exits now w k
  run-Kept (round turn rest) w k =
      Safely-bind (RoundKept s refused) Ends (run_round turn w) _
        (run_round-Kept s refused turn w k) (by_flag (run-Kept rest))
    where
      by_flag :
          ((u : Worker) → Kept s refused u.transport → Safely Ends (run rest u))
          → (x : Bool × Worker) → RoundKept s refused x
          → Safely Ends
              (elim x.0 [ true ↦ run rest x.1 | false ↦ returns (run_exit turn.later x.1) ])
      by_flag next (true, u) k' = next u k'
      by_flag next (false, u) k' = exits turn.later u k'

-- From an orderly transport, run() of the model in which each operation is one step throws
-- nothing, and where it returns, the interleaved model reaches that transport, with running_
-- cleared, and the end of run() by steps of the worker, one of stop(), and again steps of the
-- worker.
pub run-Steps :
    (refused : List Request) (rounds : Rounds) (w : Worker)
    → IsOrderly w.transport
    → Safely
        (λ (t : Transport).
          StopsOnce (system w.transport resting refused) (system (halted t) over refused))
        (run rounds w)
run-Steps refused rounds w v =
    run-Kept (system w.transport resting refused) refused rounds w
      (record { orderly = v; path = stay })
