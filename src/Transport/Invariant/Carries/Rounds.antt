-- ===== src/Transport/Invariant/Carries/Rounds.antt =====
-- A round of run() of wsg50_driver/src/transport.cpp sends what it has been asked for.
use wsg50_ros2_humble.Base.{
  ℕ, ◌≡◌, refl, Bool, true, false, List, [], ◌∷◌, ◌++◌, Option, none, some, ltb, if_both, returns,
  ◌>>=◌, Yields, Yields-bind,
}
use wsg50_ros2_humble.Wire.Bytes.{Bytes}
use wsg50_ros2_humble.Transport.{Transport, TransportOptions, init}
use wsg50_ros2_humble.Transport.Requests.{stream_ids, stream_payload}
use wsg50_ros2_humble.Transport.Link.{connect_socket}
use wsg50_ros2_humble.Transport.Replies.{any_expired, expire_requests}
use wsg50_ros2_humble.Transport.Dispatch.{dispatch_requests}
use wsg50_ros2_humble.Transport.Worker.{
  ReceiveResult, received, closed, would_block, interrupted, broken, ReceiveRound, parse_received,
  receive_available, PollResult, nothing, error_event, readable, poll_failed, Turn, Worker, put_off,
  after_poll, serve, after_connect, round_of, run_round,
}
use wsg50_ros2_humble.Transport.Invariant.Carries.{
  Carries, contains, disconnect-Carries, queue_state_streaming-Carries,
}
use wsg50_ros2_humble.Transport.Invariant.Carries.Sending.{dispatch_requests-Carries}
use wsg50_ros2_humble.Transport.Invariant.Carries.Link.{connect_socket-Carries}
use wsg50_ros2_humble.Transport.Invariant.Carries.Replies.{with_buffer, parse_received-Carries}

module _ (P : ℕ → Bytes → Type 0) (options : TransportOptions) where
  abbrev Flagged : Bool × Transport → Type 0
  Flagged x = Carries P options x.1

  receive_round-Carries :
      (r : ReceiveRound) (rounds : List ReceiveRound) (t : Transport)
      → ((u : Transport) → Carries P options u → Yields Flagged (receive_available rounds u))
      → Carries P options t
      → Yields Flagged (receive_available (r ∷ rounds) t)
  receive_round-Carries r rounds t next c = by_test r.running r.result refl refl
    where
      by_test :
          (running : Bool) (result : ReceiveResult)
          → r.running ≡ running
          → r.result ≡ result
          → Yields Flagged (receive_available (r ∷ rounds) t)
      by_test false result e e' = unfold receive_available in rw (e, receive_available) c
      by_test true (received bytes) e e' =
          let u = record t { receive_buffer = t.receive_buffer ++ bytes } in
          unfold receive_available in
          rw (e, e', receive_available)
            (Yields-bind (Carries P options) Flagged (parse_received r.now u)
              (receive_available rounds)
              (parse_received-Carries P options r.now u (with_buffer P options t _ c)) next)
      by_test true closed e e' =
          unfold receive_available in
          rw (e, e', receive_available) (disconnect-Carries P options r.now _ t c)
      by_test true would_block e e' = unfold receive_available in rw (e, e', receive_available) c
      by_test true interrupted e e' =
          unfold receive_available in rw (e, e', receive_available) (next t c)
      by_test true (broken error) e e' =
          unfold receive_available in
          rw (e, e', receive_available) (disconnect-Carries P options r.now _ t c)

  receive_available-Carries :
      (rounds : List ReceiveRound) (t : Transport)
      → Carries P options t
      → Yields Flagged (receive_available rounds t)
  receive_available-Carries [] t c = unfold receive_available in tt
  receive_available-Carries (r ∷ rounds) t c =
      receive_round-Carries r rounds t (receive_available-Carries rounds) c

  expire_requests-Carries :
      (now : ℕ) (t : Transport) → Carries P options t → Carries P options (expire_requests now t)
  unfolding expire_requests
  expire_requests-Carries now t c =
      if_both (Carries P options) (any_expired now t.in_flight) _ _
        (λ _. disconnect-Carries P options now _ t c) (λ _. c)

  abbrev WorkerCarries : Worker → Type 0
  WorkerCarries w = Carries P options w.transport

  abbrev RoundCarries : Bool × Worker → Type 0
  RoundCarries x = WorkerCarries x.1

  after_poll-Carries :
      (poll : PollResult) (turn : Turn) (next : ℕ) (t : Transport)
      → Carries P options t
      → Yields WorkerCarries (after_poll poll turn next t)
  unfolding after_poll put_off
  after_poll-Carries nothing turn next t c = expire_requests-Carries turn.later t c
  after_poll-Carries error_event turn next t c = disconnect-Carries P options turn.later _ t c
  after_poll-Carries (poll_failed error) turn next t c =
      disconnect-Carries P options turn.later _ t c
  after_poll-Carries (readable rounds) turn next t c =
      Yields-bind Flagged WorkerCarries (receive_available rounds t) _
        (receive_available-Carries rounds t c)
        (λ x c'.
          if_both WorkerCarries x.0 _ _ (λ _. expire_requests-Carries turn.later x.1 c') (λ _. c'))

  serve-Carries :
      (turn : Turn) (next : ℕ) (t : Transport)
      → Carries P options t
      → Yields RoundCarries (serve turn next t >>= λ w. returns (true, w))
  unfolding serve
  serve-Carries turn next t c =
      Yields-bind WorkerCarries RoundCarries (serve turn next t) _
        (Yields-bind (Carries P options) WorkerCarries (dispatch_requests turn.now turn.send t) _
          (dispatch_requests-Carries P options turn.now turn.send t c)
          (after_poll-Carries turn.poll turn next))
        (λ w c'. c')

  module _
      (streams : (id : ℕ)
        → contains id stream_ids ≡ true
        → P id (stream_payload (init options))) where
    after_connect-Carries :
        (turn : Turn) (next : ℕ) (ok : Bool) (t : Transport)
        → Carries P options t
        → Yields RoundCarries (after_connect turn next (ok, t))
    unfolding after_connect
    after_connect-Carries turn next false t c = c
    after_connect-Carries turn next true t c =
        if_both (Yields RoundCarries) turn.still_running _ _
          (λ _. serve-Carries turn next _ (queue_state_streaming-Carries P options t streams c))
          (λ _. c)

    -- A round of run() keeps the property, if the streaming requests have it.
    pub run_round-Carries :
        (turn : Turn) (w : Worker) → WorkerCarries w → Yields RoundCarries (run_round turn w)
    unfolding run_round round_of
    run_round-Carries turn w c = by_socket w.transport.socket
      where
        by_socket : (o : Option ℕ) → Yields RoundCarries (round_of turn o w)
        by_socket none =
            let r = connect_socket turn.connect w.transport in
            if_both (Yields RoundCarries) (ltb turn.now w.next_connect) (returns (true, w))
              (after_connect turn w.next_connect r) (λ _. c)
              (λ _.
                after_connect-Carries turn w.next_connect r.0 r.1
                  (connect_socket-Carries P options turn.connect w.transport c))
        by_socket (some fd) = serve-Carries turn w.next_connect w.transport c
