-- ===== src/Transport/Worker.antt =====
-- Transport::receive_available and Transport::run of wsg50_driver/src/transport.cpp: the worker
-- thread. What the system calls and the clock return, and what `running_` is when the thread reads
-- it, is scripted; a script that is used up leaves the call waiting.
use Prim.Native.String.{◌++◌ as ◌<>◌}
use wsg50_ros2_humble.Base.{
  ℕ, ◌+◌, Bool, true, false, List, [], ◌∷◌, ◌++◌, Option, none, some, String, ltb, if◌then◌else◌,
  Outcome, returns, waits, ◌>>=◌,
}
use wsg50_ros2_humble.Wire.Bytes.{Bytes}
use wsg50_ros2_humble.Parser.{parse_frames}
use wsg50_ros2_humble.Transport.{Transport}
use wsg50_ros2_humble.Transport.Requests.{queue_state_streaming}
use wsg50_ros2_humble.Transport.Link.{disconnect, ConnectScript, connect_socket, SendRound}
use wsg50_ros2_humble.Transport.Replies.{handle_frame, expire_requests}
use wsg50_ros2_humble.Transport.Dispatch.{dispatch_requests}

-- What ::recv returns; `broken` has the text of strerror.
pub data ReceiveResult : Type 0 where
  received : Bytes → ReceiveResult
  closed would_block interrupted : ReceiveResult
  broken : String → ReceiveResult

pub record ReceiveRound : Type 0 where
  pub running : Bool
  pub result : ReceiveResult
  pub now : ℕ

-- parse_frames on the receive buffer of the transport.
unfoldable pub parse_received : ℕ → Transport → Outcome Transport
parse_received now t = do
  (left, t') ← parse_frames (handle_frame now) t.options.max_payload_size t.receive_buffer t
  returns (record t' { receive_buffer = left })

unfoldable pub receive_available : List ReceiveRound → Transport → Outcome (Bool × Transport)
receive_available [] t = waits
receive_available (round ∷ rounds) t = elim (round.running) [
  | false ↦ returns (false, t)
  | true ↦ elim (round.result) [
    | received bytes ↦
        parse_received round.now (record t { receive_buffer = t.receive_buffer ++ bytes })
        >>= receive_available rounds
    | closed ↦ returns (false, disconnect round.now "peer closed connection" t)
    | would_block ↦ returns (true, t)
    | interrupted ↦ receive_available rounds t
    | broken error ↦ returns (false, disconnect round.now ("receive failed: " <> error) t)
  ]
]

-- What ::poll reports: nothing that is handled (a timeout, EINTR, other events), an error event,
-- bytes to read with what ::recv then returns, or a failure of ::poll itself.
pub data PollResult : Type 0 where
  nothing error_event : PollResult
  readable : List ReceiveRound → PollResult
  poll_failed : String → PollResult

-- One round of the loop of run(): the clock at its two readings, the connection attempt and the
-- test of `running_` behind it, and the rest of the calls.
pub record Turn : Type 0 where
  pub now : ℕ
  pub connect : ConnectScript
  pub still_running : Bool
  pub send : List SendRound
  pub poll : PollResult
  pub later : ℕ

-- The transport, and the variable `next_connect` of run().
pub record Worker : Type 0 where
  pub transport : Transport
  pub next_connect : ℕ

-- The reconnection is put off.
unfoldable pub put_off : Turn → Transport → Worker
put_off turn t = record { transport = t; next_connect = turn.later + t.options.reconnect_interval }

unfoldable pub after_poll : PollResult → Turn → ℕ → Transport → Outcome Worker
unfolding put_off
after_poll nothing turn next t =
    returns (record { transport = expire_requests turn.later t; next_connect = next })
after_poll error_event turn next t =
    returns (put_off turn (disconnect turn.later "socket disconnected" t))
after_poll (readable rounds) turn next t = do
  (going_on, t') ← receive_available rounds t
  returns (
      if going_on
      then record { transport = expire_requests turn.later t'; next_connect = next }
      else put_off turn t')
after_poll (poll_failed error) turn next t =
    returns (put_off turn (disconnect turn.later ("poll failed: " <> error) t))

-- From dispatch_requests to the end of the round.
unfoldable pub serve : Turn → ℕ → Transport → Outcome Worker
unfolding after_poll
serve turn next t = dispatch_requests turn.now turn.send t >>= after_poll turn.poll turn next

-- Where the connection attempt has returned: `false` is the `break`.
unfoldable pub after_connect : Turn → ℕ → Bool × Transport → Outcome (Bool × Worker)
unfolding serve
after_connect turn next (false, t) =
    returns (true, record { transport = t; next_connect = turn.now + t.options.reconnect_interval })
after_connect turn next (true, t) =
    if turn.still_running
    then (do w ← serve turn next (queue_state_streaming t); returns (true, w))
    else returns (false, record { transport = t; next_connect = next })

-- One round of the loop of run(), on whether there is a socket.
unfoldable pub round_of : Turn → Option ℕ → Worker → Outcome (Bool × Worker)
unfolding after_connect
round_of turn none w =
    if ltb turn.now w.next_connect
    then returns (true, w)
    else after_connect turn w.next_connect (connect_socket turn.connect w.transport)
round_of turn (some fd) w = do w' ← serve turn w.next_connect w.transport; returns (true, w')

unfoldable pub run_round : Turn → Worker → Outcome (Bool × Worker)
unfolding round_of
run_round turn w = round_of turn w.transport.socket w

-- The test of the loop of run() with each of its rounds: `running_` may be cleared between them.
pub data Rounds : Type 0 where
  stopped : ℕ → Rounds
  round : Turn → Rounds → Rounds

unfoldable pub run_exit : ℕ → Worker → Transport
run_exit now w = disconnect now "transport stopped" w.transport

-- run(): the rounds until `running_` is false or a round breaks off, and the last disconnect.
unfoldable pub run : Rounds → Worker → Outcome Transport
unfolding run_exit
run (stopped now) w = returns (run_exit now w)
run (round turn rest) w = do
  (going_on, w') ← run_round turn w
  elim going_on [ true ↦ run rest w' | false ↦ returns (run_exit turn.later w') ]
