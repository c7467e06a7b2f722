-- ===== src/Transport/Threads.antt =====
-- The worker thread and the clients of the class Transport of wsg50_driver/src/transport.cpp, a
-- locked section or a store at a time: what each thread holds between its steps is in its position.
pub mod Account
pub mod Keeps
pub mod Sections
pub mod Worker
pub mod Promises
pub mod Ends
pub mod Rounds
pub mod Stays
pub mod Runs
pub mod Refines
mod Examples
use wsg50_ros2_humble.Base.{
  ℕ, ◌+◌, Bool, true, false, not, ◌&&◌, List, [], ◌∷◌, ◌++◌, Option, none, some, String, ◌≡◌, ◌==◌,
  Outcome, returns,
}
use wsg50_ros2_humble.Wire.Bytes.{Bytes}
use wsg50_ros2_humble.Device.{DeviceState, status_command_pending, update_state}
use wsg50_ros2_humble.Transport.{
  Transport, Request, TransportOptions, init, find, erase, assign, set_value,
}
use wsg50_ros2_humble.Transport.Requests.{
  make_request, after_make, command, queue_state_streaming, fail_request, collected,
}
use wsg50_ros2_humble.Transport.Link.{established, disconnected}
use wsg50_ros2_humble.Transport.Replies.{answer, note_reply}
use wsg50_ros2_humble.Transport.Dispatch.{put_in_flight, abandon}

-- What follows a disconnect: the next round, the rest of dispatch_requests, or the end of run().
pub data After : Type 0 where
  next_round : After
  give_up : Request → After
  stop_run : After

-- Where the worker stands. `opening` is in connect_socket before the store to connected_; `sending` is behind the lock in dispatch_requests; `closing` is behind the
-- stores to connected_ and socket_ in disconnect, `failing` behind the lock in fail_all with the
-- requests that are left in its list; `abandoning` is before the second lock in dispatch_requests;
-- `looking` is between update_state and the lock in handle_frame, and `answering` behind that lock.
pub data Pc : Type 0 where
  resting : Pc
  opening : Pc
  sending : Request → Pc
  closing : String → After → Pc
  failing : String → List Request → After → Pc
  abandoning : Request → Pc
  looking : ℕ → ℕ → Bytes → Pc
  answering : ℕ → ℕ → Bytes → Pc
  over : Pc

-- `refused` are the requests that clients found no connection for and have not failed yet.
pub record System : Type 0 where
  pub transport : Transport
  pub pc : Pc
  pub refused : List Request

abbrev pub after_pc : After → Pc
after_pc next_round = resting
after_pc (give_up r) = abandoning r
after_pc stop_run = over

abbrev pub system : Transport → Pc → List Request → System
system t pc refused = record { transport = t; pc = pc; refused = refused }

-- A step of a client in command: the locked section, or the failure behind it.
pub data ClientStep (t : Transport) (refused : List Request)
    : Transport → List Request → Type 0 where
  enqueue :
      (id : ℕ) (payload : Bytes) (allow_pending : Bool) (timeout : ℕ) (priority : Bool)
      → t.connected ≡ true
      → ClientStep t refused (command id payload allow_pending timeout priority t).1 refused
  refuse :
      (id : ℕ) (payload : Bytes) (allow_pending : Bool) (timeout : ℕ)
      → t.connected ≡ false
      → ClientStep t refused
          (after_make t)
          (make_request id payload allow_pending false timeout t ∷ refused)
  tell :
      (before : List Request) (r : Request) (behind : List Request)
      → refused ≡ before ++ (r ∷ behind)
      → ClientStep t refused (fail_request r "gripper is not connected" t) (before ++ behind)

-- A step of the worker.
pub data WorkerStep (t : Transport) : Pc → Transport → Pc → Type 0 where
  connect :
      (fd now : ℕ)
      → t.socket ≡ none
      → WorkerStep t resting (record (established fd now t) { connected = t.connected }) opening
  goes_online : WorkerStep t opening (record t { connected = true }) resting
  connect_fails :
      (message : String)
      → t.socket ≡ none
      → WorkerStep t resting
          (record t { state = record (t.state) { status_message = message } })
          resting
  buffers : (bytes : Bytes) → WorkerStep t resting (record t { receive_buffer = bytes }) resting
  stream : t.connected ≡ true → WorkerStep t resting (queue_state_streaming t) resting
  pick_urgent :
      (now : ℕ) (r : Request) (rest : List Request)
      → t.priority_queue ≡ r ∷ rest
      → find r.id t.in_flight ≡ none
      → WorkerStep t resting
          (put_in_flight now r (record t { priority_queue = rest })).1
          (sending (put_in_flight now r (record t { priority_queue = rest })).0)
  pick_next :
      (now : ℕ) (r : Request) (rest : List Request)
      → t.priority_queue ≡ []
      → t.queue ≡ r ∷ rest
      → t.in_flight ≡ []
      → WorkerStep t resting
          (put_in_flight now r (record t { queue = rest })).1
          (sending (put_in_flight now r (record t { queue = rest })).0)
  sent :
      (r : Request) (bytes : Bytes)
      → WorkerStep t (sending r) (record t { written = t.written ++ bytes }) resting
  not_sent :
      (r : Request) (bytes : Bytes)
      → WorkerStep t (sending r) (abandon r (record t { written = t.written ++ bytes })) resting
  close :
      (reason : String)
      → WorkerStep t resting
          (record t { connected = false; socket = none })
          (closing reason next_round)
  close_sending :
      (reason : String) (r : Request) (bytes : Bytes)
      → WorkerStep t
          (sending r)
          (record t { connected = false; socket = none; written = t.written ++ bytes })
          (closing reason (give_up r))
  close_last :
      t.running ≡ false
      → WorkerStep t resting
          (record t { connected = false; socket = none })
          (closing "transport stopped" stop_run)
  collect :
      (reason : String) (after : After)
      → WorkerStep t
          (closing reason after)
          (record t { in_flight = []; queue = []; priority_queue = [] })
          (failing reason (collected t) after)
  fail :
      (reason : String) (r : Request) (rs : List Request) (after : After)
      → WorkerStep t
          (failing reason (r ∷ rs) after)
          (fail_request r reason t)
          (failing reason rs after)
  show_down :
      (now : ℕ) (reason : String) (after : After)
      → WorkerStep t
          (failing reason [] after)
          (record t { state = disconnected now reason t.state })
          (after_pc after)
  abandon_late : (r : Request) → WorkerStep t (abandoning r) (abandon r t) resting
  read_frame :
      (now id status : ℕ) (payload : Bytes)
      → WorkerStep t resting
          (record t { state = update_state now id status payload t.state })
          (looking id status payload)
  not_found :
      (id status : ℕ) (payload : Bytes)
      → find id t.in_flight ≡ none
      → WorkerStep t (looking id status payload) t resting
  prolong :
      (now id status : ℕ) (payload : Bytes) (r : Request)
      → find id t.in_flight ≡ some r
      → (r.allow_pending && status == status_command_pending) ≡ true
      → WorkerStep t
          (looking id status payload)
          (record t { in_flight = assign id (record r { deadline = now + r.timeout }) t.in_flight })
          resting
  take :
      (id status : ℕ) (payload : Bytes) (r : Request)
      → find id t.in_flight ≡ some r
      → (r.allow_pending && status == status_command_pending) ≡ false
      → WorkerStep t
          (looking id status payload)
          (record t { in_flight = erase id t.in_flight })
          (answering r.promise status payload)
  reply :
      (promise status : ℕ) (payload : Bytes) {t' : Transport}
      → set_value promise (answer status payload) (record t { state = note_reply status t.state })
        ≡ returns t'
      → WorkerStep t (answering promise status payload) t' resting

-- A client or the worker makes a step; stop() clears running_.
pub data Step : System → System → Type 0 where
  client :
      (t t' : Transport) (pc : Pc) (refused refused' : List Request)
      → ClientStep t refused t' refused'
      → Step (system t pc refused) (system t' pc refused')
  worker :
      (t t' : Transport) (pc pc' : Pc) (refused : List Request)
      → WorkerStep t pc t' pc'
      → Step (system t pc refused) (system t' pc' refused)
  stops :
      (t : Transport) (pc : Pc) (refused : List Request)
      → Step (system t pc refused) (system (record t { running = false }) pc refused)

abbrev pub begins : TransportOptions → System
begins options = system (record (init options) { running = true }) resting []

pub data Reach (options : TransportOptions) : System → Type 0 where
  begin : Reach options (begins options)
  later : {s s' : System} → Reach options s → Step s s' → Reach options s'
