-- ===== src/Transport/Threads/Stays.antt =====
-- What the steps of the class Transport of wsg50_driver/src/transport.cpp leave as it is: running_
-- once it is cleared, and the end of run().
use wsg50_ros2_humble.Base.{
  ℕ, ◌≡◌, ◌≢◌, ◌++◌, ◌≤◌, suc, refl, ◌∙◌, Bool, true, false, List, [], ◌∷◌, returns, arith,
}
use wsg50_ros2_humble.Wire.Bytes.{Bytes}
use wsg50_ros2_humble.Device.{CommandReply}
use wsg50_ros2_humble.Transport.{Transport, Request, set_value}
use wsg50_ros2_humble.Transport.Requests.{
  make_request, after_make, command, stream_each, queue_state_streaming, stream_ids, stream_payload,
  fail_request,
}
use wsg50_ros2_humble.Transport.Link.{established}
use wsg50_ros2_humble.Transport.Replies.{answer, note_reply}
use wsg50_ros2_humble.Transport.Dispatch.{put_in_flight}
use wsg50_ros2_humble.Transport.Threads.{
  Pc, over, System, ClientStep, enqueue, refuse, tell, WorkerStep, connect, goes_online,
  connect_fails, buffers, stream, pick_urgent, pick_next, sent, not_sent, close, close_sending,
  close_last, collect, fail, show_down, abandon_late, read_frame, not_found, prolong, take, reply,
  Step, client, worker, stops,
}
use wsg50_ros2_humble.Transport.Threads.Ends.{fail_request-keeps, abandon-keeps}

command-running :
    (id : ℕ) (payload : Bytes) (allow_pending : Bool) (timeout : ℕ) (priority : Bool)
    (t : Transport)
    → (command id payload allow_pending timeout priority t).1.running ≡ t.running
unfolding command fail_request set_value
command-running id payload allow_pending timeout priority t = ground arith

stream_each-running :
    (ids : List ℕ) (payload : Bytes) (t : Transport)
    → (stream_each ids payload t).running ≡ t.running
unfolding stream_each
stream_each-running [] payload t = refl
stream_each-running (id ∷ ids) payload t = stream_each-running ids payload _

set_value-running :
    (p : ℕ) (r : CommandReply) (t t' : Transport)
    → set_value p r t ≡ returns t'
    → t'.running ≡ t.running
unfolding set_value
set_value-running p r t t' h = ground arith

ClientStep-running :
    {t t' : Transport} {refused refused' : List Request}
    → ClientStep t refused t' refused'
    → t'.running ≡ t.running
ClientStep-running {t} (enqueue id payload allow_pending timeout priority on) =
    command-running id payload allow_pending timeout priority t
ClientStep-running (refuse id payload allow_pending timeout off) = refl
ClientStep-running {t} (tell before r behind split) =
    (fail_request-keeps r "gripper is not connected" t).0

WorkerStep-running :
    {t t' : Transport} {pc pc' : Pc} → WorkerStep t pc t' pc' → t'.running ≡ t.running
unfolding established put_in_flight queue_state_streaming
WorkerStep-running (connect fd now free) = refl
WorkerStep-running goes_online = refl
WorkerStep-running (connect_fails message free) = refl
WorkerStep-running (buffers bytes) = refl
WorkerStep-running {t} (stream on) = stream_each-running stream_ids (stream_payload t) t
WorkerStep-running (pick_urgent now r rest e free) = refl
WorkerStep-running (pick_next now r rest none_urgent e free) = refl
WorkerStep-running (sent r bytes) = refl
WorkerStep-running {t} (not_sent r bytes) = (abandon-keeps r _).0
WorkerStep-running (close reason) = refl
WorkerStep-running (close_sending reason r bytes) = refl
WorkerStep-running (close_last halted) = refl
WorkerStep-running (collect reason after) = refl
WorkerStep-running {t} (fail reason r rs after) = (fail_request-keeps r reason t).0
WorkerStep-running (show_down now reason after) = refl
WorkerStep-running {t} (abandon_late r) = (abandon-keeps r t).0
WorkerStep-running (read_frame now id status payload) = refl
WorkerStep-running (not_found id status payload free) = refl
WorkerStep-running (prolong now id status payload r there pending) = refl
WorkerStep-running (take id status payload r there final) = refl
WorkerStep-running {t} {t'} (reply promise status payload e) =
    set_value-running promise (answer status payload) _ t' e

-- A cleared running_ stays so.
pub Step-halted :
    {s s' : System} → Step s s' → s.transport.running ≡ false → s'.transport.running ≡ false
Step-halted (client t t' pc refused refused' st) h = ClientStep-running st ∙ h
Step-halted (worker t t' pc pc' refused st) h = WorkerStep-running st ∙ h
Step-halted (stops t pc refused) h = refl

WorkerStep-not_over : {t t' : Transport} {pc pc' : Pc} → WorkerStep t pc t' pc' → pc ≢ over
WorkerStep-not_over (connect fd now free) = λ e. cc
WorkerStep-not_over st = λ e. cc

-- The worker makes no step behind the end of run().
pub Step-over : {s s' : System} → Step s s' → s.pc ≡ over → s'.pc ≡ over
Step-over (client t t' pc refused refused' st) h = h
Step-over (worker t t' pc pc' refused st) h = absurd (WorkerStep-not_over st h)
Step-over (stops t pc refused) h = h

command-promises :
    (id : ℕ) (payload : Bytes) (allow_pending : Bool) (timeout : ℕ) (priority : Bool)
    (t : Transport)
    → (command id payload allow_pending timeout priority t).1.promises ≡ suc t.promises
unfolding command fail_request set_value
command-promises id payload allow_pending timeout priority t = ground arith

stream_each-promises :
    (ids : List ℕ) (payload : Bytes) (t : Transport)
    → t.promises ≤ (stream_each ids payload t).promises
unfolding stream_each
stream_each-promises [] payload t = omega arith
stream_each-promises (id ∷ ids) payload t =
    let r = make_request id payload false true t.options.response_timeout t in
    let more =
      stream_each-promises ids payload (record (after_make t) { queue = t.queue ++ r ∷ [] }) in
    omega arith

set_value-promises :
    (p : ℕ) (r : CommandReply) (t t' : Transport)
    → set_value p r t ≡ returns t'
    → t'.promises ≡ t.promises
unfolding set_value
set_value-promises p r t t' h = ground arith

ClientStep-promises :
    {t t' : Transport} {refused refused' : List Request}
    → ClientStep t refused t' refused'
    → t.promises ≤ t'.promises
ClientStep-promises {t} (enqueue id payload allow_pending timeout priority on) =
    omega (arith, command-promises id payload allow_pending timeout priority t)
ClientStep-promises (refuse id payload allow_pending timeout off) = omega arith
ClientStep-promises {t} (tell before r behind split) =
    omega (arith, (fail_request-keeps r "gripper is not connected" t).1)

WorkerStep-promises :
    {t t' : Transport} {pc pc' : Pc} → WorkerStep t pc t' pc' → t.promises ≤ t'.promises
unfolding established put_in_flight queue_state_streaming
WorkerStep-promises (connect fd now free) = omega arith
WorkerStep-promises goes_online = omega arith
WorkerStep-promises (connect_fails message free) = omega arith
WorkerStep-promises (buffers bytes) = omega arith
WorkerStep-promises {t} (stream on) = stream_each-promises stream_ids (stream_payload t) t
WorkerStep-promises (pick_urgent now r rest e free) = omega arith
WorkerStep-promises (pick_next now r rest none_urgent e free) = omega arith
WorkerStep-promises (sent r bytes) = omega arith
WorkerStep-promises {t} (not_sent r bytes) =
    omega (arith, (abandon-keeps r (record t { written = t.written ++ bytes })).1)
WorkerStep-promises (close reason) = omega arith
WorkerStep-promises (close_sending reason r bytes) = omega arith
WorkerStep-promises (close_last halted) = omega arith
WorkerStep-promises (collect reason after) = omega arith
WorkerStep-promises {t} (fail reason r rs after) = omega (arith, (fail_request-keeps r reason t).1)
WorkerStep-promises (show_down now reason after) = omega arith
WorkerStep-promises {t} (abandon_late r) = omega (arith, (abandon-keeps r t).1)
WorkerStep-promises (read_frame now id status payload) = omega arith
WorkerStep-promises (not_found id status payload free) = omega arith
WorkerStep-promises (prolong now id status payload r there pending) = omega arith
WorkerStep-promises (take id status payload r there final) = omega arith
WorkerStep-promises {t} {t'} (reply promise status payload e) = omega (
  arith,
  set_value-promises promise (answer status payload)
      (record t { state = note_reply status t.state }) t' e,
)

-- Promises are made and never unmade.
pub Step-promises : {s s' : System} → Step s s' → s.transport.promises ≤ s'.transport.promises
Step-promises (client t t' pc refused refused' st) = ClientStep-promises st
Step-promises (worker t t' pc pc' refused st) = WorkerStep-promises st
Step-promises (stops t pc refused) = omega arith
