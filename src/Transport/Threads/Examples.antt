-- ===== src/Transport/Threads/Examples.antt =====
-- A run of the worker and a client of the class Transport of wsg50_driver/src/transport.cpp: a command
-- and its reply, a command that finds no connection after stop(), and the end of the worker.
use wsg50_ros2_humble.Base.{ℕ, ◌≡◌, ◌<◌, refl, arith, true, false, List, [], ◌∷◌, returns}
use wsg50_ros2_humble.Transport.{
  Transport, Request, default_options, init, find, assign, erase, set_value,
}
use wsg50_ros2_humble.Transport.Requests.{command, fail_request}
use wsg50_ros2_humble.Transport.Link.{established}
use wsg50_ros2_humble.Transport.Replies.{answer, note_reply}
use wsg50_ros2_humble.Transport.Dispatch.{put_in_flight}
use wsg50_ros2_humble.Transport.Invariant.{Balance, times_set}
use wsg50_ros2_humble.Transport.Threads.{
  System, Pc, over, ClientStep, WorkerStep, client, worker, stops, Reach, begin, later, connect,
  goes_online, enqueue, pick_next, sent, read_frame, take, reply, refuse, tell, close_last, collect,
  show_down, stop_run,
}
use wsg50_ros2_humble.Transport.Threads.Keeps.{in_hands}
use wsg50_ros2_humble.Transport.Threads.Promises.{Reach-Balance, Reach-settled, Reach-set_value}
use wsg50_ros2_humble.Transport.Threads.Ends.{Steps, Reach-ends}

record Run : Type 0 where
  last : System
  reach : Reach default_options last

abbrev works :
    (r : Run) {t : Transport} {pc : Pc} → WorkerStep r.last.transport r.last.pc t pc → Run
works r st = record { last = _; reach = later r.reach (worker _ _ _ _ _ st) }

abbrev asks :
    (r : Run) {t : Transport} {refused : List Request}
    → ClientStep r.last.transport r.last.refused t refused
    → Run
asks r st = record { last = _; reach = later r.reach (client _ _ _ _ _ st) }

-- The reply to the command is about to be given to its promise.
abbrev answering_run : Run
unfolding init established command put_in_flight find assign erase
answering_run =
    let o = works (record { last = _; reach = begin }) (connect 4 100 refl) in
    let a = works o goes_online in
    let b = asks a (enqueue 0x21 [] true 2000 false refl) in
    let c = works b (pick_next 200 _ [] refl refl refl) in
    let d = works c (sent _ (1 ∷ [])) in
    let e = works d (read_frame 300 0x21 0 (0 ∷ 0 ∷ [])) in
    works e (take 0x21 0 (0 ∷ 0 ∷ []) _ refl refl)

Reach-Balance_example :
    Balance (in_hands answering_run.last.pc answering_run.last.refused) answering_run.last.transport
Reach-Balance_example = Reach-Balance answering_run.reach

Reach-set_value_example :
    set_value 0 (answer 0 (0 ∷ 0 ∷ [])) (record (answering_run.last.transport) {
      state = note_reply 0 answering_run.last.transport.state;
    })
    ≡ returns (record (answering_run.last.transport) {
      state = note_reply 0 answering_run.last.transport.state;
      settled = (0, answer 0 (0 ∷ 0 ∷ [])) ∷ answering_run.last.transport.settled;
    })
unfolding answering_run init established command put_in_flight find assign erase
Reach-set_value_example = Reach-set_value 0 0 (0 ∷ 0 ∷ []) answering_run.reach refl

abbrev ended_run : Run
unfolding answering_run init established command put_in_flight find assign erase set_value
    fail_request
ended_run =
    let a = works answering_run (reply 0 0 (0 ∷ 0 ∷ []) refl) in
    let b : Run = record { last = _; reach = later a.reach (stops _ _ _) } in
    let c = works b (close_last refl) in
    let d = asks c (refuse 0x22 [] true 2000 refl) in
    let e = works d (collect "transport stopped" stop_run) in
    let f = asks e (tell [] _ [] refl) in works f (show_down 500 "transport stopped" stop_run)

Reach-settled_example : times_set 1 ended_run.last.transport.settled ≡ 1
unfolding ended_run answering_run init established command put_in_flight find assign erase set_value
    fail_request
Reach-settled_example = Reach-settled 1 ended_run.reach refl refl (omega arith)

-- stop() while a reply is being given to its promise.
abbrev stopping_run : Run
stopping_run = record { last = _; reach = later answering_run.reach (stops _ _ _) }

Reach-ends_example :
    (s' : System) × Steps stopping_run.last s'
    × (s'.pc ≡ over)
    × ((k : ℕ) → k < stopping_run.last.transport.promises → times_set k s'.transport.settled ≡ 1)
Reach-ends_example = Reach-ends stopping_run.reach refl
