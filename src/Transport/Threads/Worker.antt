-- ===== src/Transport/Threads/Worker.antt =====
-- The steps of the worker of the class Transport of wsg50_driver/src/transport.cpp and the account of
-- promises.
use wsg50_ros2_humble.Base.{
  ℕ, ◌≡◌, [], some, ◌++◌, Returns-at, ◌+◌, refl, sym, ap, List, ◌∷◌, arith, Returns,
}
use wsg50_ros2_humble.Transport.{Transport, Request, find}
use wsg50_ros2_humble.Transport.Link.{established}
use wsg50_ros2_humble.Transport.Replies.{answer, note_reply}
use wsg50_ros2_humble.Transport.Invariant.{waiting}
use wsg50_ros2_humble.Transport.Invariant.Flight.{
  Ascending-erase, Ascending-assign, flying-erase, flying-assign_found, find_id,
}
use wsg50_ros2_humble.Transport.Invariant.Settle.{waiting-collected, set_value_held}
use wsg50_ros2_humble.Transport.Invariant.Dispatch.{online_of}
use wsg50_ros2_humble.Transport.Threads.{
  Pc, resting, failing, system, WorkerStep, connect, goes_online, connect_fails, buffers, stream,
  pick_urgent, pick_next, sent, not_sent, close, close_sending, close_last, collect, fail,
  show_down, abandon_late, read_frame, not_found, prolong, take, reply,
}
use wsg50_ros2_humble.Transport.Threads.Account.{Inv}
use wsg50_ros2_humble.Transport.Threads.Keeps.{failed-Inv}
use wsg50_ros2_humble.Transport.Threads.Sections.{
  streamed-Inv, placed-Inv, abandoned-Inv, late-Inv, gathered-Gives, settled-Gives, after-Inv,
}

-- Where a request is in flight the map is not empty.
still_connected :
    {A : Type 0} (t : Transport) (id : ℕ) (r : Request)
    → find id t.in_flight ≡ some r
    → t.in_flight ≡ []
    → A
still_connected t id r there empty = absurd (unfold find in ground (arith, there))

-- A step of the worker leaves the account as it should be.
pub worker-Inv :
    (refused : List Request) (t t' : Transport) (pc pc' : Pc)
    → WorkerStep t pc t' pc'
    → Inv (system t pc refused)
    → Inv (system t' pc' refused)
unfolding established
worker-Inv refused t t' pc pc' (connect fd now free) v = record {
  accounted = v.accounted;
  keyed = v.keyed;
  offline = λ off gone. v.offline off refl;
  facts = tt;
}
worker-Inv refused t t' pc pc' goes_online v = record {
  accounted = v.accounted;
  keyed = v.keyed;
  offline = λ off gone. cc;
  facts = tt;
}
worker-Inv refused t t' pc pc' (connect_fails message free) v = record {
  accounted = v.accounted;
  keyed = v.keyed;
  offline = λ off gone. v.offline off refl;
  facts = tt;
}
worker-Inv refused t t' pc pc' (buffers bytes) v = record {
  accounted = v.accounted;
  keyed = v.keyed;
  offline = λ off gone. v.offline off refl;
  facts = tt;
}
worker-Inv refused t t' pc pc' (stream on) v = streamed-Inv refused t on v
worker-Inv refused t t' pc pc' (pick_urgent now r rest e free) v =
    placed-Inv refused t (record t { priority_queue = rest }) now r free
      (online_of t.connected t.priority_queue (λ off. (v.offline off refl).2) e) v.keyed
      (λ k. omega (arith, v.accounted k, ap (waiting k) e))
worker-Inv refused t t' pc pc' (pick_next now r rest none_urgent e free) v =
    placed-Inv refused t (record t { queue = rest }) now r (rw free (unfold find in refl))
      (online_of t.connected t.queue (λ off. (v.offline off refl).1) e) v.keyed
      (λ k. omega (arith, v.accounted k, ap (waiting k) e))
worker-Inv refused t t' pc pc' (sent r bytes) v = record {
  accounted = v.accounted;
  keyed = v.keyed;
  offline = λ off gone. v.offline off refl;
  facts = tt;
}
worker-Inv refused t t' pc pc' (not_sent r bytes) v =
    abandoned-Inv refused (record t { written = t.written ++ bytes }) r
      (record { accounted = v.accounted; keyed = v.keyed; offline = v.offline; facts = v.facts })
worker-Inv refused t t' pc pc' (close reason) v = record {
  accounted = v.accounted;
  keyed = v.keyed;
  offline = λ off gone. cc;
  facts = (refl, tt);
}
worker-Inv refused t t' pc pc' (close_sending reason r bytes) v = record {
  accounted = v.accounted;
  keyed = v.keyed;
  offline = λ off gone. cc;
  facts = (refl, v.facts.1);
}
worker-Inv refused t t' pc pc' (close_last halted) v = record {
  accounted = v.accounted;
  keyed = v.keyed;
  offline = λ off gone. cc;
  facts = (refl, tt);
}
worker-Inv refused t t' pc pc' (collect reason after) v = record {
  accounted = λ k. omega (arith, v.accounted k, waiting-collected k t);
  keyed = tt;
  offline = λ off gone. (refl, refl, refl);
  facts = (v.facts.0, gathered-Gives refused t after v.facts.1);
}
worker-Inv refused t t' pc pc' (fail reason r rs after) v =
    failed-Inv (failing reason (r ∷ rs) after) (failing reason rs after) refused refused t r reason
      (λ k. omega arith) v
      (record {
        accounted = λ k. omega (arith, v.accounted k);
        keyed = v.keyed;
        offline = λ off gone. v.offline off refl;
        facts = (v.facts.0, settled-Gives refused t after reason r rs v.facts.1);
      })
worker-Inv refused t t' pc pc' (show_down now reason after) v =
    after-Inv refused t now reason after v
worker-Inv refused t t' pc pc' (abandon_late r) v = late-Inv refused t r v
worker-Inv refused t t' pc pc' (read_frame now id status payload) v = record {
  accounted = v.accounted;
  keyed = v.keyed;
  offline = λ off gone. v.offline off refl;
  facts = tt;
}
worker-Inv refused t t' pc pc' (not_found id status payload free) v = record {
  accounted = v.accounted;
  keyed = v.keyed;
  offline = λ off gone. v.offline off refl;
  facts = tt;
}
worker-Inv refused t t' pc pc' (prolong now id status payload r there pending) v = record {
  accounted = λ k. omega (
    arith,
    v.accounted k,
    flying-assign_found k id 0 (record r { deadline = now + r.timeout }) r t.in_flight v.keyed there
        refl,
  );
  keyed =
      Ascending-assign id 0 _ t.in_flight (omega arith)
        (sym (find_id id 0 t.in_flight v.keyed there)) v.keyed;
  offline = λ off gone. still_connected t id r there (v.offline off refl).0;
  facts = tt;
}
worker-Inv refused t t' pc pc' (take id status payload r there final) v = record {
  accounted = λ k. omega (arith, v.accounted k, flying-erase k id t.in_flight r there);
  keyed = Ascending-erase id 0 t.in_flight v.keyed;
  offline = λ off gone. still_connected t id r there (v.offline off refl).0;
  facts = tt;
}
worker-Inv refused t t' pc pc' (reply promise status payload e) v =
    let noted = record t { state = note_reply status t.state } in
    let set =
      set_value_held promise (answer status payload) noted (λ k. waiting k refused)
        (λ k. omega (arith, v.accounted k)) in
    Returns-at (λ (u : Transport). Inv (system u resting refused))
      (rw (set, Returns)
        (record {
          accounted = λ k. omega (arith, v.accounted k);
          keyed = v.keyed;
          offline = λ off gone. v.offline off refl;
          facts = tt;
        }))
      e
