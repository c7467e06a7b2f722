-- ===== src/Transport/Threads/Rounds.antt =====
-- The operations of the class Transport of wsg50_driver/src/transport.cpp, each of which is one step
-- in the modules beside Threads, as runs of the steps of the worker.
use wsg50_ros2_humble.Base.{
  ℕ, ◌≡◌, refl, sym, subst, Bool, false, List, [], ◌∷◌, ◌++◌, Option, none, some, String, ◌&&◌,
  ◌==◌, Bool-cases, Option-cases, inl, inr, if◌then◌else◌, if_both, ltb, length, returns,
  Returns-at, Safely, Safely-bind,
}
use wsg50_ros2_humble.Wire.Bytes.{Bytes, read_u16}
use wsg50_ros2_humble.Wire.Frame.{encode_frame}
use wsg50_ros2_humble.Device.{status_command_pending}
use wsg50_ros2_humble.Transport.{Transport, Request, find}
use wsg50_ros2_humble.Transport.Requests.{fail_request, fail_each, fail_all, collected}
use wsg50_ros2_humble.Transport.Link.{disconnect, send_all, SendRound}
use wsg50_ros2_humble.Transport.Replies.{handle_frame, settle_request, any_expired, expire_requests}
use wsg50_ros2_humble.Transport.Dispatch.{
  abandon, put_in_flight, pick_normal, pick_from, pick_request, send_frame, send_picked,
  dispatch_requests,
}
use wsg50_ros2_humble.Transport.Invariant.Link.{
  written_none, SendEnd, all_sent, halted, dropped, send_all_ends,
}
use wsg50_ros2_humble.Transport.Threads.{
  After, next_round, give_up, Pc, resting, sending, closing, failing, looking, System, system,
  after_pc, WorkerStep, pick_urgent, pick_next, sent, not_sent, close, close_sending, collect, fail,
  show_down, abandon_late, read_frame, not_found, prolong, take, reply,
}

-- Steps of the worker alone, from `s` on.
pub data WorkerSteps (s : System) : System → Type 0 where
  stay : WorkerSteps s s
  andthen :
      {t t' : Transport} {pc pc' : Pc} {refused : List Request}
      → WorkerSteps s (system t pc refused)
      → WorkerStep t pc t' pc'
      → WorkerSteps s (system t' pc' refused)

-- From a transport and a position of the worker to others.
abbrev pub Leads : List Request → Transport → Pc → Transport → Pc → Type 0
Leads refused t pc t' pc' = WorkerSteps (system t pc refused) (system t' pc' refused)

-- What dispatch_requests picks under its lock is what a step picks.
abbrev IsPick : Transport → Option (Request × Transport) → Type 0
IsPick t none = Unit {0}
IsPick t (some (r, t')) = WorkerStep t resting t' (sending r)

pick_normal-IsPick :
    (now : ℕ) (t : Transport) (queue : List Request)
    → t.priority_queue ≡ []
    → t.queue ≡ queue
    → IsPick t (pick_normal now queue t)
unfolding pick_normal
pick_normal-IsPick now t [] urgent e = tt
pick_normal-IsPick now t (r ∷ rest) urgent e = by_flight t.in_flight refl
  where
    by_flight :
        (m : List (ℕ × Request))
        → t.in_flight ≡ m
        → IsPick t (elim m [
          | [] ↦ some (put_in_flight now r (record t { queue = rest }))
          | entry ∷ others ↦ none
        ])
    by_flight [] f = pick_next now r rest urgent e f
    by_flight (entry ∷ others) f = tt

pick_from-IsPick :
    (now : ℕ) (t : Transport) (priority_queue : List Request)
    → t.priority_queue ≡ priority_queue
    → IsPick t (pick_from now priority_queue t)
unfolding pick_from
pick_from-IsPick now t [] e = pick_normal-IsPick now t t.queue e refl
pick_from-IsPick now t (r ∷ rest) e = elim (Option-cases (find r.id t.in_flight)) [
  | inr (other, taken) ↦ rw (taken, pick_from) tt
  | inl free ↦ rw (free, pick_from) (pick_urgent now r rest e free)
]

module _ {refused : List Request} where
  fail_each-Steps :
      {s : System} (rs : List Request) (reason : String) (after : After) (t : Transport)
      → WorkerSteps s (system t (failing reason rs after) refused)
      → WorkerSteps s (system (fail_each rs reason t) (failing reason [] after) refused)
  unfolding fail_each
  fail_each-Steps [] reason after t path = path
  fail_each-Steps (r ∷ rs) reason after t path =
      fail_each-Steps rs reason after (fail_request r reason t)
        (andthen path (fail reason r rs after))

  -- What disconnect does behind the stores to connected_ and socket_.
  pub closed-Steps :
      {s : System} (now : ℕ) (reason : String) (after : After) (t : Transport)
      → WorkerSteps s
          (system (record t { connected = false; socket = none }) (closing reason after) refused)
      → WorkerSteps s (system (disconnect now reason t) (after_pc after) refused)
  unfolding disconnect fail_all
  closed-Steps now reason after t path =
      andthen (fail_each-Steps (collected t) reason after _ (andthen path (collect reason after)))
        (show_down now reason after)

  settle_request-Steps :
      {s : System} (now id status : ℕ) (payload : Bytes) (t t' : Transport) (found : Option Request)
      → find id t.in_flight ≡ found
      → WorkerSteps s (system t (looking id status payload) refused)
      → settle_request now id status payload found t ≡ returns t'
      → WorkerSteps s (system t' resting refused)
  unfolding settle_request
  settle_request-Steps {s} now id status payload t t' none e path h =
      Returns-at (λ (u : Transport). WorkerSteps s (system u resting refused))
        (andthen path (not_found id status payload e)) h
  settle_request-Steps {s} now id status payload t t' (some r) e path h =
      elim (Bool-cases (r.allow_pending && status == status_command_pending)) [
        | inl pending ↦
            Returns-at (λ (u : Transport). WorkerSteps s (system u resting refused))
              (andthen path (prolong now id status payload r e pending)) (rw pending at h)
        | inr final ↦
            andthen (andthen path (take id status payload r e final))
              (reply r.promise status payload (rw final at h))
      ]

  -- After each way in which send_all ends.
  sent-Steps :
      {s : System} (r : Request) (t : Transport) (bytes : Bytes) (done : Bool) (t' : Transport)
      → WorkerSteps s (system t (sending r) refused)
      → SendEnd t bytes done t'
      → WorkerSteps s (system (if done then t' else abandon r t') resting refused)
  sent-Steps r t bytes done t' path (all_sent d e) = rw (d, e) (andthen path (sent r bytes))
  sent-Steps r t bytes done t' path (halted part rest split d e) =
      rw (d, e) (andthen path (not_sent r part))
  sent-Steps r t bytes done t' path (dropped part rest now reason split d e) =
      rw (d, e)
        (andthen
          (closed-Steps now reason (give_up r) (record t { written = t.written ++ part })
            (andthen path (close_sending reason r part)))
          (abandon_late r))

  send_frame-Steps :
      {s : System} (rounds : List SendRound) (r : Request) (bytes : Bytes) (t : Transport)
      → WorkerSteps s (system t (sending r) refused)
      → Safely
          (λ (u : Transport). WorkerSteps s (system u resting refused))
          (send_frame rounds r bytes t)
  unfolding send_frame
  send_frame-Steps {s} rounds r [] t path =
      subst (λ (u : Transport). WorkerSteps s (system (abandon r u) resting refused))
        (sym (written_none t)) (andthen path (not_sent r []))
  send_frame-Steps {s} rounds r (b ∷ bs) t path =
      Safely-bind (λ (x : Bool × Transport). SendEnd t (b ∷ bs) x.0 x.1)
        (λ (u : Transport). WorkerSteps s (system u resting refused)) (send_all rounds (b ∷ bs) t) _
        (send_all_ends rounds (b ∷ bs) t) (λ x. sent-Steps r t (b ∷ bs) x.0 x.1 path)

pub disconnect-Steps :
    (refused : List Request) (now : ℕ) (reason : String) (t : Transport)
    → Leads refused t resting (disconnect now reason t) resting
disconnect-Steps refused now reason t =
    closed-Steps now reason next_round t (andthen stay (close reason))

pub expire_requests-Steps :
    (refused : List Request) (now : ℕ) (t : Transport)
    → Leads refused t resting (expire_requests now t) resting
unfolding expire_requests
expire_requests-Steps refused now t =
    if_both (λ (u : Transport). Leads refused t resting u resting) (any_expired now t.in_flight) _ _
      (λ _. disconnect-Steps refused now "command response timeout" t) (λ _. stay)

-- If the transport is connected and handle_frame of the model with one step for each operation
-- returns, the interleaved model reaches the transport that it returns by steps of the worker.
pub handle_frame-Steps :
    (refused : List Request) (now id : ℕ) (payload : Bytes) (t t' : Transport)
    → handle_frame now id payload t ≡ returns t'
    → Leads refused t resting t' resting
unfolding handle_frame
handle_frame-Steps refused now id payload t t' h = elim (Bool-cases (ltb (length payload) 2)) [
  | inl short ↦
      Returns-at (λ (u : Transport). Leads refused t resting u resting) stay (rw short at h)
  | inr long ↦
      settle_request-Steps now id (read_u16 payload) payload _ t' (find id t.in_flight) refl
        (andthen stay (read_frame now id (read_u16 payload) payload)) (rw long at h)
]

pub dispatch_requests-Steps :
    (refused : List Request) (now : ℕ) (rounds : List SendRound) (t : Transport)
    → Safely (λ (u : Transport). Leads refused t resting u resting) (dispatch_requests now rounds t)
unfolding dispatch_requests pick_request
dispatch_requests-Steps refused now rounds t =
    by_pick (pick_request now t) (pick_from-IsPick now t t.priority_queue refl)
  where
    by_pick :
        (o : Option (Request × Transport))
        → IsPick t o
        → Safely (λ (u : Transport). Leads refused t resting u resting) (send_picked rounds o t)
    by_pick none p = stay
    by_pick (some (r, t')) p =
        send_frame-Steps rounds r (encode_frame r.id r.payload) t' (andthen stay p)
