-- ===== src/Transport/Threads/Runs.antt =====
-- The operations that run() of wsg50_driver/src/transport.cpp is made of, one behind the other, as
-- steps of the worker.
use wsg50_ros2_humble.Base.{
  ℕ, ◌≡◌, refl, sym, ap, ◌∙◌, subst, false, List, [], ◌∷◌, none, String, arith, Outcome, returns,
  throws, waits, Returns, Returns-bind, Safely,
}
use wsg50_ros2_humble.Wire.Bytes.{Bytes}
use wsg50_ros2_humble.Parser.{parse_frames}
use wsg50_ros2_humble.Parser.Frames.{Frame, Decoded, decode_total, run_frames, parse_frames-Decodes}
use wsg50_ros2_humble.Transport.{Transport, Request, set_value}
use wsg50_ros2_humble.Transport.Requests.{fail_request, fail_each, fail_all, collected}
use wsg50_ros2_humble.Transport.Link.{disconnect, disconnected, SendRound}
use wsg50_ros2_humble.Transport.Replies.{handle_frame, expire_requests}
use wsg50_ros2_humble.Transport.Dispatch.{dispatch_requests}
use wsg50_ros2_humble.Transport.Worker.{parse_received}
use wsg50_ros2_humble.Transport.Invariant.{IsOrderly}
use wsg50_ros2_humble.Transport.Invariant.Link.{disconnect-IsOrderly, expire_requests-IsOrderly}
use wsg50_ros2_humble.Transport.Invariant.Replies.{handle_frame-Returns}
use wsg50_ros2_humble.Transport.Invariant.Dispatch.Sending.{dispatch_requests-Safely}
use wsg50_ros2_humble.Transport.Invariant.Worker.{set_buffer-IsOrderly}
use wsg50_ros2_humble.Transport.Threads.{resting, System, system, buffers}
use wsg50_ros2_humble.Transport.Threads.Rounds.{
  WorkerSteps, stay, andthen, Leads, handle_frame-Steps, dispatch_requests-Steps,
  expire_requests-Steps, disconnect-Steps,
}

-- Steps behind steps.
pub Steps-join : {s u v : System} → WorkerSteps s u → WorkerSteps u v → WorkerSteps s v
Steps-join a stay = a
Steps-join a (andthen b st) = andthen (Steps-join a b) st

-- running_ plays no part in disconnect.
abbrev pub halted : Transport → Transport
halted t = record t { running = false }

fail_request-halted :
    (r : Request) (reason : String) (t : Transport)
    → fail_request r reason (halted t) ≡ halted (fail_request r reason t)
unfolding fail_request set_value
fail_request-halted r reason t = ground arith

fail_each-halted :
    (rs : List Request) (reason : String) (t : Transport)
    → fail_each rs reason (halted t) ≡ halted (fail_each rs reason t)
unfolding fail_each
fail_each-halted [] reason t = refl
fail_each-halted (r ∷ rs) reason t =
    ap (fail_each rs reason) (fail_request-halted r reason t)
    ∙ fail_each-halted rs reason (fail_request r reason t)

pub disconnect-halted :
    (now : ℕ) (reason : String) (t : Transport)
    → disconnect now reason (halted t) ≡ halted (disconnect now reason t)
unfolding disconnect fail_all
disconnect-halted now reason t =
    ap (λ (u : Transport). record u { state = disconnected now reason u.state })
      (fail_each-halted (collected t) reason (record t {
        connected = false;
        socket = none;
        in_flight = [];
        queue = [];
        priority_queue = [];
      }))

module _ (s : System) (refused : List Request) where
  -- The worker has led from `s` to an orderly transport, and stands between two operations.
  pub record Kept (t : Transport) : Type 0 where
    pub orderly : IsOrderly t
    pub path : WorkerSteps s (system t resting refused)

  run_frames-Kept :
      (now : ℕ) (fs : List Frame) (t : Transport)
      → Kept t
      → Returns Kept (run_frames (handle_frame now) fs t)
  unfolding run_frames
  run_frames-Kept now [] t k = k
  run_frames-Kept now (f ∷ fs) t k =
      Returns-bind Kept Kept (handle_frame now f.id f.payload t) _
        (handled (handle_frame now f.id f.payload t) refl
          (handle_frame-Returns now f.id f.payload t k.orderly))
        (run_frames-Kept now fs)
    where
      handled :
          (m : Outcome Transport)
          → handle_frame now f.id f.payload t ≡ m
          → Returns IsOrderly m
          → Returns Kept m
      handled (returns u) e v = record {
        orderly = v;
        path = Steps-join k.path (handle_frame-Steps refused now f.id f.payload t u e);
      }
      handled throws e v = absurd v
      handled waits e v = absurd v

  pub set_buffer-Kept :
      (t : Transport) (b : Bytes) → Kept t → Kept (record t { receive_buffer = b })
  set_buffer-Kept t b k = record {
    orderly = set_buffer-IsOrderly t b k.orderly;
    path = andthen k.path (buffers b);
  }

  pub disconnect-Kept :
      (now : ℕ) (reason : String) (t : Transport) → Kept t → Kept (disconnect now reason t)
  disconnect-Kept now reason t k = record {
    orderly = disconnect-IsOrderly now reason t k.orderly.accounted;
    path = Steps-join k.path (disconnect-Steps refused now reason t);
  }

  pub expire_requests-Kept : (now : ℕ) (t : Transport) → Kept t → Kept (expire_requests now t)
  expire_requests-Kept now t k = record {
    orderly = expire_requests-IsOrderly now t k.orderly;
    path = Steps-join k.path (expire_requests-Steps refused now t);
  }

  pub dispatch_requests-Kept :
      (now : ℕ) (rounds : List SendRound) (t : Transport)
      → Kept t
      → Safely Kept (dispatch_requests now rounds t)
  dispatch_requests-Kept now rounds t k =
      both (dispatch_requests now rounds t) (dispatch_requests-Safely now rounds t k.orderly)
        (dispatch_requests-Steps refused now rounds t)
    where
      both :
          (m : Outcome Transport)
          → Safely IsOrderly m
          → Safely (λ (u : Transport). Leads refused t resting u resting) m
          → Safely Kept m
      both (returns u) v path = record { orderly = v; path = Steps-join k.path path }
      both throws v path = absurd v
      both waits v path = tt

  pub parse_received-Kept : (now : ℕ) (t : Transport) → Kept t → Returns Kept (parse_received now t)
  unfolding parse_received
  parse_received-Kept now t k =
      Returns-bind (λ (x : Bytes × Transport). Kept x.1) Kept
        (parse_frames (handle_frame now) t.options.max_payload_size t.receive_buffer t) _
        (subst (Returns (λ (x : Bytes × Transport). Kept x.1))
          (sym (parse_frames-Decodes (handle_frame now) _ t d.decodes))
          (Returns-bind Kept (λ (x : Bytes × Transport). Kept x.1)
            (run_frames (handle_frame now) d.frames t) _ (run_frames-Kept now d.frames t k)
            (λ t' k'. k')))
        (λ x k'. set_buffer-Kept x.1 x.0 k')
    where
      d : Decoded t.options.max_payload_size t.receive_buffer
      d = decode_total t.options.max_payload_size t.receive_buffer
