-- ===== src/Transport/Invariant/Link.antt =====
-- disconnect, connect_socket, send_all and expire_requests of wsg50_driver/src/transport.cpp: what
-- becomes of the promises, and the invariant.
pub mod Progress
use wsg50_ros2_humble.Base.{
  ℕ, ◌+◌, ◌%◌, ◌^◌, ◌<◌, ◌≡◌, refl, sym, ap, ◌∙◌, Bool, true, false, List, [], ◌∷◌, ◌++◌, String,
  Option, none, some, arith, if_both, subst, Outcome, Safely, Safely-mono, take, drop,
  take-append-drop, append-nil, append_assoc,
}
use wsg50_ros2_humble.Wire.Bytes.{Bytes}
use wsg50_ros2_humble.Transport.{Transport}
use wsg50_ros2_humble.Transport.Requests.{fail_all, collected}
use wsg50_ros2_humble.Transport.Link.{
  disconnect, ConnectScript, connect_socket, established, with_descriptor, SendRound, SendResult,
  accepted, try_again, failed, send_loop, send_all,
}
use wsg50_ros2_humble.Transport.Replies.{expire_requests}
use wsg50_ros2_humble.Transport.Invariant.{times_set, Balance, IsOrderly}
use wsg50_ros2_humble.Transport.Invariant.Settle.{failures, fail_all-Balance}

-- The transport after a disconnect: no connection and nothing that waits. Each request that waited
-- has had its promise set to a failure with the reason, and no other promise was touched.
pub record IsDown (reason : String) (t t' : Transport) : Type 0 where
  pub offline : t'.connected ≡ false
  pub no_socket : t'.socket ≡ none
  pub no_flight : t'.in_flight ≡ []
  pub no_queue : t'.queue ≡ []
  pub no_priority : t'.priority_queue ≡ []
  pub replies : t'.settled ≡ failures reason (collected t) t.settled
  pub promises : t'.promises ≡ t.promises
  pub all_set : (k : ℕ) → k < t'.promises → times_set k t'.settled ≡ 1
  pub told : (t'.state.connected ≡ false) × (t'.state.last_error ≡ reason)

module _ (now : ℕ) (reason : String) (t : Transport) (accounted : Balance (λ k. 0) t) where
  abbrev closed : Transport
  closed = record t { connected = false; socket = none }

  failed_eq : fail_all reason closed ≡ record closed {
    in_flight = [];
    queue = [];
    priority_queue = [];
    settled = failures reason (collected t) t.settled;
  }
  failed_eq = (fail_all-Balance reason closed accounted).0

  -- If the promises are accounted for, disconnect leaves no socket, no request in flight and empty
  -- queues, sets the promise of each collected request to the failure, in order, so that every
  -- promise is set exactly once, and shows the reason in the state.
  pub disconnect-IsDown : IsDown reason t (disconnect now reason t)
  unfolding disconnect
  disconnect-IsDown = rw failed_eq (record {
    offline = refl;
    no_socket = refl;
    no_flight = refl;
    no_queue = refl;
    no_priority = refl;
    replies = refl;
    promises = refl;
    all_set = λ k h. let balance = (fail_all-Balance reason closed accounted).1 k in ground arith;
    told = (refl, refl);
  })

  -- A disconnect makes the transport orderly, whatever the map and the flags were.
  pub disconnect-IsOrderly : IsOrderly (disconnect now reason t)
  unfolding disconnect
  disconnect-IsOrderly = rw failed_eq (record {
    accounted = (fail_all-Balance reason closed accounted).1;
    keyed = tt;
    offline_flight = λ h. refl;
    offline_queue = λ h. refl;
    offline_priority = λ h. refl;
    shown = refl;
    linked = refl;
  })

pub expire_requests-IsOrderly :
    (now : ℕ) (t : Transport) → IsOrderly t → IsOrderly (expire_requests now t)
unfolding expire_requests
expire_requests-IsOrderly now t v =
    if_both IsOrderly _ _ _ (λ _. disconnect-IsOrderly now "command response timeout" t v.accounted)
      (λ _. v)

-- How send_all ends: all bytes are written; or `running_` was cleared; or the connection was given
-- up. In each case the bytes written are the first of those to send.
pub data SendEnd (t : Transport) (bytes : Bytes) (sent : Bool) (t' : Transport) : Type 0 where
  all_sent : sent ≡ true → t' ≡ record t { written = t.written ++ bytes } → SendEnd t bytes sent t'
  halted :
      (done rest : Bytes)
      → bytes ≡ done ++ rest
      → sent ≡ false
      → t' ≡ record t { written = t.written ++ done }
      → SendEnd t bytes sent t'
  dropped :
      (done rest : Bytes) (now : ℕ) (reason : String)
      → bytes ≡ done ++ rest
      → sent ≡ false
      → t' ≡ disconnect now reason (record t { written = t.written ++ done })
      → SendEnd t bytes sent t'

abbrev pub written_more : Transport → Bytes → Transport
written_more t done = record t { written = t.written ++ done }

pub written_none : (t : Transport) → t ≡ written_more t []
written_none t = ap (λ w. record t { written = w }) (sym (append-nil t.written))

written_twice :
    (t : Transport) (a b : Bytes) → written_more (written_more t a) b ≡ written_more t (a ++ b)
written_twice t a b = ap (λ w. record t { written = w }) (append_assoc t.written a b)

SendEnd-more :
    (t : Transport) (a bytes : Bytes) (sent : Bool) (t' : Transport)
    → SendEnd (written_more t a) bytes sent t'
    → SendEnd t (a ++ bytes) sent t'
SendEnd-more t a bytes sent t' (all_sent s e) = all_sent s (e ∙ written_twice t a bytes)
SendEnd-more t a bytes sent t' (halted done rest split s e) =
    halted (a ++ done) rest (ap (◌++◌ a) split ∙ sym (append_assoc a done rest)) s
      (e ∙ written_twice t a done)
SendEnd-more t a bytes sent t' (dropped done rest now reason split s e) =
    dropped (a ++ done) rest now reason (ap (◌++◌ a) split ∙ sym (append_assoc a done rest)) s
      (e ∙ ap (disconnect now reason) (written_twice t a done))

abbrev pub EndsSending : Transport → Bytes → Outcome (Bool × Transport) → Type 0
EndsSending t bytes = Safely (λ (r : Bool × Transport). SendEnd t bytes r.0 r.1)

gives_up :
    (now : ℕ) (reason : String) (t : Transport) (bytes : Bytes)
    → SendEnd t bytes false (disconnect now reason t)
gives_up now reason t bytes =
    dropped [] bytes now reason refl refl (ap (disconnect now reason) (written_none t))

round_ends :
    (r : SendRound) (rounds : List SendRound) (b : ℕ) (bs : Bytes) (t : Transport)
    → ((bytes : Bytes) (u : Transport) → EndsSending u bytes (send_loop rounds bytes u))
    → EndsSending t (b ∷ bs) (send_loop (r ∷ rounds) (b ∷ bs) t)
round_ends r rounds b bs t next = by_test r.running r.result refl refl
  where
    by_test :
        (running : Bool) (result : SendResult)
        → r.running ≡ running
        → r.result ≡ result
        → EndsSending t (b ∷ bs) (send_loop (r ∷ rounds) (b ∷ bs) t)
    by_test false result e e' =
        unfold send_loop in rw (e, send_loop) (halted [] (b ∷ bs) refl refl (written_none t))
    by_test true (accepted count) e e' =
        let a = take count (b ∷ bs) in
        let bytes = drop count (b ∷ bs) in
        unfold send_loop in
        rw (e, e', send_loop)
          (subst (λ (x : Bytes). EndsSending t x (send_loop rounds bytes (written_more t a)))
            (take-append-drop count (b ∷ bs))
            (Safely-mono _ _ (send_loop rounds bytes (written_more t a))
              (λ x. SendEnd-more t a bytes x.0 x.1) (next bytes (written_more t a))))
    by_test true (try_again true error) e e' =
        unfold send_loop in rw (e, e', send_loop) (next (b ∷ bs) t)
    by_test true (try_again false error) e e' =
        unfold send_loop in rw (e, e', send_loop) (gives_up r.now _ t (b ∷ bs))
    by_test true (failed error) e e' =
        unfold send_loop in rw (e, e', send_loop) (gives_up r.now _ t (b ∷ bs))

-- Where send_all ends, it has written all bytes, or a first part of them and `running_` was
-- cleared, or a first part of them and disconnect was called; it throws nothing.
pub send_all_ends :
    (rounds : List SendRound) (bytes : Bytes) (t : Transport)
    → EndsSending t bytes (send_all rounds bytes t)
unfolding send_all
send_all_ends rounds [] t = all_sent refl (written_none t)
send_all_ends [] (b ∷ bs) t = tt
send_all_ends (r ∷ rounds) (b ∷ bs) t = round_ends r rounds b bs t (send_all_ends rounds)

-- What connect_socket leaves: a connection with an empty receive buffer and the next generation, or
-- the transport as it was but for the text of the status.
pub data ConnectEnd (t : Transport) (connected : Bool) (t' : Transport) : Type 0 where
  up :
      connected ≡ true
      → t'.connected ≡ true
      → t'.receive_buffer ≡ []
      → t'.state.connection_generation ≡ (t.state.connection_generation + 1) % 2 ^ 64
      → ConnectEnd t connected t'
  down :
      (text : String)
      → connected ≡ false
      → t' ≡ record t { state = record (t.state) { status_message = text } }
      → ConnectEnd t connected t'

module _ (script : ConnectScript) (t : Transport) (v : IsOrderly t) where
  abbrev Connects : Bool × Transport → Type 0
  Connects r = IsOrderly r.1 × ConnectEnd t r.0 r.1

  relabelled :
      (text : String) → IsOrderly (record t { state = record (t.state) { status_message = text } })
  relabelled text = record {
    accounted = v.accounted;
    keyed = v.keyed;
    offline_flight = v.offline_flight;
    offline_queue = v.offline_queue;
    offline_priority = v.offline_priority;
    shown = v.shown;
    linked = v.linked;
  }

  refused_end : Connects (false, t)
  refused_end = (v, down t.state.status_message refl refl)

  established_end : (fd : ℕ) → Connects (true, established fd script.now t)
  unfolding established
  established_end fd = (
    record {
      accounted = v.accounted;
      keyed = v.keyed;
      offline_flight = λ h. cc;
      offline_queue = λ h. cc;
      offline_priority = λ h. cc;
      shown = refl;
      linked = refl;
    },
    up refl refl refl refl,
  )

  with_descriptor_end : (fd : Option ℕ) → Connects (with_descriptor script fd t)
  unfolding with_descriptor
  with_descriptor_end none = refused_end
  with_descriptor_end (some fd) =
      if_both Connects script.non_blocking _ _
        (λ _.
          if_both Connects script.valid_address _ _
            (λ _. if_both Connects _ _ _ (λ _. established_end fd) (λ _. refused_end))
            (λ _. (relabelled "invalid IPv4 address", down "invalid IPv4 address" refl refl)))
        (λ _. refused_end)

  -- From an orderly transport, connect_socket leaves a connection with an empty receive buffer and
  -- the next generation, or the transport as it was but for the text of the status; the transport
  -- stays orderly.
  pub connect_socket_ends : Connects (connect_socket script t)
  unfolding connect_socket
  connect_socket_ends = with_descriptor_end script.descriptor
