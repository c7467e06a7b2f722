-- ===== src/Transport/Invariant/Carries.antt =====
-- What the transport of wsg50_driver/src/transport.cpp carries to the device: a property of the id
-- and the payload of each command that is asked for holds of each request in it and of each frame
-- of which it has written a part.
pub mod Sending
pub mod Link
pub mod Weaker
pub mod Replies
pub mod Rounds
use wsg50_ros2_humble.Base.{
  ℕ, ◌≡◌, refl, ap, ltb, ==_iff, Bool-cases, inl, inr, Option, none, some, sym, subst, Bool, List,
  [], ◌∷◌, ◌++◌, ◌||◌, ◌==◌, true, false, String, arith, if_both, if◌then◌else◌, ◌∙◌,
}
use wsg50_ros2_humble.Wire.Bytes.{Bytes}
use wsg50_ros2_humble.Wire.Frame.{encode_frame}
use wsg50_ros2_humble.Device.{CommandReply}
use wsg50_ros2_humble.Transport.{
  Transport, TransportOptions, Request, init, erase, assign, set_value, is_settled,
}
use wsg50_ros2_humble.Transport.Requests.{
  start, stop, failure, command, make_request, after_make, fail_request, fail_each, fail_all,
  collected, stream_each, stream_ids, stream_payload, queue_state_streaming,
}
use wsg50_ros2_humble.Transport.Link.{
  disconnect, disconnected, established, with_descriptor, connect_socket, ConnectScript,
  connection_ready,
}
use wsg50_ros2_humble.Transport.Invariant.Settles.{Settles, fail_request-Settles, fail_each-Settles}

-- The bytes are parts of frames, one behind the other, that have the property.
pub data Written (P : ℕ → Bytes → Type 0) : Bytes → Type 0 where
  nothing : Written P []
  adds :
      (before done rest : Bytes) (id : ℕ) (payload : Bytes)
      → Written P before
      → P id payload
      → encode_frame id payload ≡ done ++ rest
      → Written P (before ++ done)

abbrev pub contains : ℕ → List ℕ → Bool
contains k [] = false
contains k (x ∷ xs) = x == k || contains k xs

or_left : (k : ℕ) (b : Bool) → (k == k || b) ≡ true
or_left k b = ground (arith, ==_iff k k)

or_right : (a b : Bool) → b ≡ true → (a || b) ≡ true
or_right a b h = ground arith

module _ (P : ℕ → Bytes → Type 0) where
  abbrev pub AllWaiting : List Request → Type 0
  AllWaiting [] = Unit {0}
  AllWaiting (r ∷ rs) = P r.id r.payload × AllWaiting rs

  abbrev pub AllFlying : List (ℕ × Request) → Type 0
  AllFlying [] = Unit {0}
  AllFlying ((k, r) ∷ m) = P r.id r.payload × AllFlying m

  pub record Carries (options : TransportOptions) (t : Transport) : Type 0 where
    pub configured : t.options ≡ options
    pub queued : AllWaiting t.queue
    pub urgent : AllWaiting t.priority_queue
    pub flying : AllFlying t.in_flight
    pub written : Written P t.written

  AllWaiting-append :
      (rs : List Request) (r : Request)
      → AllWaiting rs
      → P r.id r.payload
      → AllWaiting (rs ++ r ∷ [])
  AllWaiting-append [] r a p = (p, tt)
  AllWaiting-append (x ∷ rs) r (q, a) p = (q, AllWaiting-append rs r a p)

  pub AllFlying-erase : (k : ℕ) (m : List (ℕ × Request)) → AllFlying m → AllFlying (erase k m)
  unfolding erase
  AllFlying-erase k [] a = tt
  AllFlying-erase k ((j, r) ∷ m) (p, a) =
      if_both AllFlying (j == k) m ((j, r) ∷ erase k m) (λ _. a) (λ _. (p, AllFlying-erase k m a))

  pub AllFlying-assign :
      (k : ℕ) (r : Request) (m : List (ℕ × Request))
      → P r.id r.payload
      → AllFlying m
      → AllFlying (assign k r m)
  unfolding assign
  AllFlying-assign k r [] p a = (p, tt)
  AllFlying-assign k r ((j, x) ∷ m) p (q, a) =
      let rest = AllFlying-assign k r m p a in
      let both : AllFlying ((j, x) ∷ m) = (q, a) in
      if_both AllFlying (j == k) ((k, r) ∷ m) _ (λ _. (p, a))
        (λ _. if_both AllFlying (ltb k j) ((k, r) ∷ (j, x) ∷ m) _ (λ _. (p, both)) (λ _. (q, rest)))

  module _ (options : TransportOptions) where
    pub init-Carries : Carries options (init options)
    unfolding init
    init-Carries = record {
      configured = refl;
      queued = tt;
      urgent = tt;
      flying = tt;
      written = nothing;
    }

    -- The rest of the transport plays no part.
    pub Settles-Carries : {t t' : Transport} → Settles t t' → Carries options t → Carries options t'
    Settles-Carries {t} x c = subst (Carries options) (sym x.only) (record {
      configured = c.configured;
      queued = c.queued;
      urgent = c.urgent;
      flying = c.flying;
      written = c.written;
    })

    abbrev pub Connected : Bool × Transport → Type 0
    Connected x = Carries options x.1

    remade : (t : Transport) → Carries options t → Carries options (after_make t)
    remade t c = record {
      configured = c.configured;
      queued = c.queued;
      urgent = c.urgent;
      flying = c.flying;
      written = c.written;
    }

    pub command-Carries :
        (id : ℕ) (payload : Bytes) (allow_pending : Bool) (timeout : ℕ) (priority : Bool)
        (t : Transport)
        → P id payload
        → Carries options t
        → Carries options (command id payload allow_pending timeout priority t).1
    unfolding command
    command-Carries id payload allow_pending timeout priority t p c =
        let r = make_request id payload allow_pending false timeout t in
        let x = fail_request-Settles r "gripper is not connected" (after_make t) in
        let made = Settles-Carries x (remade t c) in
        if_both (λ (y : ℕ × Transport). Carries options y.1) t.connected _ _
          (λ _.
            if_both (Carries options) priority _ _
              (λ _. record {
                configured = c.configured;
                queued = c.queued;
                urgent = AllWaiting-append t.priority_queue r c.urgent p;
                flying = c.flying;
                written = c.written;
              })
              (λ _. record {
                configured = c.configured;
                queued = AllWaiting-append t.queue r c.queued p;
                urgent = c.urgent;
                flying = c.flying;
                written = c.written;
              }))
          (λ _. made)

    pub stream_each-Carries :
        (ids : List ℕ) (payload : Bytes) (t : Transport)
        → ((id : ℕ) → contains id ids ≡ true → P id payload)
        → Carries options t
        → Carries options (stream_each ids payload t)
    unfolding stream_each
    stream_each-Carries [] payload t p c = c
    stream_each-Carries (id ∷ ids) payload t p c =
        let r = make_request id payload false true t.options.response_timeout t in
        stream_each-Carries ids payload _ (λ j h. p j (or_right (id == j) (contains j ids) h))
          (record {
            configured = c.configured;
            queued = AllWaiting-append t.queue r c.queued (p id (or_left id (contains id ids)));
            urgent = c.urgent;
            flying = c.flying;
            written = c.written;
          })

    pub disconnect-Carries :
        (now : ℕ) (reason : String) (t : Transport)
        → Carries options t
        → Carries options (disconnect now reason t)
    unfolding disconnect fail_all
    disconnect-Carries now reason t c =
        let closed = record t { connected = false; socket = none } in
        let emptied = record closed { in_flight = []; queue = []; priority_queue = [] } in
        let x = fail_each-Settles (collected closed) reason emptied in
        let f = Settles-Carries x (record {
          configured = c.configured;
          queued = tt;
          urgent = tt;
          flying = tt;
          written = c.written;
        }) in
        record {
          configured = f.configured;
          queued = f.queued;
          urgent = f.urgent;
          flying = f.flying;
          written = f.written;
        }

    pub start-Carries : (t : Transport) → Carries options t → Carries options (start t).1
    unfolding start
    start-Carries t c =
        if_both Connected t.running _ _ (λ _. c)
          (λ _. record {
            configured = c.configured;
            queued = c.queued;
            urgent = c.urgent;
            flying = c.flying;
            written = c.written;
          })

    pub stop-Carries : (t : Transport) → Carries options t → Carries options (stop t).1
    unfolding stop
    stop-Carries t c =
        if_both Connected t.running _ _
          (λ _. record {
            configured = c.configured;
            queued = c.queued;
            urgent = c.urgent;
            flying = c.flying;
            written = c.written;
          })
          (λ _. c)

    pub queue_state_streaming-Carries :
        (t : Transport)
        → ((id : ℕ) → contains id stream_ids ≡ true → P id (stream_payload (init options)))
        → Carries options t
        → Carries options (queue_state_streaming t)
    unfolding queue_state_streaming init
    queue_state_streaming-Carries t p c =
        stream_each-Carries stream_ids (stream_payload t) t
          (λ id h.
            subst (λ (o : TransportOptions). P id (stream_payload (init o))) (sym c.configured)
              (p id h))
          c
