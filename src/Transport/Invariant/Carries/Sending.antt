-- ===== src/Transport/Invariant/Carries/Sending.antt =====
-- What dispatch_requests of wsg50_driver/src/transport.cpp writes: parts of the frames of requests.
use wsg50_ros2_humble.Base.{
  ℕ, ◌+◌, ◌≡◌, refl, sym, ◌∙◌, Bool, List, [], ◌∷◌, ◌++◌, append-nil, Option, none, some,
  if◌then◌else◌, Safely-Yields, Yields, Safely-bind, Option-cases, inl, inr,
}
use wsg50_ros2_humble.Wire.Bytes.{Bytes}
use wsg50_ros2_humble.Wire.Frame.{encode_frame}
use wsg50_ros2_humble.Transport.{Transport, TransportOptions, Request, find, erase}
use wsg50_ros2_humble.Transport.Link.{SendRound, send_all}
use wsg50_ros2_humble.Transport.Dispatch.{
  put_in_flight, pick_normal, pick_from, pick_request, abandon, send_frame, send_picked,
  dispatch_requests,
}
use wsg50_ros2_humble.Transport.Invariant.Link.{SendEnd, all_sent, halted, dropped, send_all_ends}
use wsg50_ros2_humble.Transport.Invariant.Carries.{
  fail_request-Settles, adds, AllFlying-erase, AllFlying-assign, AllWaiting, Carries,
  Settles-Carries, disconnect-Carries,
}

module _ (P : ℕ → Bytes → Type 0) (options : TransportOptions) where
  abbrev Has : Request → Type 0
  Has r = P r.id r.payload

  -- The request that is picked has the property.
  abbrev PickCarries : Option (Request × Transport) → Type 0
  PickCarries none = Unit {0}
  PickCarries (some (r, t)) = Has r × Carries P options t

  put_in_flight-Carries :
      (now : ℕ) (r : Request) (t : Transport)
      → Has r
      → Carries P options t
      → PickCarries (some (put_in_flight now r t))
  unfolding put_in_flight
  put_in_flight-Carries now r t p c = (
    p,
    record {
      configured = c.configured;
      queued = c.queued;
      urgent = c.urgent;
      flying =
          AllFlying-assign P r.id (record r { deadline = now + r.timeout }) t.in_flight p c.flying;
      written = c.written;
    },
  )

  pick_normal-Carries :
      (now : ℕ) (rs : List Request) (t : Transport)
      → AllWaiting P rs
      → Carries P options t
      → PickCarries (pick_normal now rs t)
  unfolding pick_normal
  pick_normal-Carries now [] t a c = tt
  pick_normal-Carries now (r ∷ rest) t (p, a) c = by_flight t.in_flight
    where
      taken : Carries P options (record t { queue = rest })
      taken = record {
        configured = c.configured;
        queued = a;
        urgent = c.urgent;
        flying = c.flying;
        written = c.written;
      }

      by_flight :
          (m : List (ℕ × Request))
          → PickCarries (elim m [
            | [] ↦ some (put_in_flight now r (record t { queue = rest }))
            | entry ∷ others ↦ none
          ])
      by_flight [] = put_in_flight-Carries now r _ p taken
      by_flight (x ∷ m) = tt

  pick_from-Carries :
      (now : ℕ) (rs : List Request) (t : Transport)
      → AllWaiting P rs
      → Carries P options t
      → PickCarries (pick_from now rs t)
  unfolding pick_from
  pick_from-Carries now [] t a c = pick_normal-Carries now t.queue t c.queued c
  pick_from-Carries now (r ∷ rest) t (p, a) c = elim (Option-cases (find r.id t.in_flight)) [
    | inl free ↦
        rw (free, PickCarries)
          (put_in_flight-Carries now r (record t { priority_queue = rest }) p
            (record {
              configured = c.configured;
              queued = c.queued;
              urgent = a;
              flying = c.flying;
              written = c.written;
            }))
    | inr (other, e) ↦ rw (e, PickCarries) tt
  ]

  abandon-Carries :
      (r : Request) (t : Transport) → Carries P options t → Carries P options (abandon r t)
  unfolding abandon
  abandon-Carries r t c =
      Settles-Carries P options
        (fail_request-Settles r "failed to send command"
          (record t { in_flight = erase r.id t.in_flight }))
        (record {
          configured = c.configured;
          queued = c.queued;
          urgent = c.urgent;
          flying = AllFlying-erase P r.id t.in_flight c.flying;
          written = c.written;
        })

  -- A first part of the frame of a request is written.
  part-Carries :
      (r : Request) (done rest : Bytes) (t : Transport)
      → Has r
      → encode_frame r.id r.payload ≡ done ++ rest
      → Carries P options t
      → Carries P options (record t { written = t.written ++ done })
  part-Carries r done rest t p e c = record {
    configured = c.configured;
    queued = c.queued;
    urgent = c.urgent;
    flying = c.flying;
    written = adds t.written done rest r.id r.payload c.written p e;
  }

  sent-Carries :
      (r : Request) (t : Transport) (frame : Bytes) (sent : Bool) (t' : Transport)
      → Has r
      → Carries P options t
      → encode_frame r.id r.payload ≡ frame
      → SendEnd t frame sent t'
      → Carries P options (if sent then t' else abandon r t')
  sent-Carries r t frame sent t' p c same (all_sent s e) =
      rw (s, e) (part-Carries r frame [] t p (same ∙ sym (append-nil frame)) c)
  sent-Carries r t frame sent t' p c same (halted done rest split s e) =
      rw (s, e) (abandon-Carries r _ (part-Carries r done rest t p (same ∙ split) c))
  sent-Carries r t frame sent t' p c same (dropped done rest now reason split s e) =
      rw (s, e)
        (abandon-Carries r _ (
          disconnect-Carries P options now reason _
            (part-Carries r done rest t p (same ∙ split) c)))

  send_frame-Carries :
      (rounds : List SendRound) (r : Request) (frame : Bytes) (t : Transport)
      → Has r
      → Carries P options t
      → encode_frame r.id r.payload ≡ frame
      → Yields (Carries P options) (send_frame rounds r frame t)
  unfolding send_frame
  send_frame-Carries rounds r [] t p c same = abandon-Carries r t c
  send_frame-Carries rounds r (b ∷ bs) t p c same = Safely-Yields (Carries P options) _ (
      Safely-bind (λ (x : Bool × Transport). SendEnd t (b ∷ bs) x.0 x.1) (Carries P options)
        (send_all rounds (b ∷ bs) t) _ (send_all_ends rounds (b ∷ bs) t)
        (λ x. sent-Carries r t (b ∷ bs) x.0 x.1 p c same))

  pub dispatch_requests-Carries :
      (now : ℕ) (rounds : List SendRound) (t : Transport)
      → Carries P options t
      → Yields (Carries P options) (dispatch_requests now rounds t)
  unfolding dispatch_requests send_picked pick_request
  dispatch_requests-Carries now rounds t c =
      by_pick (pick_request now t) (pick_from-Carries now t.priority_queue t c.urgent c)
    where
      by_pick :
          (o : Option (Request × Transport))
          → PickCarries o
          → Yields (Carries P options) (send_picked rounds o t)
      by_pick none p = c
      by_pick (some (r, t')) (p, c') = send_frame-Carries rounds r _ t' p c' refl
