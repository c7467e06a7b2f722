-- ===== src/Transport/Invariant/Carries/Replies.antt =====
-- The frames that wsg50_driver/src/transport.cpp receives add no request.
use wsg50_ros2_humble.Base.{
  ℕ, ◌+◌, ◌≡◌, refl, sym, subst, List, [], ◌∷◌, arith, Option, none, some, ltb, if_both, Yields,
  Yields-bind, inl, inr, ◌&&◌, ◌==◌, length, Bool-cases,
}
use wsg50_ros2_humble.Wire.Bytes.{Bytes, read_u16}
use wsg50_ros2_humble.Device.{DeviceState, status_command_pending, update_state}
use wsg50_ros2_humble.Parser.{parse_frames}
use wsg50_ros2_humble.Parser.Frames.{Frame, Decoded, decode_total, run_frames, parse_frames-Decodes}
use wsg50_ros2_humble.Transport.{Transport, TransportOptions, Request, find, set_value, is_settled}
use wsg50_ros2_humble.Transport.Replies.{answer, note_reply, settle_request, handle_frame}
use wsg50_ros2_humble.Transport.Worker.{parse_received}
use wsg50_ros2_humble.Transport.Invariant.Carries.{
  Carries, AllFlying, AllFlying-erase, AllFlying-assign,
}

module _ (P : ℕ → Bytes → Type 0) (options : TransportOptions) where
  find_flying :
      (k : ℕ) (m : List (ℕ × Request)) (r : Request)
      → AllFlying P m
      → find k m ≡ some r
      → P r.id r.payload
  unfolding find
  find_flying k [] r a e = cc
  find_flying k ((j, x) ∷ m) r (p, a) e = elim (Bool-cases (j == k)) [
    | inl here ↦ let same : x ≡ r = ground arith in subst (λ (y : Request). P y.id y.payload) same p
    | inr beyond ↦ find_flying k m r a (ground arith)
  ]

  with_state :
      (t : Transport) (s : DeviceState)
      → Carries P options t
      → Carries P options (record t { state = s })
  with_state t s c = record {
    configured = c.configured;
    queued = c.queued;
    urgent = c.urgent;
    flying = c.flying;
    written = c.written;
  }

  with_flight :
      (t : Transport) (m : List (ℕ × Request))
      → AllFlying P m
      → Carries P options t
      → Carries P options (record t { in_flight = m })
  with_flight t m a c = record {
    configured = c.configured;
    queued = c.queued;
    urgent = c.urgent;
    flying = a;
    written = c.written;
  }

  pub with_buffer :
      (t : Transport) (b : Bytes)
      → Carries P options t
      → Carries P options (record t { receive_buffer = b })
  with_buffer t b c = record {
    configured = c.configured;
    queued = c.queued;
    urgent = c.urgent;
    flying = c.flying;
    written = c.written;
  }

  set_value-Carries :
      (k status : ℕ) (payload : Bytes) (t : Transport)
      → Carries P options t
      → Yields (Carries P options) (set_value k (answer status payload) t)
  unfolding set_value
  set_value-Carries k status payload t c =
      if_both (Yields (Carries P options)) (is_settled k t.settled) _ _ (λ _. tt)
        (λ _. record {
          configured = c.configured;
          queued = c.queued;
          urgent = c.urgent;
          flying = c.flying;
          written = c.written;
        })

  settle_request-Carries :
      (now id status : ℕ) (payload : Bytes) (t : Transport) (o : Option Request)
      → find id t.in_flight ≡ o
      → Carries P options t
      → Yields (Carries P options) (settle_request now id status payload o t)
  unfolding settle_request
  settle_request-Carries now id status payload t none e c = c
  settle_request-Carries now id status payload t (some r) e c =
      if_both (Yields (Carries P options)) (r.allow_pending && status == status_command_pending) _ _
        (λ _.
          with_flight t _
            (AllFlying-assign P id (record r { deadline = now + r.timeout }) t.in_flight
              (find_flying id t.in_flight r c.flying e) c.flying)
            c)
        (λ _. set_value-Carries r.promise status payload _ (
          with_state _ (note_reply status t.state)
            (with_flight t _ (AllFlying-erase P id t.in_flight c.flying) c)))

  handle_frame-Carries :
      (now id : ℕ) (payload : Bytes) (t : Transport)
      → Carries P options t
      → Yields (Carries P options) (handle_frame now id payload t)
  unfolding handle_frame
  handle_frame-Carries now id payload t c =
      if_both (Yields (Carries P options)) (ltb (length payload) 2) _ _ (λ _. c)
        (λ _.
          settle_request-Carries now id (read_u16 payload) payload
            (record t { state = update_state now id (read_u16 payload) payload t.state })
            (find id t.in_flight) refl (with_state t _ c))

  run_frames-Carries :
      (now : ℕ) (fs : List Frame) (t : Transport)
      → Carries P options t
      → Yields (Carries P options) (run_frames (handle_frame now) fs t)
  unfolding run_frames
  run_frames-Carries now [] t c = c
  run_frames-Carries now (f ∷ fs) t c =
      Yields-bind (Carries P options) (Carries P options) (handle_frame now f.id f.payload t) _
        (handle_frame-Carries now f.id f.payload t c) (run_frames-Carries now fs)

  abbrev Buffered : Bytes × Transport → Type 0
  Buffered x = Carries P options x.1

  pub parse_received-Carries :
      (now : ℕ) (t : Transport)
      → Carries P options t
      → Yields (Carries P options) (parse_received now t)
  unfolding parse_received
  parse_received-Carries now t c =
      Yields-bind Buffered (Carries P options)
        (parse_frames (handle_frame now) t.options.max_payload_size t.receive_buffer t) _
        (subst (Yields Buffered) (sym (parse_frames-Decodes (handle_frame now) _ t d.decodes)) (
          Yields-bind (Carries P options) Buffered (run_frames (handle_frame now) d.frames t) _
            (run_frames-Carries now d.frames t c) (λ t' c'. c')))
        (λ x c'. with_buffer x.1 x.0 c')
    where
      d : Decoded t.options.max_payload_size t.receive_buffer
      d = decode_total t.options.max_payload_size t.receive_buffer
